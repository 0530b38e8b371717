-- ===== src/Plan/Window/Keys.antt =====
-- Lists of different keys, in the order in which they first occur.
use mathlib.Core.Option
use gsql.Common.{
  ℕ, suc, false, Option, none, some, List, [], ◌∷◌, ◌++◌, length, ◌≡◌, refl, sym, subst, ◌∙◌, inl,
  inr, arith, if◌then◌else◌, Bool-cases, Option-cases,
}
use gsql.Text.{Text, ◌==◌, eq_iff}

-- The position of a key in a list of keys.
abbrev pub index_of : Text → List Text → Option ℕ
index_of k [] = none
index_of k (j ∷ keys) = if j == k then some 0 else Option.map suc (index_of k keys)

-- The keys with one more, at their end, if it is new.
abbrev pub note_at : Option ℕ → Text → List Text → List Text
note_at none k keys = keys ++ k ∷ []
note_at (some i) k keys = keys

abbrev pub note_key : Text → List Text → List Text
note_key k keys = note_at (index_of k keys) k keys

abbrev pub Distinct : List Text → Type 0
Distinct [] = Unit
Distinct (k ∷ keys) = (index_of k keys ≡ none) × Distinct keys

pub map-none : (o : Option ℕ) → Option.map suc o ≡ none → o ≡ none
map-none none e = refl
map-none (some i) e = cc

pub index_of-snoc :
    (k j : Text) (keys : List Text)
    → index_of j keys ≡ none
    → index_of k (keys ++ j ∷ []) ≡ (if j == k then some (length keys) else index_of k keys)
index_of-snoc k j [] h = refl
index_of-snoc k j (i ∷ keys) h = elim (Bool-cases (i == j)) [
  | inl e ↦ let found : some 0 ≡ none = sym (rw e refl) ∙ h in cc
  | inr e ↦
      let gone : index_of j keys ≡ none = map-none (index_of j keys) (sym (rw e refl) ∙ h) in
      elim (Bool-cases (i == k)) [
        | inl f ↦
            let apart : (j == k) ≡ false = ground (arith, eq_iff i k, eq_iff j k, eq_iff i j) in
            rw (f, apart) refl
        | inr f ↦ rw (f, index_of-snoc k j keys gone) (ground arith)
      ]
]

pub note_key-Distinct : (k : Text) (keys : List Text) → Distinct keys → Distinct (note_key k keys)
note_key-Distinct k keys h = elim (Option-cases (index_of k keys)) [
  | inl e ↦ subst (λ o. Distinct (note_at o k keys)) (sym e) (snoc-Distinct keys e h)
  | inr (i, e) ↦ subst (λ o. Distinct (note_at o k keys)) (sym e) h
]
  where
    snoc-Distinct : (ks : List Text) → index_of k ks ≡ none → Distinct ks → Distinct (ks ++ k ∷ [])
    snoc-Distinct [] e d = (refl, tt)
    snoc-Distinct (j ∷ ks) e d = elim (Bool-cases (j == k)) [
      | inl f ↦ let found : some 0 ≡ none = sym (rw f refl) ∙ e in absurd cc
      | inr f ↦
          let gone : index_of k ks ≡ none = map-none (index_of k ks) (sym (rw f refl) ∙ e) in
          let apart : (k == j) ≡ false = ground (arith, eq_iff j k, eq_iff k j) in
          (index_of-snoc j k ks gone ∙ rw (apart) d.0, snoc-Distinct ks gone d.1)
    ]
