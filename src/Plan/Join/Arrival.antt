-- ===== src/Plan/Join/Arrival.antt =====
-- The arrival of the numbered results of a join, each exactly once and in any order.
use gsql.Common.{
  ℕ, suc, ◌+◌, Bool, not, none, some, List, [], ◌∷◌, ◌++◌, length, filter, filter-append, ◌≡◌, refl,
  sym, ap, subst, ◌∙◌, ◌⊎◌, inl, inr, arith, if◌then◌else◌, Bool-cases,
}
use gsql.Plan.Row.{Row}
use gsql.Plan.Join.Pipeline.{Published, lookup_seq, has_seq, delete_seq}

-- Each of the batches, numbered from `seq` on, stands in the list exactly once, and nothing else.
abbrev pub Arrives : ℕ → List (List Row) → List Published → Type 0
Arrives seq [] ps = ps ≡ []
Arrives seq (b ∷ bs) ps =
    (filter (has_seq seq) ps ≡ (seq, b) ∷ []) × Arrives (suc seq) bs (delete_seq seq ps)

pub lookup_seq-filter :
    (seq : ℕ) (b : List Row) (ps : List Published)
    → filter (has_seq seq) ps ≡ (seq, b) ∷ []
    → lookup_seq seq ps ≡ some b
unfolding lookup_seq
lookup_seq-filter seq b [] h = cc
lookup_seq-filter seq b ((s, rows) ∷ ps) h = ground (arith, lookup_seq-filter seq b ps)

pub lookup_seq-none :
    (seq : ℕ) (ps : List Published) → filter (has_seq seq) ps ≡ [] → lookup_seq seq ps ≡ none
unfolding lookup_seq
lookup_seq-none seq [] h = refl
lookup_seq-none seq ((s, rows) ∷ ps) h = ground (arith, lookup_seq-none seq ps)

-- A list that is one element long is so by one of its two parts.
pub append-singleton :
    (xs ys : List Published) (p : Published)
    → xs ++ ys ≡ p ∷ []
    → ((xs ≡ p ∷ []) × (ys ≡ [])) ⊎ ((xs ≡ []) × (ys ≡ p ∷ []))
append-singleton [] ys p h = inr (refl, h)
append-singleton (x ∷ []) [] p h = inl (h, refl)
append-singleton (x ∷ []) (y ∷ ys) p h = cc
append-singleton (x ∷ x' ∷ xs) ys p h = cc

filter-not_none {ℓ} :
    {A : Type ℓ} (p : A → Bool) (xs : List A) → filter p xs ≡ [] → filter (λ x. not (p x)) xs ≡ xs
filter-not_none p [] h = refl
filter-not_none p (x ∷ xs) h = ground (arith, filter-not_none p xs)

-- The rows that received batches still hold, with one turn to take each; and those of results, with
-- one turn more to receive each.
unfoldable pub weight : ℕ → List Published → ℕ
weight turns [] = 0
weight turns (p ∷ ps) = turns + length p.1 + weight turns ps

pub weight-filter :
    (turns : ℕ) (p : Published → Bool) (ps : List Published)
    → weight turns (filter p ps) + weight turns (filter (λ x. not (p x)) ps) ≡ weight turns ps
unfolding weight
weight-filter turns p [] = omega arith
weight-filter turns p (x ∷ ps) = ground (arith, weight-filter turns p ps)

-- The batch that is due has arrived: it is found, and the rest is still to come.
pub due-received :
    (seq : ℕ) (b : List Row) (bs : List (List Row)) (xs ys : List Published)
    → filter (has_seq seq) xs ≡ (seq, b) ∷ []
    → filter (has_seq seq) ys ≡ []
    → Arrives (suc seq) bs (delete_seq seq (xs ++ ys))
    → Arrives (suc seq) bs (delete_seq seq xs ++ ys)
unfolding delete_seq
due-received seq b bs xs ys hx hy h =
    subst (Arrives (suc seq) bs)
      (filter-append _ xs ys
        ∙ ap (λ zs. filter (λ p. not (has_seq seq p)) xs ++ zs)
            (filter-not_none (has_seq seq) ys hy))
      h

delete-append :
    (seq : ℕ) (xs ys : List Published)
    → delete_seq seq (xs ++ ys) ≡ delete_seq seq xs ++ delete_seq seq ys
unfolding delete_seq
delete-append seq xs ys = filter-append _ xs ys

delete-cons :
    (seq : ℕ) (p : Published) (xs : List Published)
    → delete_seq seq (p ∷ xs)
      ≡ (if not (has_seq seq p) then p ∷ delete_seq seq xs else delete_seq seq xs)
unfolding delete_seq
delete-cons seq p xs = refl

has_seq-singleton :
    (seq : ℕ) (p : Published) (xs ys : List Published) (b : List Row)
    → filter (has_seq seq) (xs ++ p ∷ ys) ≡ (seq, b) ∷ []
    → filter (has_seq seq) (p ∷ xs ++ ys) ≡ (seq, b) ∷ []
has_seq-singleton seq p xs ys b h =
    let parts = sym (filter-append (has_seq seq) xs (p ∷ ys)) ∙ h in
    elim (Bool-cases (has_seq seq p)) [
      | inl due ↦
          elim (append-singleton (filter (has_seq seq) xs) (p ∷ filter (has_seq seq) ys) (seq, b)
            (rw due at parts)) [
              | inl (e, n) ↦ cc
              | inr (n, e) ↦ rw due (ap (λ zs. p ∷ zs) (filter-append (has_seq seq) xs ys) ∙ rw n e)
            ]
      | inr other ↦ rw other (filter-append (has_seq seq) xs ys ∙ (rw other at parts))
    ]

-- A result may be received early: its place does not matter.
pub Arrives-early :
    (seq : ℕ) (bs : List (List Row)) (xs : List Published) (p : Published) (ys : List Published)
    → Arrives seq bs (xs ++ p ∷ ys)
    → Arrives seq bs (p ∷ xs ++ ys)
Arrives-early seq [] [] p ys h = h
Arrives-early seq [] (x ∷ xs) p ys h = cc
Arrives-early seq (b ∷ bs) xs p ys h = (
  has_seq-singleton seq p xs ys b h.0,
  elim (Bool-cases (has_seq seq p)) [
    | inl due ↦
        subst (Arrives (suc seq) bs)
          (delete-append seq xs (p ∷ ys)
            ∙ ap (λ zs. delete_seq seq xs ++ zs) (delete-cons seq p ys ∙ rw due refl)
            ∙ sym (delete-append seq xs ys)
            ∙ sym (delete-cons seq p (xs ++ ys) ∙ rw due refl))
          h.1
    | inr other ↦
        subst (Arrives (suc seq) bs)
          (sym
            (delete-cons seq p (xs ++ ys) ∙ rw other (ap (λ zs. p ∷ zs) (delete-append seq xs ys))))
          (Arrives-early (suc seq) bs (delete_seq seq xs) p (delete_seq seq ys) (
            subst (Arrives (suc seq) bs)
              (delete-append seq xs (p ∷ ys)
                ∙ ap (λ zs. delete_seq seq xs ++ zs) (delete-cons seq p ys ∙ rw other refl))
              h.1))
  ],
)
