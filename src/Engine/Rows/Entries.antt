-- ===== src/Engine/Rows/Entries.antt =====
-- The text that dedupRows makes of a row (pkg/engine/engine.go), and the entries of the row.
use gsql.Common.{
  ℕ, Bool, true, false, ◌≡◌, refl, sym, ap, ap₂, subst, ◌∙◌, List, [], ◌∷◌, ◌++◌, map, filter, All,
  ◌↔◌, inl, inr, Bool-cases, arith, if◌then◌else◌,
}
use gsql.Common.Some.{Some, Some-map, Some-imp, Some-find}
use gsql.Text.{Text, ◌==◌, text_lt, join, eq_of_test, eq_iff}
use gsql.Text.Cut.{without, cut_at, IsPiece, join-injective}
use gsql.Text.Order.{text_lt_total, text_lt_self}
use gsql.Sort.{stable_sort}
use gsql.Sort.Members.{Some-stable_sort, All-stable_sort}
use gsql.Sort.Texts.{Any, every-Any, text_weak}
use gsql.Sort.Contract.{tied, stable_sort_iff}
use gsql.Plan.Row.{Row}
use gsql.Engine.Plan.{has_text}
use gsql.Engine.Names.{has_text_iff}
use gsql.Engine.Rows.{row_key}

abbrev Entry : Type 0
Entry = Text × Text

abbrev part : Entry → Text
part entry = entry.0 ++ b'=' ∷ entry.1

-- The row has the entry.
abbrev pub Has : Row → Text → Text → Type 0
Has row name val = Some (λ entry. entry ≡ (name, val)) row

-- Both rows have the same columns with the same values.
abbrev pub Agree : Row → Row → Type 0
Agree a b = (name val : Text) → Has a name val ↔ Has b name val

-- No text is twice in the list.
abbrev pub IsDistinct : List Text → Type 0
IsDistinct [] = Unit
IsDistinct (s ∷ ss) = (has_text ss s ≡ false) × IsDistinct ss

-- The names of the columns have no NUL and no equals sign, and the values no NUL.
abbrev pub IsClean : Entry → Type 0
IsClean entry =
    (without 0 entry.0 ≡ true) × (without b'=' entry.0 ≡ true) × (without 0 entry.1 ≡ true)

-- A map: no column is twice in the row.
abbrev pub IsMap : Row → Type 0
IsMap row = All IsClean row × IsDistinct (map (λ entry. entry.0) row)

part-injective : (d e : Entry) → IsClean d → IsClean e → part d ≡ part e → d ≡ e
part-injective d e hd he h =
    let cut = cut_at b'=' d.0 e.0 d.1 e.1 hd.1 he.1 h in ap₂ (λ n v. (n, v)) cut.0 cut.1

without-append :
    (sep : ℕ) (s t : Text)
    → without sep s ≡ true
    → without sep t ≡ true
    → without sep (s ++ t) ≡ true
without-append sep [] t h k = k
without-append sep (c ∷ s) t h k = ground (arith, without-append sep s t)

part-IsPiece : (e : Entry) → IsClean e → IsPiece 0 (part e)
part-IsPiece ([], val) h = h.2
part-IsPiece (c ∷ name, val) h = without-append 0 (c ∷ name) (b'=' ∷ val) h.0 (h.2)

parts-IsPiece : (row : Row) → All IsClean row → All (IsPiece 0) (map part row)
parts-IsPiece [] h = tt
parts-IsPiece (e ∷ row) h = (part-IsPiece e h.0, parts-IsPiece row h.1)

-- An entry of the row is as all entries are.
entry-IsClean : (row : Row) (e : Entry) → All IsClean row → Some (λ d. d ≡ e) row → IsClean e
entry-IsClean [] e all h = absurd h
entry-IsClean (d ∷ row) e all (inl same) = subst IsClean same all.0
entry-IsClean (d ∷ row) e all (inr h) = entry-IsClean row e all.1 h

-- The entries of a row by their texts.
part_iff :
    (row : Row) (e : Entry)
    → All IsClean row
    → IsClean e
    → Some (λ d. d ≡ e) row ↔ Some (λ s. s ≡ part e) (map part row)
part_iff [] e h c = (λ k. k, λ k. k)
part_iff (d ∷ row) e h c =
    let later = part_iff row e h.1 c in
    (
      λ k. elim k [ inl same ↦ inl (ap part same) | inr q ↦ inr (later.0 q) ],
      λ k. elim k [ inl same ↦ inl (part-injective d e h.0 c same) | inr q ↦ inr (later.1 q) ],
    )

parts_of_key :
    (a b : Row)
    → All IsClean a
    → All IsClean b
    → row_key a ≡ row_key b
    → stable_sort text_lt (map part a) ≡ stable_sort text_lt (map part b)
unfolding row_key
parts_of_key a b ha hb same =
    join-injective 0 (stable_sort text_lt (map part a)) (stable_sort text_lt (map part b))
      (All-stable_sort text_lt (IsPiece 0) (map part a) (parts-IsPiece a ha))
      (All-stable_sort text_lt (IsPiece 0) (map part b) (parts-IsPiece b hb)) same

entry_kept :
    (a b : Row) (e : Entry)
    → All IsClean a
    → All IsClean b
    → row_key a ≡ row_key b
    → Some (λ d. d ≡ e) a
    → Some (λ d. d ≡ e) b
entry_kept a b e ha hb same h =
    let clean = entry-IsClean a e ha h in
    let is_part : Text → Type 0 = λ s. s ≡ part e in
    let in_a = (Some-stable_sort text_lt is_part (map part a)).1 ((part_iff a e ha clean).0 h) in
    (part_iff b e hb clean).1 (
      (Some-stable_sort text_lt is_part (map part b)).0
        (subst (Some is_part) (parts_of_key a b ha hb same) in_a))

pub row_key-Agree : (a b : Row) → All IsClean a → All IsClean b → row_key a ≡ row_key b → Agree a b
row_key-Agree a b ha hb same name val =
    (entry_kept a b (name, val) ha hb same, entry_kept b a (name, val) hb ha (sym same))

-- Texts that are tied are the same.
tied-same : (s t : Text) → tied text_lt s t ≡ true → s ≡ t
unfolding tied
tied-same s t h = elim (Bool-cases (s == t)) [
  | inl e ↦ eq_of_test s t e
  | inr e ↦ absurd (ground (arith, h, text_lt_total s t e))
]

tied_self : (s : Text) → tied text_lt s s ≡ true
unfolding tied
tied_self s = rw (text_lt_self s) refl

-- The class of a text in a list without repetitions.
filter_class :
    (xs : List Text) (r : Text)
    → IsDistinct xs
    → filter (tied text_lt r) xs ≡ (if has_text xs r then r ∷ [] else [])
unfolding has_text
filter_class [] r h = refl
filter_class (x ∷ xs) r h = elim (Bool-cases (x == r)) [
  | inl e ↦
      let same = eq_of_test x r e in
      let absent : has_text xs r ≡ false = subst (λ s. has_text xs s ≡ false) same h.0 in
      let found : tied text_lt r x ≡ true =
        subst (λ s. tied text_lt r s ≡ true) (sym same) (tied_self r) in
      rw (e, found) (ap₂ (λ s l. s ∷ l) same (filter_class xs r h.1 ∙ rw absent refl))
  | inr e ↦
      let other : tied text_lt r x ≡ false = elim (Bool-cases (tied text_lt r x)) [
        | inl t ↦ absurd (ground (arith, e, eq_iff x r, sym (tied-same r x t)))
        | inr t ↦ t
      ] in
      rw (e, other) (filter_class xs r h.1)
]

-- Lists without repetitions that have the same texts are sorted to the same list.
same_sorted :
    (xs ys : List Text)
    → IsDistinct xs
    → IsDistinct ys
    → ((r : Text) → has_text xs r ≡ has_text ys r)
    → stable_sort text_lt xs ≡ stable_sort text_lt ys
same_sorted xs ys hx hy same =
    let (all, ordered, kept) =
      (stable_sort_iff text_lt Any text_weak ys (stable_sort text_lt ys) (every-Any ys)).1 refl in
    let classes : (r : Text) → filter (tied text_lt r) ys ≡ filter (tied text_lt r) xs =
      λ r. filter_class ys r hy ∙ (rw (← same r) refl ∙ sym (filter_class xs r hx)) in
    sym (
      (stable_sort_iff text_lt Any text_weak xs (stable_sort text_lt ys) (every-Any xs)).0
        (all, ordered, λ r p. kept r p ∙ classes r))

names_of_part :
    (row : Row) (e : Entry)
    → All IsClean row
    → IsClean e
    → has_text (map (λ d. d.0) row) e.0 ≡ false
    → has_text (map part row) (part e) ≡ false
unfolding has_text
names_of_part [] e h c absent = refl
names_of_part (d ∷ row) e h c absent = elim (Bool-cases (part d == part e)) [
  | inl p ↦
      let same = part-injective d e h.0 c (eq_of_test (part d) (part e) p) in
      absurd (ground (arith, absent, eq_iff d.0 e.0, ap (λ (x : Entry). x.0) same))
  | inr p ↦ rw p (names_of_part row e h.1 c (ground (arith, absent)))
]

parts-IsDistinct : (row : Row) → IsMap row → IsDistinct (map part row)
parts-IsDistinct [] h = tt
parts-IsDistinct (e ∷ row) h =
    (names_of_part row e h.0.1 h.0.0 h.1.0, parts-IsDistinct row (h.0.1, h.1.1))

part_found :
    (a b : Row) (r : Text)
    → Agree a b
    → has_text (map part a) r ≡ true
    → has_text (map part b) r ≡ true
part_found a b r agree h =
    let is_r : Text → Type 0 = λ s. s ≡ r in
    let (e, made, place) =
      Some-find (λ d. part d ≡ r) a
        ((Some-map is_r part a).0 ((has_text_iff (map part a) r).0 h)) in
    let in_b = (agree e.0 e.1).0 place in
    (has_text_iff (map part b) r).1 (
      (Some-map is_r part b).1
        (Some-imp (λ d. d ≡ e) (λ d. part d ≡ r) (λ d same. ap part same ∙ made) b in_b))

same_truth : (x y : Bool) → (x ≡ true → y ≡ true) → (y ≡ true → x ≡ true) → x ≡ y
same_truth true y h k = sym (h refl)
same_truth false true h k = k refl
same_truth false false h k = refl

-- Two maps are made the same text exactly if they have the same entries.
pub row_key_iff : (a b : Row) → IsMap a → IsMap b → (row_key a ≡ row_key b) ↔ Agree a b
unfolding row_key
row_key_iff a b ha hb = (
  row_key-Agree a b ha.0 hb.0,
  λ agree. ap (join (0 ∷ [])) (
      same_sorted (map part a) (map part b) (parts-IsDistinct a ha) (parts-IsDistinct b hb) (λ r.
        same_truth (has_text (map part a) r) (has_text (map part b) r) (part_found a b r agree)
          (part_found b a r (λ n v. ((agree n v).1, (agree n v).0))))),
)
