-- ===== src/Plan/Join/Fill.antt =====
-- Filling the columns of a missing side (fillDefaults of pkg/plan/join.go).
use gsql.Common.{none, some, [], ◌∷◌, ◌≡◌, sym, subst, ◌∙◌, inl, inr, Bool-cases, Option-cases}
use gsql.Text.{Text, ◌==◌, eq_iff}
use gsql.Map.{lookup, insert, lookup-insert}
use gsql.Plan.Row.{Row}
use gsql.Plan.Join.{qualified, fill_entry, fill_defaults}

-- The row has a value in the column.
abbrev pub Has : Text → Row → Type 0
Has j row = (v : Text) × (lookup j row ≡ some v)

insert-kept :
    (k w j v : Text) (row : Row)
    → lookup k row ≡ none
    → lookup j row ≡ some v
    → lookup j (insert k w row) ≡ some v
insert-kept k w j v row absent h = lookup-insert k j w row ∙ elim (Bool-cases (k == j)) [
  | inl e ↦
      let lost : none ≡ some v =
        sym absent ∙ subst (λ x. lookup x row ≡ some v) (sym ((eq_iff k j).0 e)) h in
      absurd cc
  | inr e ↦ rw e h
]

fill_entry-kept :
    (prefix k w j v : Text) (row : Row)
    → lookup j row ≡ some v
    → lookup j (fill_entry prefix k w row) ≡ some v
unfolding fill_entry
fill_entry-kept prefix k w j v row h = elim (Option-cases (lookup k row)) [
  | inl e ↦ rw (fill_entry, e) (insert-kept k w j v row e h)
  | inr (x, e) ↦ elim (Bool-cases (prefix == [])) [
    | inl p ↦ rw (fill_entry, e, p) h
    | inr p ↦ elim (Option-cases (lookup (qualified prefix k) row)) [
      | inl q ↦ rw (fill_entry, e, p, q) (insert-kept (qualified prefix k) w j v row q h)
      | inr (y, q) ↦ rw (fill_entry, e, p, q) h
    ]
  ]
]

-- Filling a row with defaults overwrites no value that the row has, under a bare or a qualified name.
pub fill_defaults-kept :
    (dst defaults : Row) (prefix j v : Text)
    → lookup j dst ≡ some v
    → lookup j (fill_defaults dst defaults prefix) ≡ some v
unfolding fill_defaults
fill_defaults-kept dst [] prefix j v h = h
fill_defaults-kept dst ((k, w) ∷ defaults) prefix j v h =
    fill_entry-kept prefix k w j v (fill_defaults dst defaults prefix)
      (fill_defaults-kept dst defaults prefix j v h)
