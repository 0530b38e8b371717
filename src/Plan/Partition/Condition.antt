-- ===== src/Plan/Partition/Condition.antt =====
-- The extracted filters: they are on partition columns, a file is selected exactly when it meets
-- each of them, and text comparison agrees with that of a predicate where no number is compared.
use gsql.Common.{
  Bool, true, ◌&&◌, ◌||◌, List, [], ◌∷◌, ◌++◌, all, All, none, ◌≡◌, refl, ◌∙◌, ◌⊎◌, inl, inr, arith,
  if◌then◌else◌, Bool-cases, Option-cases,
}
use gsql.Text.{Text, bytes, ◌==◌, eq_iff}
use gsql.Float.{Floats}
use gsql.Parser.Ast.{Expression, nil, comparison, logical}
use gsql.Storage.Partition.{
  PartitionFilter, PartitionFile, value_of, match_condition, match_partition_value, filters_on,
  is_selected,
}
use gsql.Plan.Builtin.{to_float, compare_values, compare_texts}
use gsql.Plan.Eval.{is_nil, compare_op}
use gsql.Plan.Partition.{is_partition, is_partition_op, rebuild_expr, extract_partition_filters}

-- Every filter names a partition column and an operator that can be extracted.
abbrev pub OnPartitions : List Text → List PartitionFilter → Type 0
OnPartitions cols filters =
    All (λ f. (is_partition cols f.column ≡ true) × (is_partition_op f.operator ≡ true)) filters

All-append {ℓ κ} :
    {A : Type ℓ} (P : A → Type κ) (xs ys : List A) → All P xs → All P ys → All P (xs ++ ys)
All-append P [] ys hx hy = hy
All-append P (x ∷ xs) ys hx hy = (hx.0, All-append P xs ys hx.1 hy)

rebuild_expr-OnPartitions :
    (cols : List Text) (e : Expression) → OnPartitions cols (rebuild_expr cols e).1
unfolding rebuild_expr
rebuild_expr-OnPartitions cols nil = tt
rebuild_expr-OnPartitions cols (comparison column op value rc e) =
    elim (Bool-cases (rc == [] && is_partition_op op && is_partition cols column)) [
      | inl taken ↦ rw taken (ground arith)
      | inr kept ↦ rw kept tt
    ]
rebuild_expr-OnPartitions cols (logical l op r) = elim (Bool-cases (op == bytes "AND")) [
  | inl conj ↦
      rw conj
        (All-append _ _ _ (rebuild_expr-OnPartitions cols l) (rebuild_expr-OnPartitions cols r))
  | inr other ↦ rw other tt
]
rebuild_expr-OnPartitions cols _ = tt

pub extract-OnPartitions :
    (e : Expression) (cols : List Text) → OnPartitions cols (extract_partition_filters e cols).1
unfolding extract_partition_filters
extract-OnPartitions e [] = tt
extract-OnPartitions e (c ∷ cols) = elim (Bool-cases (is_nil e)) [
  | inl empty ↦ rw empty tt
  | inr full ↦ rw full (rebuild_expr-OnPartitions (c ∷ cols) e)
]

match-filters_on-cons :
    (val col : Text) (f : PartitionFilter) (fs : List PartitionFilter)
    → match_partition_value val (filters_on col (f ∷ fs)) ≡ (
        (if f.column == col then match_condition val f else true)
        && match_partition_value val (filters_on col fs))
unfolding match_partition_value filters_on
match-filters_on-cons val col f fs = elim (Bool-cases (f.column == col)) [
  | inl same ↦ rw same
  | inr other ↦ rw other
]

-- The Boolean algebra of one more column: `a` the new condition, `here` whether it is on this
-- column, `there` whether it is on a later one.
and_merge :
    (here there a m s : Bool)
    → ((if here then a else true) && m && ((if there then a else true) && s))
      ≡ ((if here || there then a else true) && (m && s))
and_merge here there a m s = ground arith

-- A condition is asked of the file exactly once more when it is added in front.
is_selected-cons :
    (cols : List Text) (f : PartitionFilter) (fs : List PartitionFilter) (file : PartitionFile)
    → is_selected cols (f ∷ fs) file ≡ (
        (if is_partition cols f.column
          then match_condition (value_of f.column file.partition_values) f
          else true)
        && is_selected cols fs file)
unfolding is_selected is_partition
is_selected-cons [] f fs file = refl
is_selected-cons (c ∷ cols) f fs file =
    let v = value_of f.column file.partition_values in
    rw
      (
        match-filters_on-cons (value_of c file.partition_values) c f fs,
        is_selected-cons cols f fs file,
        same_test f.column c,
      )
      ((elim (Bool-cases (c == f.column)) [
        | inl same ↦ rw (same, (eq_iff c f.column).0 same) refl
        | inr other ↦ rw other refl
      ])
        ∙ and_merge (c == f.column) (is_partition cols f.column) (match_condition v f) _
            (is_selected cols fs file))
  where
    same_test : (s t : Text) → (s == t) ≡ (t == s)
    same_test s t = ground (arith, eq_iff s t, eq_iff t s)

pub is_selected-nil : (cols : List Text) (file : PartitionFile) → is_selected cols [] file ≡ true
unfolding is_selected filters_on match_partition_value
is_selected-nil [] file = refl
is_selected-nil (c ∷ cols) file = is_selected-nil cols file

pub is_selected-all :
    (cols : List Text) (fs : List PartitionFilter) (file : PartitionFile)
    → OnPartitions cols fs
    → is_selected cols fs file
      ≡ all (λ f. match_condition (value_of f.column file.partition_values) f) fs
is_selected-all cols [] file h = is_selected-nil cols file
is_selected-all cols (f ∷ fs) file h =
    is_selected-cons cols f fs file ∙ rw (h.0.0, is_selected-all cols fs file h.1)

is_partition_op-cases :
    (op : Text)
    → is_partition_op op ≡ true
    → (op ≡ bytes "=") ⊎ (op ≡ bytes ">") ⊎ (op ≡ bytes "<") ⊎ (op ≡ bytes ">=") ⊎ (op ≡ bytes "<=")
unfolding is_partition_op
is_partition_op-cases op h = ground (
  arith,
  eq_iff op (bytes "="),
  eq_iff op (bytes ">"),
  eq_iff op (bytes "<"),
  eq_iff op (bytes ">="),
  eq_iff op (bytes "<="),
)

module _ (fl : Floats) where
  -- The filter compares as text: it tests equality, or one of its sides is no number.
  abbrev pub IsTextual : Text → PartitionFilter → Type 0
  IsTextual val f =
      (f.operator ≡ bytes "=") ⊎ (to_float fl val ≡ none) ⊎ (to_float fl f.value ≡ none)

  compare_values-textual :
      (a b op : Text)
      → (to_float fl a ≡ none) ⊎ (to_float fl b ≡ none)
      → compare_values fl a b op ≡ compare_texts fl a b op
  unfolding compare_values
  compare_values-textual a b op (inl h) = rw (h, compare_values)
  compare_values-textual a b op (inr h) = elim (Option-cases (to_float fl a)) [
    | inl p ↦ rw (p, compare_values)
    | inr (x, p) ↦ rw (p, h, compare_values)
  ]

  order_condition :
      (op val value column : Text)
      → (op ≡ bytes ">") ⊎ (op ≡ bytes "<") ⊎ (op ≡ bytes ">=") ⊎ (op ≡ bytes "<=")
      → compare_values fl val value op ≡ compare_texts fl val value op
      → compare_op fl op val value
        ≡ match_condition val (record { column = column; operator = op; value = value })
  unfolding compare_op match_condition compare_texts
  order_condition op val value column (inl e) h = rw e (rw e at h)
  order_condition op val value column (inr (inl e)) h = rw e (rw e at h)
  order_condition op val value column (inr (inr (inl e))) h = rw e (rw e at h)
  order_condition op val value column (inr (inr (inr e))) h = rw e (rw e at h)

  pub compare_op-match_condition :
      (val : Text) (f : PartitionFilter)
      → is_partition_op f.operator ≡ true
      → IsTextual val f
      → compare_op fl f.operator val f.value ≡ match_condition val f
  unfolding compare_op match_condition
  compare_op-match_condition val f h (inl e) = rw e
  compare_op-match_condition val f h (inr t) = elim (is_partition_op-cases f.operator h) [
    | inl e ↦ rw e
    | inr order ↦
        order_condition f.operator val f.value f.column order
          (compare_values-textual val f.value f.operator t)
  ]
