-- ===== src/Plan/Partition/Split.antt =====
-- The extracted filters and the remaining predicate are together the predicate.
use gsql.Common.{
  Bool, true, false, ◌&&◌, List, [], ◌∷◌, ◌++◌, all, ◌≡◌, refl, sym, ◌∙◌, ◌⊎◌, inl, inr, arith,
  if◌then◌else◌, Bool-cases,
}
use mathlib.Core.Bool.{and-true, and-false}
use gsql.Text.{Text, bytes, ◌==◌, eq_iff, to_upper}
use gsql.Float.{Floats}
use gsql.Parser.Ast.{Expression, nil, comparison, logical}
use gsql.Storage.Partition.{PartitionFilter}
use gsql.Plan.Row.{Row, project_row_value}
use gsql.Plan.Builtin.{Registry}
use gsql.Plan.Eval.{is_nil, evaluate, compare_op, logical_op}
use gsql.Plan.Partition.{
  is_partition, is_partition_op, rebuild_and, rebuild_expr, extract_partition_filters,
}

-- Along the conjunctions there is no nil operand, and no comparison of a computed value names a
-- partition column.
abbrev pub IsExtractable : List Text → Expression → Type 0
IsExtractable cols nil = ⊥
IsExtractable cols (comparison column op value right_column e) =
    (is_nil e ≡ true) × ((column == []) ≡ false) ⊎ (is_partition cols column ≡ false)
IsExtractable cols (logical l op r) = IsExtractable cols l × IsExtractable cols r
IsExtractable cols _ = Unit

and_interchange : (a b c d : Bool) → (a && b && (c && d)) ≡ (a && c && (b && d))
and_interchange true b true d = refl
and_interchange true b false d = and-false b
and_interchange false b c d = refl

module _ (fl : Floats) (builtins : Registry) (row : Row) where
  -- What is left of a predicate holds; nothing left holds always.
  abbrev pub remaining_holds : Expression → Bool
  remaining_holds e = if is_nil e then true else evaluate fl builtins row e

  -- A filter read as a comparison of the row's value.
  abbrev pub filter_holds : PartitionFilter → Bool
  filter_holds f = compare_op fl f.operator (project_row_value row f.column) f.value

  abbrev pub extraction_holds : Expression × List PartitionFilter → Bool
  extraction_holds r = remaining_holds r.0 && all filter_holds r.1

  all-append :
      (xs ys : List PartitionFilter)
      → all filter_holds (xs ++ ys) ≡ (all filter_holds xs && all filter_holds ys)
  all-append [] ys = refl
  all-append (x ∷ xs) ys = ground (arith, all-append xs ys)

  logical_op-and : (a b : Bool) → logical_op (bytes "AND") a b ≡ (a && b)
  unfolding logical_op to_upper ◌==◌
  logical_op-and a b = refl

  remaining-rebuild_and :
      (l r : Expression)
      → remaining_holds (rebuild_and l r) ≡ (remaining_holds l && remaining_holds r)
  unfolding rebuild_and evaluate
  remaining-rebuild_and l r =
      ground (arith, logical_op-and (evaluate fl builtins row l) (evaluate fl builtins row r))

  -- A comparison of a column with a constant.
  pub evaluate-comparison :
      (column op value rc : Text) (e : Expression)
      → is_nil e ≡ true
      → (column == []) ≡ false
      → (rc == []) ≡ true
      → evaluate fl builtins row (comparison column op value rc e)
        ≡ compare_op fl op (project_row_value row column) value
  unfolding evaluate
  evaluate-comparison column op value rc e p q r = rw (p, q, r)

  remaining_alone :
      (e : Expression) → is_nil e ≡ false → evaluate fl builtins row e ≡ extraction_holds (e, [])
  remaining_alone e h = rw (h, and-true)

  rebuild_expr-comparison :
      (cols : List Text) (column op value rc : Text) (e : Expression)
      → IsExtractable cols (comparison column op value rc e)
      → evaluate fl builtins row (comparison column op value rc e)
        ≡ extraction_holds (rebuild_expr cols (comparison column op value rc e))
  unfolding rebuild_expr
  rebuild_expr-comparison cols column op value rc e h =
      elim (Bool-cases (rc == [] && is_partition_op op && is_partition cols column)) [
        | inr kept ↦ rw kept (remaining_alone (comparison column op value rc e) refl)
        | inl taken ↦
            let parts : ((rc == []) ≡ true) × (is_partition cols column ≡ true) = ground arith in
            elim h [
              | inl (p, q) ↦
                  rw taken (evaluate-comparison column op value rc e p q parts.0 ∙ sym (and-true _))
              | inr q ↦ cc (parts.1, q)
            ]
      ]

  rebuild_expr-logical :
      (cols : List Text) (l r : Expression) (op : Text)
      → evaluate fl builtins row l ≡ extraction_holds (rebuild_expr cols l)
      → evaluate fl builtins row r ≡ extraction_holds (rebuild_expr cols r)
      → op ≡ bytes "AND"
      → evaluate fl builtins row (logical l op r) ≡ (
          remaining_holds (rebuild_and (rebuild_expr cols l).0 (rebuild_expr cols r).0)
          && all filter_holds ((rebuild_expr cols l).1 ++ (rebuild_expr cols r).1))
  unfolding evaluate
  rebuild_expr-logical cols l r op hl hr e =
      rw (e, hl, hr, logical_op-and, remaining-rebuild_and, all-append)
        (and_interchange (remaining_holds (rebuild_expr cols l).0)
          (all filter_holds (rebuild_expr cols l).1) (remaining_holds (rebuild_expr cols r).0)
          (all filter_holds (rebuild_expr cols r).1))

  rebuild_expr-split :
      (cols : List Text) (e : Expression)
      → IsExtractable cols e
      → evaluate fl builtins row e ≡ extraction_holds (rebuild_expr cols e)
  unfolding rebuild_expr
  rebuild_expr-split cols nil h = absurd h
  rebuild_expr-split cols (comparison column op value rc e) h =
      rebuild_expr-comparison cols column op value rc e h
  rebuild_expr-split cols (logical l op r) h = elim (Bool-cases (op == bytes "AND")) [
    | inl conj ↦ rw conj (
        rebuild_expr-logical cols l r op (rebuild_expr-split cols l h.0)
          (rebuild_expr-split cols r h.1) ((eq_iff op (bytes "AND")).0 conj))
    | inr other ↦ rw other (remaining_alone (logical l op r) refl)
  ]
  rebuild_expr-split cols e h = remaining_alone e refl

  -- A predicate holds of a row exactly when the predicate that is left and every extracted filter,
  -- compared as the predicate would, hold; for a predicate with no nil operand and no computed
  -- comparison on a partition column.
  pub extract-split :
      (e : Expression) (cols : List Text)
      → IsExtractable cols e
      → evaluate fl builtins row e ≡ extraction_holds (extract_partition_filters e cols)
  unfolding extract_partition_filters
  extract-split nil cols h = absurd h
  extract-split e [] h = remaining_alone e refl
  extract-split e (c ∷ cols) h = rebuild_expr-split (c ∷ cols) e h
