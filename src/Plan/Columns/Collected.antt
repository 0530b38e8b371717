-- ===== src/Plan/Columns/Collected.antt =====
-- The collected columns are all that an expression without function calls reads.
use gsql.Common.{
  true, false, not, none, some, [], ◌≡◌, refl, ap, ap₂, ◌∙◌, inl, inr, arith, if◌then◌else◌,
  Bool-cases,
}
use gsql.Text.{Text, ◌==◌, eq_refl}
use gsql.Map.{lookup, lookup-insert}
use gsql.Float.{Floats}
use gsql.Parser.Ast.{
  Expression, Branches, nil, comparison, logical, null_test, in_expr, exists_expr, binary,
  column_ref, case_expr, literal, func_call, window, no_branch, branch,
}
use gsql.Plan.Row.{Row, project_row_value}
use gsql.Plan.Builtin.{Registry}
use gsql.Plan.Eval.{
  compare_op, logical_op, bool_text, string_in_slice, binary_test, binary_value, evaluate,
  evaluate_value, case_value, is_nil,
}
use gsql.Plan.Arg.{parse_both}
use gsql.Plan.Columns.{Columns, add_column, add_named, collect_expr_cols, collect_branches}

unfoldable mutual
  -- No function is called, and no column with an empty name is tested.
  pub IsPlain : Expression → Type 0
  IsPlain (comparison column op value right_column e) = IsPlain e
  IsPlain (logical l op r) = IsPlain l × IsPlain r
  IsPlain (binary l op r) = IsPlain l × IsPlain r
  IsPlain (case_expr bs e) = ArePlain bs × IsPlain e
  IsPlain (func_call name args) = ⊥
  IsPlain (null_test column is_null) = (column == []) ≡ false
  IsPlain (in_expr column negated values subquery) = (column == []) ≡ false
  IsPlain _ = Unit

  pub ArePlain : Branches → Type 0
  ArePlain no_branch = Unit
  ArePlain (branch c r bs) = IsPlain c × IsPlain r × ArePlain bs

-- The set has the column.
abbrev pub In : Text → Columns → Type 0
In c cols = lookup c cols ≡ some true

add_column-kept : (c j : Text) (cols : Columns) → In j cols → In j (add_column c cols)
unfolding add_column
add_column-kept c j cols h = lookup-insert c j true cols ∙ ground (arith, h)

add_named-kept : (c j : Text) (cols : Columns) → In j cols → In j (add_named c cols)
unfolding add_named
add_named-kept c j cols h = elim (Bool-cases (c == [])) [
  | inl e ↦ rw e h
  | inr e ↦ rw e (add_column-kept c j cols h)
]

add_named-In : (c : Text) (cols : Columns) → (c == []) ≡ false → In c (add_named c cols)
unfolding add_named add_column
add_named-In c cols e = rw e (lookup-insert c c true cols ∙ rw (eq_refl c) refl)

mutual
  unfolding IsPlain collect_expr_cols collect_branches

  collect-kept :
      (e : Expression) (j : Text) (cols : Columns)
      → IsPlain e
      → In j cols
      → In j (collect_expr_cols e cols)
  collect-kept nil j cols p h = h
  collect-kept (comparison column op value right_column e) j cols p h =
      collect-kept e j _ p (add_named-kept right_column j _ (add_named-kept column j cols h))
  collect-kept (logical l op r) j cols p h = collect-kept r j _ p.1 (collect-kept l j cols p.0 h)
  collect-kept (null_test column is_null) j cols p h = add_named-kept column j cols h
  collect-kept (in_expr column negated values subquery) j cols p h = add_named-kept column j cols h
  collect-kept (exists_expr negated subquery) j cols p h = h
  collect-kept (binary l op r) j cols p h = collect-kept r j _ p.1 (collect-kept l j cols p.0 h)
  collect-kept (column_ref name) j cols p h = add_column-kept name j cols h
  collect-kept (case_expr bs e) j cols p h = collect-kept e j _ p.1 (branches-kept bs j cols p.0 h)
  collect-kept (literal value) j cols p h = h
  collect-kept (func_call name args) j cols p h = absurd p
  collect-kept (window w) j cols p h = h

  branches-kept :
      (bs : Branches) (j : Text) (cols : Columns)
      → ArePlain bs
      → In j cols
      → In j (collect_branches bs cols)
  branches-kept no_branch j cols p h = h
  branches-kept (branch c r bs) j cols p h =
      branches-kept bs j _ p.2 (collect-kept r j _ p.1 (collect-kept c j cols p.0 h))

module _ (fl : Floats) (builtins : Registry) (row pruned : Row) where
  -- Both rows read the same in each column of a set.
  abbrev pub ReadAlike : Columns → Type 0
  ReadAlike cols = (c : Text) → In c cols → project_row_value row c ≡ project_row_value pruned c

  abbrev Alike : Expression → Type 0
  Alike e =
      (evaluate fl builtins row e ≡ evaluate fl builtins pruned e)
      × (evaluate_value fl builtins row e ≡ evaluate_value fl builtins pruned e)

  read_or :
      (c value : Text)
      → ((c == []) ≡ false → project_row_value row c ≡ project_row_value pruned c)
      → (if c == [] then value else project_row_value row c)
        ≡ (if c == [] then value else project_row_value pruned c)
  read_or c value h = elim (Bool-cases (c == [])) [ inl e ↦ rw e refl | inr e ↦ rw e (h e) ]

  read_first :
      (column value right_column : Text)
      → ((column == []) ≡ false → project_row_value row column ≡ project_row_value pruned column)
      → ((right_column == []) ≡ false
          → project_row_value row right_column ≡ project_row_value pruned right_column)
      → (if not (right_column == [])
          then project_row_value row right_column
          else if column == []
          then value
          else project_row_value row column)
        ≡ (if not (right_column == [])
            then project_row_value pruned right_column
            else if column == []
            then value
            else project_row_value pruned column)
  read_first column value right_column left right = elim (Bool-cases (right_column == [])) [
    | inl e ↦ rw e (read_or column value left)
    | inr e ↦ rw e (right e)
  ]

  mutual
    unfolding add_column IsPlain collect_expr_cols collect_branches evaluate evaluate_value
        case_value

    collected :
        (e : Expression) (cols : Columns)
        → IsPlain e
        → ReadAlike (collect_expr_cols e cols)
        → Alike e
    collected nil cols p h = (refl, refl)
    collected (comparison column op value right_column e) cols p h =
        let both = add_named right_column (add_named column cols) in
        let inner = collected e both p h in
        let left : (column == []) ≡ false
            → project_row_value row column ≡ project_row_value pruned column =
          λ q. h column (
            collect-kept e column both p
              (add_named-kept right_column column _ (add_named-In column cols q))) in
        let right : (right_column == []) ≡ false
            → project_row_value row right_column ≡ project_row_value pruned right_column =
          λ q.
            h right_column (collect-kept e right_column both p (add_named-In right_column _ q)) in
        (
          ap₂ (compare_op fl op)
              (ap₂ (λ v w. if not (is_nil e) then v else w) inner.1 (read_or column value left))
              (read_or right_column value right),
          ap₂ (λ v w. if not (is_nil e) then v else w) inner.1
              (read_first column value right_column left right),
        )
    collected (logical l op r) cols p h =
        let first = collected l cols p.0 (λ c m. h c (collect-kept r c _ p.1 m)) in
        let second = collected r (collect_expr_cols l cols) p.1 h in
        (
          ap₂ (logical_op op) first.0 second.0,
          ap₂ (λ a b. bool_text (logical_op op a b)) first.0 second.0,
        )
    collected (null_test column is_null) cols p h =
        let same = h column (add_named-In column cols p) in
        (
          ap (λ v. if is_null then v == [] else not (v == [])) same,
          ap (λ v. bool_text (if is_null then v == [] else not (v == []))) same,
        )
    collected (in_expr column negated values subquery) cols p h =
        let same = h column (add_named-In column cols p) in
        (
          ap (λ v. if negated then not (string_in_slice v values) else string_in_slice v values)
              same,
          refl,
        )
    collected (exists_expr negated subquery) cols p h = (refl, refl)
    collected (binary l op r) cols p h =
        let first = collected l cols p.0 (λ c m. h c (collect-kept r c _ p.1 m)) in
        let second = collected r (collect_expr_cols l cols) p.1 h in
        (
          ap₂
              (λ a b. elim (parse_both fl a b) [
                | none ↦ false
                | some (x, y) ↦ binary_test fl op x y
              ])
              first.1 second.1,
          ap₂ (binary_value fl op) first.1 second.1,
        )
    collected (column_ref name) cols p h =
        (refl, h name (lookup-insert name name true cols ∙ rw (eq_refl name) refl))
    collected (case_expr bs e) cols p h =
        let other = collected e (collect_branches bs cols) p.1 h in
        (refl, collected_branches bs cols _ _ other.1 p.0 (λ c m. h c (collect-kept e c _ p.1 m)))
    collected (literal value) cols p h = (refl, refl)
    collected (func_call name args) cols p h = absurd p
    collected (window w) cols p h = (refl, refl)

    collected_branches :
        (bs : Branches) (cols : Columns) (v w : Text)
        → v ≡ w
        → ArePlain bs
        → ReadAlike (collect_branches bs cols)
        → case_value fl builtins row v bs ≡ case_value fl builtins pruned w bs
    collected_branches no_branch cols v w e p h = e
    collected_branches (branch c r bs) cols v w e p h =
        let result_kept : ReadAlike (collect_expr_cols r (collect_expr_cols c cols)) =
          λ j m. h j (branches-kept bs j _ p.2 m) in
        let condition = collected c cols p.0 (λ j m. result_kept j (collect-kept r j _ p.1 m)) in
        let result = collected r (collect_expr_cols c cols) p.1 result_kept in
        let rest = collected_branches bs _ v w e p.2 h in
        ap₂ (λ b t. if b then t else case_value fl builtins row v bs) condition.0 result.1
        ∙ ap (λ t. if evaluate fl builtins pruned c then evaluate_value fl builtins pruned r else t)
            rest

  -- Reading alike in the columns that are collected from an expression is enough: an expression that
  -- calls no function has the same truth value and the same value on both rows.
  pub collect_expr_cols-evaluate :
      (e : Expression)
      → IsPlain e
      → ReadAlike (collect_expr_cols e [])
      → (evaluate fl builtins row e ≡ evaluate fl builtins pruned e)
        × (evaluate_value fl builtins row e ≡ evaluate_value fl builtins pruned e)
  collect_expr_cols-evaluate e plain alike = collected e [] plain alike
