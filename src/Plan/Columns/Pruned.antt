-- ===== src/Plan/Columns/Pruned.antt =====
-- A row that a pruning projection leaves.
use gsql.Common.{
  Bool, true, false, some, List, [], ◌∷◌, any, ◌≡◌, refl, ap, ◌∙◌, inl, inr, if◌then◌else◌,
  Bool-cases,
}
use gsql.Text.{Text, ◌==◌, eq_iff}
use gsql.Map.{lookup, insert, lookup-insert}
use gsql.Float.{Floats}
use gsql.Parser.Ast.{Expression}
use gsql.Plan.Row.{Row, project_row_value}
use gsql.Plan.Builtin.{Registry}
use gsql.Plan.Eval.{evaluate, evaluate_value}
use gsql.Plan.Physical.{project_value, project_columns}
use gsql.Plan.Columns.{collect_expr_cols}
use gsql.Plan.Columns.Collected.{IsPlain, In, collect_expr_cols-evaluate}

module _ (fl : Floats) (builtins : Registry) (row : Row) where
  -- The row with the columns only.
  abbrev pub prune : List Text → Row
  prune cols = project_columns fl builtins row cols [] []

  lookup-project_columns :
      (c : Text) (cols : List Text) (acc : Row)
      → lookup c (project_columns fl builtins row cols [] acc)
        ≡ (if any (λ k. k == c) cols then some (project_row_value row c) else lookup c acc)
  unfolding project_columns project_value
  lookup-project_columns c [] acc = refl
  lookup-project_columns c (k ∷ cols) acc =
      lookup-project_columns c cols (insert k (project_row_value row k) acc)
      ∙ ap (λ o. if any (λ k'. k' == c) cols then some (project_row_value row c) else o)
          (lookup-insert k c (project_row_value row k) acc)
      ∙ elim (Bool-cases (k == c)) [
        | inl e ↦ rw e (same ((eq_iff k c).0 e) (any (λ k'. k' == c) cols))
        | inr e ↦ rw e refl
      ]
    where
      same :
          k ≡ c
          → (b : Bool)
          → (if b then some (project_row_value row c) else some (project_row_value row k))
            ≡ some (project_row_value row c)
      same e true = refl
      same e false = ap (λ x. some (project_row_value row x)) e

  read-prune :
      (c : Text) (cols : List Text)
      → any (λ k. k == c) cols ≡ true
      → project_row_value row c ≡ project_row_value (prune cols) c
  unfolding project_row_value
  read-prune c cols h = rw (project_row_value, lookup-project_columns c cols [], h) refl

  -- A row pruned to any columns among which are all that are collected from an expression gives the
  -- expression the same truth value and the same value as the whole row, if it calls no function.
  pub evaluate-prune :
      (e : Expression) (cols : List Text)
      → IsPlain e
      → ((c : Text) → In c (collect_expr_cols e []) → any (λ k. k == c) cols ≡ true)
      → (evaluate fl builtins row e ≡ evaluate fl builtins (prune cols) e)
        × (evaluate_value fl builtins row e ≡ evaluate_value fl builtins (prune cols) e)
  evaluate-prune e cols plain covered =
      collect_expr_cols-evaluate fl builtins row (prune cols) e plain
        (λ c needed. read-prune c cols (covered c needed))
