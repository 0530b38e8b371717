-- ===== src/Plan/Physical/Fusion.antt =====
-- Merging filters does not change what a plan returns.
use mathlib.Core.Path.{fun_ext}
use gsql.Common.{ℕ, zero, suc, Bool, ◌&&◌, [], ◌∷◌, ◌≡◌, refl, sym, ap, ◌∙◌, inl, inr, arith}
use gsql.Text.{bytes}
use gsql.Float.{Floats}
use gsql.Result.{Result, ok, err, ◌>>=◌}
use gsql.Parser.Ast.{Expression, logical}
use gsql.Plan.Row.{Row}
use gsql.Plan.Builtin.{Registry}
use gsql.Plan.Eval.{evaluate, logical_op}
use gsql.Plan.Logical.{
  LogicalNode, JoinInfo, logical_scan, logical_cte_scan, logical_filter, logical_project,
  logical_join, logical_aggregate, logical_window, logical_sort, logical_limit, children,
  rebuild_node,
}
use gsql.Plan.Optimizer.{default_rules, merge_filters, apply_rules, walk_and_optimize, optimize}
use gsql.Plan.Optimizer.Termination.{merge_filters-cases}
use gsql.Plan.Iter.{RowIter, eof, fail, yield, filter_iter}
use gsql.Plan.JoinDefaults.{side_defaults}
use gsql.Plan.Physical.{PhysicalPlanContext, Store}
use gsql.Plan.Physical.Compose.{
  IsUnpartitioned, Outcome, after, outcome, outcome-project, outcome-window, outcome-sort,
  outcome-limit, outcome-aggregate, outcome-join, outcome-filter,
}

-- Two filters in a row are one by both conditions.
filter_iter-fused :
    (p q both : Row → Bool)
    → ((row : Row) → both row ≡ (q row && p row))
    → (it : RowIter) → filter_iter p (filter_iter q it) ≡ filter_iter both it
unfolding filter_iter
filter_iter-fused p q both h eof = refl
filter_iter-fused p q both h (fail e) = refl
filter_iter-fused p q both h (yield row it) = ground (arith, h row, filter_iter-fused p q both h it)

after-after :
    (f g : RowIter → Result RowIter) (o : Outcome)
    → after g (after f o) ≡ after (λ it. f it >>= g) o
after-after f g (ok (ok it)) = refl
after-after f g (ok (err e)) = refl
after-after f g (err e) = refl

module _ (fl : Floats) (builtins : Registry) (store : Store) (ctx : PhysicalPlanContext) where
  -- The same outcome, and the same defaults for the sides of a join.
  abbrev Same : LogicalNode → LogicalNode → Type 0
  Same a b =
      (outcome fl builtins store ctx a ≡ outcome fl builtins store ctx b)
      × (side_defaults fl ctx.catalog ctx.cte_data a ≡ side_defaults fl ctx.catalog ctx.cte_data b)

  Same-trans : (a b c : LogicalNode) → Same a b → Same b c → Same a c
  Same-trans a b c p q = (p.0 ∙ q.0, p.1 ∙ q.1)

  evaluate-and :
      (row : Row) (p q : Expression)
      → evaluate fl builtins row (logical q (bytes "AND") p)
        ≡ (evaluate fl builtins row q && evaluate fl builtins row p)
  unfolding evaluate logical_op
  evaluate-and row p q = refl

  -- Nodes over the same children are the same.
  Same-unary :
      (wrap : LogicalNode → LogicalNode) (f : RowIter → Result RowIter)
      → ((c : LogicalNode)
          → outcome fl builtins store ctx (wrap c) ≡ after f (outcome fl builtins store ctx c))
      → ((c : LogicalNode)
          → side_defaults fl ctx.catalog ctx.cte_data (wrap c)
            ≡ side_defaults fl ctx.catalog ctx.cte_data c)
      → (a b : LogicalNode) → Same a b
      → Same (wrap a) (wrap b)
  Same-unary wrap f out def a b h =
      (out a ∙ ap (after f) h.0 ∙ sym (out b), def a ∙ h.1 ∙ sym (def b))

  Same-join :
      (a b c d : LogicalNode) (info : JoinInfo)
      → Same a b
      → Same c d
      → Same (logical_join a c info) (logical_join b d info)
  unfolding side_defaults
  Same-join a b c d info h k = (
    outcome-join fl builtins store ctx a c info
        ∙ rw (h.0, h.1, k.0, k.1) (sym (outcome-join fl builtins store ctx b d info)),
    rw (h.1, k.1) refl,
  )

  module _ (whole : IsUnpartitioned ctx.catalog) where
    merge_filters-Same : (node : LogicalNode) → Same (merge_filters node) node
    unfolding merge_filters side_defaults
    merge_filters-Same node = elim (merge_filters-cases node) [
      | inl (c, q, p, e) ↦ rw e (
        outcome-filter fl builtins store ctx whole c (logical q (bytes "AND") p)
            ∙ sym (
                outcome-filter fl builtins store ctx whole (logical_filter c q) p
                ∙ ap (after _) (outcome-filter fl builtins store ctx whole c q)
                ∙ after-after _ _ (outcome fl builtins store ctx c)
                ∙ ap (λ f. after f (outcome fl builtins store ctx c))
                    (fun_ext
                      (λ it. ap ok (filter_iter-fused _ _ _ (λ row. evaluate-and row p q) it)))),
        refl,
      )
      | inr e ↦ rw e (refl, refl)
    ]

    walk_and_optimize-Same :
        (opt : LogicalNode → LogicalNode)
        → ((c : LogicalNode) → Same (opt c) c)
        → (node : LogicalNode) → Same (walk_and_optimize opt node) node
    unfolding walk_and_optimize children rebuild_node side_defaults
    walk_and_optimize-Same opt ih (logical_scan name alias) = (refl, refl)
    walk_and_optimize-Same opt ih (logical_cte_scan name) = (refl, refl)
    walk_and_optimize-Same opt ih (logical_filter c p) =
        Same-unary (λ d. logical_filter d p) _ (λ d. outcome-filter fl builtins store ctx whole d p)
          (λ d. refl) _ c (ih c)
    walk_and_optimize-Same opt ih (logical_project c cols exprs) =
        Same-unary (λ d. logical_project d cols exprs) _
          (λ d. outcome-project fl builtins store ctx d cols exprs) (λ d. refl) _ c (ih c)
    walk_and_optimize-Same opt ih (logical_join l r info) =
        Same-join (opt l) l (opt r) r info (ih l) (ih r)
    walk_and_optimize-Same opt ih (logical_aggregate c group_by aggs) =
        Same-unary (λ d. logical_aggregate d group_by aggs) _
          (λ d. outcome-aggregate fl builtins store ctx d group_by aggs) (λ d. refl) _ c (ih c)
    walk_and_optimize-Same opt ih (logical_window c exprs) =
        Same-unary (λ d. logical_window d exprs) _
          (λ d. outcome-window fl builtins store ctx d exprs) (λ d. refl) _ c (ih c)
    walk_and_optimize-Same opt ih (logical_sort c order_by) =
        Same-unary (λ d. logical_sort d order_by) _
          (λ d. outcome-sort fl builtins store ctx d order_by) (λ d. refl) _ c (ih c)
    walk_and_optimize-Same opt ih (logical_limit c n) =
        Same-unary (λ d. logical_limit d n) _ (λ d. outcome-limit fl builtins store ctx d n)
          (λ d. refl) _ c (ih c)

    optimize-Same : (f : ℕ) (node : LogicalNode) → Same (optimize f (merge_filters ∷ []) node) node
    unfolding optimize apply_rules
    optimize-Same zero node = (refl, refl)
    optimize-Same (suc f) node =
        Same-trans (walk_and_optimize (optimize f (merge_filters ∷ [])) (merge_filters node))
          (merge_filters node) node
          (walk_and_optimize-Same (optimize f (merge_filters ∷ [])) (optimize-Same f)
            (merge_filters node))
          (merge_filters-Same node)

    -- Optimising with the default rules changes no outcome: the plan is made with the same error or
    -- none, opening it gives the same error or none, and the streams are the same, row for row; if no
    -- table of the catalog is partitioned.
    pub optimize-outcome :
        (f : ℕ) (node : LogicalNode)
        → outcome fl builtins store ctx (optimize f default_rules node)
          ≡ outcome fl builtins store ctx node
    optimize-outcome f node = (optimize-Same f node).0
