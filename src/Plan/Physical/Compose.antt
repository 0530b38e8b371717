-- ===== src/Plan/Physical/Compose.antt =====
-- The meaning of a logical plan, planned and executed, is put together from that of its children.
use gsql.Common.{Option, none, some, List, [], ◌∷◌, ◌≡◌, refl, sym, ap, subst}
use gsql.Common.Int.{ℤ}
use gsql.Text.{Text, to_lower}
use gsql.Map.{lookup}
use gsql.Float.{Floats}
use gsql.Result.{table_not_found, cte_not_found, Result, ok, err, ◌>>=◌}
use gsql.Parser.Ast.{Expression, WindowExpr, SortOrder}
use gsql.Catalog.{Catalog, Table, get_table}
use gsql.Plan.Row.{Row, value_or}
use gsql.Plan.Builtin.{Registry}
use gsql.Plan.Eval.{evaluate}
use gsql.Plan.Logical.{
  LogicalNode, JoinInfo, AggregateDef, logical_scan, logical_cte_scan, logical_filter,
  logical_project, logical_join, logical_aggregate, logical_window, logical_sort, logical_limit,
}
use gsql.Plan.Iter.{RowIter, filter_iter}
use gsql.Plan.Aggregate.{aggregate_rows}
use gsql.Plan.Sort.{sort_rows}
use gsql.Plan.JoinDefaults.{side_defaults}
use gsql.Plan.Physical.{
  PlanNode, table_scan, filter_node, project_node, window_node, sort_node, limit_node,
  aggregate_node, join_node, PhysicalPlanContext, Store, filter_scan, plan_filter, plan_join,
  logical_to_physical, over_all, project_stream, limit_stream, window_rows, join_streams, iterate,
}

-- No table of the catalog is partitioned.
abbrev pub IsUnpartitioned : Catalog → Type 0
IsUnpartitioned catalog =
    (name : Text) (t : Table) → get_table catalog name ≡ some t → t.partition_by ≡ []

-- A stream is what planning and then opening the plan gives, with an error of either.
abbrev pub Outcome : Type 0
Outcome = Result (Result RowIter)

abbrev pub after : (RowIter → Result RowIter) → Outcome → Outcome
after f o = o >>= λ r. ok (r >>= f)

abbrev pub ScansWhole : PlanNode → Type 0
ScansWhole (table_scan (some t) cte name filters) = t.partition_by ≡ []
ScansWhole _ = Unit

abbrev pub Succeeds : (PlanNode → Type 0) → Result PlanNode → Type 0
Succeeds P (ok p) = P p
Succeeds P (err e) = Unit

plan_filter-whole :
    (predicate : Expression) (p : PlanNode)
    → ScansWhole p
    → plan_filter predicate p ≡ filter_node p predicate
unfolding plan_filter filter_scan
plan_filter-whole predicate (table_scan (some t) cte name filters) h =
    ap (λ cols. filter_scan cols predicate (some t) cte name filters) h
plan_filter-whole predicate (table_scan none cte name filters) h = refl
plan_filter-whole predicate (filter_node c q) h = refl
plan_filter-whole predicate (project_node c cols exprs) h = refl
plan_filter-whole predicate (window_node c exprs) h = refl
plan_filter-whole predicate (sort_node c order_by) h = refl
plan_filter-whole predicate (limit_node c n) h = refl
plan_filter-whole predicate (aggregate_node c group_by aggs) h = refl
plan_filter-whole predicate (join_node l r n) h = refl

module _ (fl : Floats) (builtins : Registry) (store : Store) (ctx : PhysicalPlanContext) where
  -- The outcome of a logical plan.
  unfoldable pub outcome : LogicalNode → Outcome
  unfolding logical_to_physical iterate
  outcome node = logical_to_physical fl ctx node >>= λ p. ok (iterate fl builtins store p)

  wrapped :
      (r : Result PlanNode) (wrap : PlanNode → PlanNode) (f : RowIter → Result RowIter)
      → ((p : PlanNode) → iterate fl builtins store (wrap p) ≡ (iterate fl builtins store p >>= f))
      → ((r >>= λ c. ok (wrap c)) >>= λ p. ok (iterate fl builtins store p))
        ≡ after f (r >>= λ p. ok (iterate fl builtins store p))
  wrapped (ok p) wrap f h = ap ok (h p)
  wrapped (err e) wrap f h = refl

  pub outcome-project :
      (c : LogicalNode) (cols : List Text) (exprs : List Expression)
      → outcome (logical_project c cols exprs)
        ≡ after (λ it. ok (project_stream fl builtins cols exprs it)) (outcome c)
  unfolding outcome logical_to_physical iterate
  outcome-project c cols exprs =
      wrapped (logical_to_physical fl ctx c) (λ p. project_node p cols exprs) _ (λ p. refl)

  pub outcome-window :
      (c : LogicalNode) (exprs : List WindowExpr)
      → outcome (logical_window c exprs)
        ≡ after (over_all (window_rows fl builtins exprs)) (outcome c)
  unfolding outcome logical_to_physical iterate
  outcome-window c exprs =
      wrapped (logical_to_physical fl ctx c) (λ p. window_node p exprs) _ (λ p. refl)

  pub outcome-sort :
      (c : LogicalNode) (order_by : List SortOrder)
      → outcome (logical_sort c order_by)
        ≡ after (over_all (λ rows. sort_rows fl rows order_by)) (outcome c)
  unfolding outcome logical_to_physical iterate
  outcome-sort c order_by =
      wrapped (logical_to_physical fl ctx c) (λ p. sort_node p order_by) _ (λ p. refl)

  pub outcome-limit :
      (c : LogicalNode) (n : ℤ)
      → outcome (logical_limit c n) ≡ after (λ it. ok (limit_stream fl builtins n it)) (outcome c)
  unfolding outcome logical_to_physical iterate
  outcome-limit c n = wrapped (logical_to_physical fl ctx c) (λ p. limit_node p n) _ (λ p. refl)

  pub outcome-aggregate :
      (c : LogicalNode) (group_by : List Text) (aggs : List AggregateDef)
      → outcome (logical_aggregate c group_by aggs)
        ≡ after (over_all (aggregate_rows builtins group_by aggs)) (outcome c)
  unfolding outcome logical_to_physical iterate
  outcome-aggregate c group_by aggs =
      wrapped (logical_to_physical fl ctx c) (λ p. aggregate_node p group_by aggs) _ (λ p. refl)

  pub outcome-join :
      (l r : LogicalNode) (info : JoinInfo)
      → outcome (logical_join l r info) ≡ (
          outcome l >>= λ left. outcome r >>= λ right. ok (
            join_streams fl builtins
              (record {
                info = info;
                left_defaults = value_or [] (side_defaults fl ctx.catalog ctx.cte_data l);
                right_defaults = value_or [] (side_defaults fl ctx.catalog ctx.cte_data r);
              })
              left
              right))
  unfolding outcome logical_to_physical iterate plan_join
  outcome-join l r info = both (logical_to_physical fl ctx l) (logical_to_physical fl ctx r)
    where
      both :
          (p q : Result PlanNode)
          → ((p >>= λ left. q >>= λ right. ok (plan_join fl ctx l r info left right)) >>= λ n.
              ok (iterate fl builtins store n))
            ≡ ((p >>= λ n. ok (iterate fl builtins store n)) >>= λ left.
                (q >>= λ n. ok (iterate fl builtins store n)) >>= λ right. ok (
                  join_streams fl builtins
                    (record {
                      info = info;
                      left_defaults = value_or [] (side_defaults fl ctx.catalog ctx.cte_data l);
                      right_defaults = value_or [] (side_defaults fl ctx.catalog ctx.cte_data r);
                    })
                    left
                    right))
      both (ok p) (ok q) = refl
      both (ok p) (err e) = refl
      both (err e) q = refl

  module _ (whole : IsUnpartitioned ctx.catalog) where
    scan-whole :
        (o : Option Table) (name : Text)
        → get_table ctx.catalog name ≡ o
        → Succeeds ScansWhole (elim o [
          | none ↦ err (table_not_found name)
          | some t ↦ ok (table_scan (some t) [] [] [])
        ])
    scan-whole none name h = tt
    scan-whole (some t) name h = whole name t h

    cte-whole :
        (o : Option (List Row)) (name : Text)
        → Succeeds ScansWhole (elim o [
          | none ↦ err (cte_not_found name)
          | some rows ↦ ok (table_scan none rows (to_lower name) [])
        ])
    cte-whole none name = tt
    cte-whole (some rows) name = tt

    simple :
        (r : Result PlanNode) (wrap : PlanNode → PlanNode)
        → ((p : PlanNode) → ScansWhole p → ScansWhole (wrap p))
        → Succeeds ScansWhole r
        → Succeeds ScansWhole (r >>= λ c. ok (wrap c))
    simple (ok p) wrap h w = h p w
    simple (err e) wrap h w = tt

    joined :
        (p q : Result PlanNode) (wrap : PlanNode → PlanNode → PlanNode)
        → ((a b : PlanNode) → ScansWhole (wrap a b))
        → Succeeds ScansWhole (p >>= λ a. q >>= λ b. ok (wrap a b))
    joined (ok a) (ok b) wrap h = h a b
    joined (ok a) (err e) wrap h = tt
    joined (err e) q wrap h = tt

    plan-whole : (node : LogicalNode) → Succeeds ScansWhole (logical_to_physical fl ctx node)
    unfolding logical_to_physical plan_join
    plan-whole (logical_scan [] alias) = tt
    plan-whole (logical_scan (c ∷ name) alias) =
        scan-whole (get_table ctx.catalog (c ∷ name)) (c ∷ name) refl
    plan-whole (logical_cte_scan name) = cte-whole (lookup (to_lower name) ctx.cte_data) name
    plan-whole (logical_filter c predicate) =
        simple (logical_to_physical fl ctx c) (plan_filter predicate)
          (λ p w. subst ScansWhole (sym (plan_filter-whole predicate p w)) tt) (plan-whole c)
    plan-whole (logical_project c cols exprs) =
        simple (logical_to_physical fl ctx c) _ (λ p w. tt) (plan-whole c)
    plan-whole (logical_join l r info) =
        joined (logical_to_physical fl ctx l) (logical_to_physical fl ctx r)
          (plan_join fl ctx l r info) (λ p q. tt)
    plan-whole (logical_aggregate c group_by aggs) =
        simple (logical_to_physical fl ctx c) _ (λ p w. tt) (plan-whole c)
    plan-whole (logical_window c exprs) =
        simple (logical_to_physical fl ctx c) _ (λ p w. tt) (plan-whole c)
    plan-whole (logical_sort c order_by) =
        simple (logical_to_physical fl ctx c) _ (λ p w. tt) (plan-whole c)
    plan-whole (logical_limit c n) =
        simple (logical_to_physical fl ctx c) _ (λ p w. tt) (plan-whole c)

    pub outcome-filter :
        (c : LogicalNode) (predicate : Expression)
        → outcome (logical_filter c predicate)
          ≡ after
              (λ it. ok (filter_iter (λ row. evaluate fl builtins row predicate) it))
              (outcome c)
    unfolding outcome logical_to_physical iterate
    outcome-filter c predicate = planned (logical_to_physical fl ctx c) (plan-whole c)
      where
        planned :
            (r : Result PlanNode)
            → Succeeds ScansWhole r
            → ((r >>= λ p. ok (plan_filter predicate p)) >>= λ p. ok (iterate fl builtins store p))
              ≡ after
                  (λ it. ok (filter_iter (λ row. evaluate fl builtins row predicate) it))
                  (r >>= λ p. ok (iterate fl builtins store p))
        planned (ok p) w =
            ap (λ n. ok (iterate fl builtins store n)) (plan_filter-whole predicate p w)
        planned (err e) w = refl
