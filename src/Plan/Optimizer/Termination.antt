-- ===== src/Plan/Optimizer/Termination.antt =====
-- The optimizer ends: with rules that do not make a plan larger, fuel for its size is enough.
use gsql.Common.{
  ℕ, zero, suc, ◌+◌, ◌≤◌, ◌<◌, List, [], ◌∷◌, All, ◌≡◌, refl, ap, ap₂, ◌∙◌, ◌⊎◌, inl, inr, arith,
  Bool-cases,
}
use gsql.Map.{Map}
use gsql.Float.{Floats}
use gsql.Catalog.{Table}
use gsql.Parser.Ast.{Expression}
use gsql.Plan.Logical.{
  LogicalNode, JoinInfo, logical_scan, logical_cte_scan, logical_filter, logical_project,
  logical_join, logical_aggregate, logical_window, logical_sort, logical_limit, children,
  rebuild_node,
}
use gsql.Plan.Optimizer.{
  OptimizeRule, merge_filters, apply_rules, walk_and_optimize, optimize, size, reorder_join,
  reorder_joins, is_larger, estimate_rows,
}

-- A rule that returns no larger plan.
abbrev pub Shrinks : OptimizeRule → Type 0
Shrinks rule = (node : LogicalNode) → size (rule node) ≤ size node

pub merge_filters-cases :
    (node : LogicalNode)
    → ((c : LogicalNode) × (q : Expression) × (p : Expression) × (node
          ≡ logical_filter (logical_filter c q) p))
      ⊎ (merge_filters node ≡ node)
unfolding merge_filters
merge_filters-cases (logical_filter (logical_filter c q) p) = inl (c, q, p, refl)
merge_filters-cases (logical_filter (logical_scan name alias) p) = inr refl
merge_filters-cases (logical_filter (logical_cte_scan name) p) = inr refl
merge_filters-cases (logical_filter (logical_project c cols exprs) p) = inr refl
merge_filters-cases (logical_filter (logical_join l r info) p) = inr refl
merge_filters-cases (logical_filter (logical_aggregate c group_by aggs) p) = inr refl
merge_filters-cases (logical_filter (logical_window c exprs) p) = inr refl
merge_filters-cases (logical_filter (logical_sort c order_by) p) = inr refl
merge_filters-cases (logical_filter (logical_limit c n) p) = inr refl
merge_filters-cases (logical_scan name alias) = inr refl
merge_filters-cases (logical_cte_scan name) = inr refl
merge_filters-cases (logical_project c cols exprs) = inr refl
merge_filters-cases (logical_join l r info) = inr refl
merge_filters-cases (logical_aggregate c group_by aggs) = inr refl
merge_filters-cases (logical_window c exprs) = inr refl
merge_filters-cases (logical_sort c order_by) = inr refl
merge_filters-cases (logical_limit c n) = inr refl

pub merge_filters-Shrinks : Shrinks merge_filters
unfolding merge_filters size
merge_filters-Shrinks node = elim (merge_filters-cases node) [
  | inl (c, q, p, e) ↦ rw e (omega arith)
  | inr e ↦ rw e (omega arith)
]

reorder_join-size :
    (fl : Floats) (tables : Map Table) (l r : LogicalNode) (info : JoinInfo)
    → size (reorder_join fl tables l r info) ≡ suc (size l + size r)
unfolding reorder_join size
reorder_join-size fl tables l r info =
    elim (Bool-cases (is_larger fl (estimate_rows fl tables l) (estimate_rows fl tables r))) [
      | inl e ↦ rw e (omega arith)
      | inr e ↦ rw e (omega arith)
    ]

reorder_joins-size :
    (fl : Floats) (tables : Map Table) (node : LogicalNode)
    → size (reorder_joins fl tables node) ≡ size node
unfolding reorder_joins size
reorder_joins-size fl tables (logical_scan name alias) = refl
reorder_joins-size fl tables (logical_cte_scan name) = refl
reorder_joins-size fl tables (logical_filter c p) = ap suc (reorder_joins-size fl tables c)
reorder_joins-size fl tables (logical_project c cols exprs) =
    ap suc (reorder_joins-size fl tables c)
reorder_joins-size fl tables (logical_join l r info) =
    reorder_join-size fl tables (reorder_joins fl tables l) (reorder_joins fl tables r) info
    ∙ ap₂ (λ m n. suc (m + n)) (reorder_joins-size fl tables l) (reorder_joins-size fl tables r)
reorder_joins-size fl tables (logical_aggregate c group_by aggs) =
    ap suc (reorder_joins-size fl tables c)
reorder_joins-size fl tables (logical_window c exprs) = ap suc (reorder_joins-size fl tables c)
reorder_joins-size fl tables (logical_sort c order_by) = ap suc (reorder_joins-size fl tables c)
reorder_joins-size fl tables (logical_limit c n) = ap suc (reorder_joins-size fl tables c)

pub reorder_joins-Shrinks : (fl : Floats) (tables : Map Table) → Shrinks (reorder_joins fl tables)
reorder_joins-Shrinks fl tables node = omega (arith, reorder_joins-size fl tables node)

size_pos : (node : LogicalNode) → 0 < size node
unfolding size
size_pos (logical_scan name alias) = omega arith
size_pos (logical_cte_scan name) = omega arith
size_pos (logical_filter c p) = omega arith
size_pos (logical_project c cols exprs) = omega arith
size_pos (logical_join l r info) = omega arith
size_pos (logical_aggregate c group_by aggs) = omega arith
size_pos (logical_window c exprs) = omega arith
size_pos (logical_sort c order_by) = omega arith
size_pos (logical_limit c n) = omega arith

apply_rules-size :
    (rules : List OptimizeRule) (node : LogicalNode)
    → All Shrinks rules
    → size (apply_rules rules node) ≤ size node
unfolding apply_rules
apply_rules-size [] node h = omega arith
apply_rules-size (rule ∷ rules) node h =
    omega (arith, h.0 node, apply_rules-size rules (rule node) h.1)

-- Two optimizers of the children that agree on all smaller plans give the same plan.
walk_congr :
    (opt other : LogicalNode → LogicalNode) (node : LogicalNode)
    → ((c : LogicalNode) → size c < size node → opt c ≡ other c)
    → walk_and_optimize opt node ≡ walk_and_optimize other node
unfolding walk_and_optimize children rebuild_node size
walk_congr opt other (logical_scan name alias) h = refl
walk_congr opt other (logical_cte_scan name) h = refl
walk_congr opt other (logical_filter c p) h = ap (λ d. logical_filter d p) (h c (omega arith))
walk_congr opt other (logical_project c cols exprs) h =
    ap (λ d. logical_project d cols exprs) (h c (omega arith))
walk_congr opt other (logical_join l r info) h =
    ap₂ (λ a b. logical_join a b info) (h l (omega arith)) (h r (omega arith))
walk_congr opt other (logical_aggregate c group_by aggs) h =
    ap (λ d. logical_aggregate d group_by aggs) (h c (omega arith))
walk_congr opt other (logical_window c exprs) h =
    ap (λ d. logical_window d exprs) (h c (omega arith))
walk_congr opt other (logical_sort c order_by) h =
    ap (λ d. logical_sort d order_by) (h c (omega arith))
walk_congr opt other (logical_limit c n) h = ap (λ d. logical_limit d n) (h c (omega arith))

-- With rules that do not enlarge a plan, any two amounts of fuel of at least its size give the same
-- plan: the recursion has come to its end, and the plan is that of Optimize.
pub optimize-enough :
    (f g : ℕ) (rules : List OptimizeRule) (node : LogicalNode)
    → All Shrinks rules
    → size node ≤ f
    → size node ≤ g
    → optimize f rules node ≡ optimize g rules node
unfolding optimize
optimize-enough zero g rules node s p q = absurd (omega (arith, size_pos node))
optimize-enough (suc f) zero rules node s p q = absurd (omega (arith, size_pos node))
optimize-enough (suc f) (suc g) rules node s p q =
    walk_congr (optimize f rules) (optimize g rules) (apply_rules rules node) (λ c small.
      optimize-enough f g rules c s (omega (arith, apply_rules-size rules node s))
        (omega (arith, apply_rules-size rules node s)))
