-- ===== src/Tests/Plan.antt =====
-- Sorting, grouping, windows and optimising of three users and three orders.
use gsql.Common.{
  Bool, none, ap, ap₂, sym, ◌∙◌, subst, inl, inr, Bool-cases, ◌≡◌, refl, ◌↔◌, true, false, some,
  List, [], ◌∷◌, map, filter, length, arith,
}
use gsql.Common.Int.{pos}
use gsql.Text.{Text, bytes, ◌==◌, to_upper}
use gsql.Map.{lookup, insert, lookup-insert}
use gsql.Result.{ok}
use gsql.Parser.Ast.{
  SortOrder, WindowExpr, WindowFrame, WindowFrameBound, WindowFrameType, comparison, nil,
}
use gsql.Catalog.{Table, get_table}
use gsql.Plan.Row.{Row, get}
use gsql.Plan.Builtin.{Registry, FuncDef, func_window, lookup_func}
use gsql.Plan.Logical.{LogicalNode, logical_scan, logical_filter}
use gsql.Plan.Optimizer.{default_rules, merge_filters, reorder_joins, optimize, size}
use gsql.Plan.Optimizer.Termination.{merge_filters-Shrinks, reorder_joins-Shrinks, optimize-enough}
use gsql.Plan.Sort.{sort_rows}
use gsql.Plan.Sort.Laws.{IsOrdered}
use gsql.Plan.Aggregate.{make_group_key, group_rows, group_less}
use gsql.Plan.Aggregate.Key.{Agree, make_group_key_iff}
use gsql.Plan.Aggregate.Groups.{has_key, group_of, group_rows-groups}
use gsql.Plan.Window.{partition_rows, result_column, apply_window, compute_window_functions}
use gsql.Plan.Window.Effect.{IsLocal, column, apply_window-column, compute_window_functions-column}
use gsql.Plan.Window.Parts.{of_key, first_keys, partition_rows-first_keys}
use gsql.Plan.Window.Frame.{get_frame_range}
use gsql.Plan.Window.Frame.Bounds.{Within, get_frame_range-Within}
use gsql.Plan.Physical.{PhysicalPlanContext, Store}
use gsql.Plan.Physical.Compose.{IsUnpartitioned, outcome}
use gsql.Plan.Physical.Fusion.{optimize-outcome}
use gsql.Tests.Data.{whole_numbers, users, orders, order}

abbrev by_amount : List SortOrder
by_amount = record { column = bytes "amount"; desc = true } ∷ []

largest_first :
    map (λ r. get r (bytes "amount")) (sort_rows whole_numbers orders by_amount)
    ≡ bytes "40" ∷ bytes "20" ∷ bytes "10" ∷ []
unfolding sort_rows get
largest_first = refl

-- Amounts are numbers.
abbrev numeric : Text → Bool
unfolding ◌==◌
numeric column = column == bytes "amount"

make_group_key_iff_example :
    (make_group_key (bytes "id" ∷ bytes "amount" ∷ []) (order "1" "10")
      ≡ make_group_key (bytes "id" ∷ bytes "amount" ∷ []) (order "1" "20"))
    ↔ Agree (bytes "id" ∷ bytes "amount" ∷ []) (order "1" "10") (order "1" "20")
unfolding get ◌==◌
make_group_key_iff_example =
    make_group_key_iff (bytes "id" ∷ bytes "amount" ∷ []) (order "1" "10") (order "1" "20")
      (refl, (refl, tt)) (refl, (refl, tt))

group_rows-groups_example :
    (filter (has_key (bytes "1")) (group_rows (bytes "id" ∷ []) orders)
      ≡ group_of (bytes "1") (filter (λ r. make_group_key (bytes "id" ∷ []) r == bytes "1") orders))
    × IsOrdered group_less (group_rows (bytes "id" ∷ []) orders)
group_rows-groups_example = group_rows-groups (bytes "id") [] orders (bytes "1")

abbrev from_previous : WindowFrame
from_previous = record {
  frame_type = WindowFrameType.frame_rows;
  start = record { bound_type = WindowFrameBound.n_preceding; n = pos 1 };
  end = record { bound_type = WindowFrameBound.n_following; n = pos 5 };
  order_by = [];
}

abbrev running_sum : WindowExpr
running_sum = record {
  func_name = bytes "SUM";
  args = bytes "amount" ∷ [];
  partition_by = bytes "id" ∷ [];
  order_by = by_amount;
  frame = some from_previous;
  window_ref = [];
  result_key = bytes "total";
}

totals :
    map
      (λ r. get r (bytes "total"))
      (compute_window_functions whole_numbers [] orders (running_sum ∷ []))
    ≡ bytes "30" ∷ bytes "30" ∷ bytes "40" ∷ []
unfolding compute_window_functions get
totals = refl

-- A window function that marks every row.
abbrev mark : List Row → List Text → List SortOrder → Text → List Row
mark rows args order_by col_key = map (insert col_key (bytes "1")) rows

abbrev mark_def : FuncDef
mark_def = record {
  name = bytes "MARK";
  type = func_window;
  min_args = 0;
  max_args = 0;
  scalar_fn = none;
  agg_fn = none;
  window_fn = some mark;
}

abbrev marking : Registry
marking = (bytes "MARK", mark_def) ∷ []

column-mark :
    (rows : List Row) (args : List Text) (order_by : List SortOrder) (col_key j : Text)
    → (col_key == j) ≡ false
    → column j (mark rows args order_by col_key) ≡ column j rows
column-mark [] args order_by col_key j h = refl
column-mark (row ∷ rows) args order_by col_key j h =
    ap₂ (λ v vs. v ∷ vs) (lookup-insert col_key j (bytes "1") row ∙ rw h refl)
      (column-mark rows args order_by col_key j h)

marking-IsLocal : IsLocal marking
unfolding lookup_func lookup
marking-IsLocal name fn f found is_f rows args order_by col_key j h =
    elim (Bool-cases (bytes "MARK" == to_upper name)) [
      | inl e ↦
          let def : some mark_def ≡ some fn = sym (rw e refl) ∙ found in
          let same_def : mark_def ≡ fn = cc in
          let both : some mark ≡ some f = ap (λ d. d.window_fn) same_def ∙ is_f in
          let same : mark ≡ f = cc in
          subst (λ g. column j (g rows args order_by col_key) ≡ column j rows) same
            (column-mark rows args order_by col_key j h)
      | inr e ↦ let lost : none ≡ some fn = sym (rw e refl) ∙ found in absurd cc
    ]

compute_window_functions-column_example :
    column
      (bytes "amount")
      (compute_window_functions whole_numbers marking orders (running_sum ∷ []))
    ≡ column (bytes "amount") orders
compute_window_functions-column_example =
    compute_window_functions-column whole_numbers (bytes "amount") marking marking-IsLocal orders
      (running_sum ∷ []) ((unfold result_column in unfold ◌==◌ in refl, omega arith), tt)

-- The same without PARTITION BY: the rows come out sorted.
abbrev overall_sum : WindowExpr
overall_sum = record running_sum { partition_by = [] }

apply_window-column_example :
    column (bytes "amount") (apply_window whole_numbers marking overall_sum orders)
    ≡ column (bytes "amount") (sort_rows whole_numbers orders by_amount)
apply_window-column_example =
    apply_window-column whole_numbers (bytes "amount") marking marking-IsLocal overall_sum orders
      (unfold result_column in unfold ◌==◌ in refl) (unfold ◌==◌ in refl)

sorted_by_window :
    map (λ r. get r (bytes "amount")) (apply_window whole_numbers marking overall_sum orders)
    ≡ bytes "40" ∷ bytes "20" ∷ bytes "10" ∷ []
unfolding apply_window get
sorted_by_window = refl

partition_rows-first_keys_example :
    partition_rows (bytes "id" ∷ []) (make_group_key (bytes "id" ∷ [])) orders
    ≡ map
        (of_key (make_group_key (bytes "id" ∷ [])) orders)
        (first_keys (make_group_key (bytes "id" ∷ [])) [] orders)
partition_rows-first_keys_example =
    partition_rows-first_keys (make_group_key (bytes "id" ∷ [])) (bytes "id") [] orders

get_frame_range-Within_example :
    Within (length orders) (get_frame_range whole_numbers orders 0 (some from_previous))
get_frame_range-Within_example =
    get_frame_range-Within whole_numbers orders 0 (some from_previous) (omega arith)

-- id > 1 below name = eve, over the table of users.
abbrev two_filters : LogicalNode
two_filters =
    logical_filter
      (logical_filter (logical_scan (bytes "users") [])
        (comparison (bytes "id") (bytes ">") (bytes "1") [] nil))
      (comparison (bytes "name") (bytes "=") (bytes "eve") [] nil)

abbrev users_table : Table
users_table = record {
  name = bytes "users";
  columns = [];
  with_options = [];
  external = false;
  partition_by = [];
  estimated_rows = pos 0;
}

abbrev users_context : PhysicalPlanContext
users_context = record { catalog = (bytes "users", users_table) ∷ []; cte_data = [] }

abbrev users_store : Store
users_store t = ok (record { path = []; partition_values = []; rows = users } ∷ [])

users_context-IsUnpartitioned : IsUnpartitioned users_context.catalog
unfolding get_table lookup
users_context-IsUnpartitioned name t h = ground arith

optimize-outcome_example :
    outcome whole_numbers [] users_store users_context (optimize 3 default_rules two_filters)
    ≡ outcome whole_numbers [] users_store users_context two_filters
optimize-outcome_example =
    optimize-outcome whole_numbers [] users_store users_context users_context-IsUnpartitioned 3
      two_filters

optimize-enough_example :
    optimize 3 (merge_filters ∷ reorder_joins whole_numbers [] ∷ []) two_filters
    ≡ optimize 9 (merge_filters ∷ reorder_joins whole_numbers [] ∷ []) two_filters
optimize-enough_example =
    optimize-enough 3 9 (merge_filters ∷ reorder_joins whole_numbers [] ∷ []) two_filters
      (merge_filters-Shrinks, (reorder_joins-Shrinks whole_numbers [], tt))
      (unfold size in omega arith) (unfold size in omega arith)
