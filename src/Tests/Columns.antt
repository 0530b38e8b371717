-- ===== src/Tests/Columns.antt =====
-- Column pruning, function arguments, LATERAL VIEW and filling at a table of users.
use gsql.Common.{◌≡◌, refl, true, false, some, List, [], ◌∷◌, map, any, All, flat_map, arith}
use gsql.Common.Int.{pos}
use gsql.Text.{Text, bytes, ◌==◌}
use gsql.Map.{lookup, insert}
use gsql.Parser.Ast.{Expression, comparison, logical, nil, func_call}
use gsql.Catalog.{Table}
use gsql.Plan.Row.{Row, get}
use gsql.Plan.Eval.{evaluate, evaluate_value}
use gsql.Plan.Arg.{resolve_fuel, resolve_func_arg}
use gsql.Plan.Arg.Fuel.{resolve_fuel-enough}
use gsql.Plan.Logical.{LogicalNode, logical_scan, logical_project}
use gsql.Plan.Iter.{slice_iter, rows_of, end_of}
use gsql.Plan.LateralView.{LateralViewExplodeNode, expand, lateral_view_iter}
use gsql.Plan.LateralView.Laws.{rows_of-lateral_view_iter, expand-Kept}
use gsql.Plan.Columns.{column_pruning, collect_expr_cols}
use gsql.Plan.Columns.Collected.{IsPlain, In}
use gsql.Plan.Columns.Pruned.{prune, evaluate-prune}
use gsql.Tests.Data.{whole_numbers, user, order}

-- id > 1 AND name = eve
abbrev eve : Expression
eve =
    logical (comparison (bytes "id") (bytes ">") (bytes "1") [] nil) (bytes "AND")
      (comparison (bytes "name") (bytes "=") (bytes "eve") [] nil)

abbrev id_and_name : List Text
id_and_name = bytes "id" ∷ bytes "name" ∷ []

eve-covered : (c : Text) → In c (collect_expr_cols eve []) → any (λ k. k == c) id_and_name ≡ true
unfolding collect_expr_cols lookup insert ◌==◌
eve-covered c h = ground arith

evaluate-prune_example :
    (evaluate whole_numbers [] (user "3" "eve") eve
      ≡ evaluate whole_numbers [] (prune whole_numbers [] (user "3" "eve") id_and_name) eve)
    × (evaluate_value whole_numbers [] (user "3" "eve") eve
        ≡ evaluate_value whole_numbers [] (prune whole_numbers [] (user "3" "eve") id_and_name) eve)
evaluate-prune_example =
    evaluate-prune whole_numbers [] (user "3" "eve") eve id_and_name (unfold IsPlain in (tt, tt))
      eve-covered

abbrev people : Table
people = record {
  name = bytes "people";
  columns =
      record { name = bytes "id"; type = bytes "INT"; default = []; has_default = false }
      ∷ record { name = bytes "name"; type = bytes "STRING"; default = []; has_default = false }
      ∷ [];
  with_options = [];
  external = false;
  partition_by = [];
  estimated_rows = pos 0;
}

-- SELECT id, UPPER(LOWER(name)) FROM people
abbrev nested_select : LogicalNode
nested_select =
    logical_project (logical_scan (bytes "people") []) (bytes "id" ∷ bytes "u" ∷ [])
      (nil ∷ func_call (bytes "UPPER") (bytes "LOWER(name)" ∷ []) ∷ [])

-- The column that the nested call reads is pruned away.
name_pruned :
    column_pruning nested_select (some ((bytes "people", people) ∷ []))
    ≡ logical_project
        (logical_project (logical_scan (bytes "people") []) (bytes "id" ∷ []) [])
        (bytes "id" ∷ bytes "u" ∷ [])
        (nil ∷ func_call (bytes "UPPER") (bytes "LOWER(name)" ∷ []) ∷ [])
unfolding column_pruning
name_pruned = refl

resolve_fuel-enough_example :
    resolve_fuel whole_numbers [] 40 (order "1" "10") (bytes "(amount + 2) * id")
    ≡ resolve_func_arg whole_numbers [] (order "1" "10") (bytes "(amount + 2) * id")
resolve_fuel-enough_example =
    resolve_fuel-enough whole_numbers [] (order "1" "10") 40 (bytes "(amount + 2) * id")
      (omega arith)

-- LATERAL VIEW POSEXPLODE(tags) t AS pos, tag
abbrev tags : LateralViewExplodeNode
tags = record {
  col = bytes "tags";
  alias = bytes "tag";
  pos_alias = bytes "pos";
  is_outer = false;
  with_pos = true;
  with_map = false;
}

abbrev tagged : Row
tagged = (bytes "id", bytes "7") ∷ (bytes "tags", bytes "a, b") ∷ []

two_tags : map (λ r. get r (bytes "tag")) (expand tags tagged) ≡ bytes "a" ∷ bytes "b" ∷ []
unfolding expand get ◌==◌
two_tags = refl

rows_of-lateral_view_iter_example :
    (rows_of (lateral_view_iter tags (slice_iter (tagged ∷ [])))
      ≡ flat_map (expand tags) (rows_of (slice_iter (tagged ∷ []))))
    × (end_of (lateral_view_iter tags (slice_iter (tagged ∷ [])))
        ≡ end_of (slice_iter (tagged ∷ [])))
rows_of-lateral_view_iter_example = rows_of-lateral_view_iter tags (slice_iter (tagged ∷ []))

expand-Kept_example :
    All (λ new_row. lookup (bytes "id") new_row ≡ lookup (bytes "id") tagged) (expand tags tagged)
expand-Kept_example =
    expand-Kept tags tagged (bytes "id") (unfold ◌==◌ in refl) (unfold ◌==◌ in refl)
