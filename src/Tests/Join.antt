-- ===== src/Tests/Join.antt =====
-- Joins of three users with three orders.
use gsql.Common.{
  flatten, ◌++◌, ◌≡◌, refl, ◌<◌, ◌≤◌, ◌||◌, not, List, [], ◌∷◌, some, arith, map, flat_map, filter,
  All, length, take, drop, if◌then◌else◌,
}
use gsql.Text.{bytes, ◌==◌}
use gsql.Plan.Row.{Row}
use gsql.Plan.Iter.{slice_iter, rows_of, end_of}
use gsql.Plan.Join.{
  join_batch, is_type, record_matched, materialize_tail, fill_right, right_key, build_hash,
  join_iter,
}
use gsql.Plan.Join.Hash.{
  hash_of, nested_row, join_batch-nested, is_matched, materialize_tail-unmatched,
}
use gsql.Plan.Join.Pipeline.{Published, read_batches, delete_seq, drain, start}
use gsql.Plan.Join.Arrival.{Arrives, weight}
use gsql.Plan.Join.Parallel.{flatten-read_batches, read_batches-bounded, drain-join_iter}
use gsql.Tests.Data.{users, orders, join_on_id}

-- The LEFT join: two orders of the first user, and the other two users without one.
left_rows :
    length (join_batch (join_on_id "LEFT") (hash_of (join_on_id "LEFT").info orders) orders users)
    ≡ 4
unfolding join_batch build_hash right_key
left_rows = refl

join_batch-nested_example :
    join_batch (join_on_id "LEFT") (hash_of (join_on_id "LEFT").info orders) orders users
    ≡ flat_map (nested_row (join_on_id "LEFT") orders) users
join_batch-nested_example = join_batch-nested (join_on_id "LEFT") orders users (unfold ◌==◌ in refl)

materialize_tail-unmatched_example :
    materialize_tail
      (join_on_id "FULL")
      (record_matched (join_on_id "FULL").info (hash_of (join_on_id "FULL").info orders) users)
      orders
    ≡ (if is_type (join_on_id "FULL").info (bytes "RIGHT")
          || is_type (join_on_id "FULL").info (bytes "FULL")
        then map
            (fill_right (join_on_id "FULL"))
            (filter (λ rr. not (is_matched (join_on_id "FULL").info users rr)) orders)
        else [])
materialize_tail-unmatched_example = materialize_tail-unmatched (join_on_id "FULL") orders users

flatten-read_batches_example :
    (flatten (read_batches 2 [] (slice_iter users)).0 ≡ [] ++ rows_of (slice_iter users))
    × ((read_batches 2 [] (slice_iter users)).1 ≡ end_of (slice_iter users))
flatten-read_batches_example = flatten-read_batches 2 [] (slice_iter users)

read_batches-bounded_example :
    All (λ b. (0 < length b) × (length b ≤ 2)) (read_batches 2 [] (slice_iter users)).0
read_batches-bounded_example = read_batches-bounded 2 [] (slice_iter users) (omega arith)

abbrev joined : List Row → List Row
joined =
    join_batch (join_on_id "FULL") (build_hash (right_key (join_on_id "FULL").info) [] orders)
      orders

-- The worker of the second batch is done first.
abbrev late_first : List Published
late_first = (1, joined (drop 2 users)) ∷ (0, joined (take 2 users)) ∷ []

late_first-Arrives : Arrives 0 (map joined (read_batches 2 [] (slice_iter users)).0) late_first
unfolding read_batches slice_iter delete_seq
late_first-Arrives = (refl, (refl, refl))

drain-join_iter_example :
    drain 20
      (materialize_tail
        (join_on_id "FULL")
        (record_matched
          (join_on_id "FULL").info
          (build_hash (right_key (join_on_id "FULL").info) [] orders)
          (rows_of (slice_iter users)))
        orders)
      (read_batches 2 [] (slice_iter users)).1
      (start late_first)
    ≡ some (join_iter (join_on_id "FULL") orders (slice_iter users))
unfolding weight join_batch build_hash right_key record_matched materialize_tail rows_of slice_iter
drain-join_iter_example =
    drain-join_iter (join_on_id "FULL") orders (slice_iter users) 2 20 late_first late_first-Arrives
      (omega arith)
