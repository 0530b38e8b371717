-- ===== src/Plan/Join.antt =====
-- The hash join (pkg/plan/join.go): building the table over the right side, joining a batch of left
-- rows, and the rows of the right side that no left row matched.
pub mod Hash
pub mod Fill
pub mod Pipeline
pub mod Arrival
pub mod Order
pub mod Parallel
use gsql.Common.{
  Bool, true, false, not, ◌&&◌, ◌||◌, Option, none, some, List, [], ◌∷◌, ◌++◌, map, flat_map,
  filter, any, if◌then◌else◌,
}
use gsql.Text.{Text, bytes, ◌==◌}
use gsql.Map.{Map, lookup, insert, insert_all}
use gsql.Result.{Result, ok, err, ◌>>=◌}
use gsql.Plan.Logical.{JoinInfo}
use gsql.Plan.Row.{Row, get, copy_row, value_or}
use gsql.Plan.Iter.{RowIter, eof, fail, yield, append_iter, slice_iter}

-- "prefix.key"
abbrev pub qualified : Text → Text → Text
qualified prefix k = prefix ++ (bytes "." ++ k)

-- A column that exists already is stored under its qualified name, if there is a prefix.
unfoldable pub merge_entry : Text → Text → Text → Row → Row
unfolding lookup insert ◌==◌
merge_entry prefix k v dst = elim (lookup k dst) [
  | none ↦ insert k v dst
  | some _ ↦ if prefix == [] then insert k v dst else insert (qualified prefix k) v dst
]

unfoldable pub merge_entries : Text → Row → Row → Row
unfolding merge_entry
merge_entries prefix [] dst = dst
merge_entries prefix ((k, v) ∷ src) dst = merge_entry prefix k v (merge_entries prefix src dst)

-- The row of a matching pair.
unfoldable pub merge_rows : Text → Row → Row → Row
unfolding merge_entries copy_row
merge_rows prefix left right = merge_entries prefix right (copy_row left)

-- The row of a pair of a CROSS join: the right values win.
unfoldable pub cross_rows : Row → Row → Row
unfolding insert_all copy_row
cross_rows left right = insert_all right (copy_row left)

-- One default of fillDefaults: it is stored under its qualified name where the column exists.
unfoldable pub fill_entry : Text → Text → Text → Row → Row
unfolding lookup insert ◌==◌
fill_entry prefix k v dst = elim (lookup k dst) [
  | none ↦ insert k v dst
  | some _ ↦ if prefix == [] then dst else elim (lookup (qualified prefix k) dst) [
    | none ↦ insert (qualified prefix k) v dst
    | some _ ↦ dst
  ]
]

unfoldable pub fill_defaults : Row → Row → Text → Row
unfolding fill_entry
fill_defaults dst [] prefix = dst
fill_defaults dst ((k, v) ∷ defaults) prefix =
    fill_entry prefix k v (fill_defaults dst defaults prefix)

-- A physical join beside its two children; nil defaults are empty.
pub record JoinNode : Type 0 where
  pub info : JoinInfo
  pub left_defaults : Row
  pub right_defaults : Row

unfoldable pub normalize : JoinInfo → Text → Text
normalize info s = elim (info.normalize_key) [ none ↦ s | some f ↦ f s ]

unfoldable pub left_key : JoinInfo → Row → Text
unfolding normalize get
left_key info row = normalize info (get row info.left_column)

unfoldable pub right_key : JoinInfo → Row → Text
unfolding normalize get
right_key info row = normalize info (get row info.right_column)

-- `hash[key] = append(hash[key], row)`
unfoldable pub add_row : (Row → Text) → Map (List Row) → Row → Map (List Row)
unfolding lookup insert
add_row key hash row = insert (key row) (value_or [] (lookup (key row) hash) ++ row ∷ []) hash

unfoldable pub build_hash : (Row → Text) → Map (List Row) → List Row → Map (List Row)
unfolding add_row
build_hash key hash [] = hash
build_hash key hash (row ∷ rows) = build_hash key (add_row key hash row) rows

abbrev pub is_type : JoinInfo → Text → Bool
is_type info t = info.join_type == t

-- A left row with no match, filled with the defaults of the right side.
unfoldable pub fill_left : JoinNode → Row → Row
unfolding copy_row fill_defaults
fill_left n lr = fill_defaults (copy_row lr) n.right_defaults n.info.right_prefix

-- The rows of one left row whose table entry was found or not.
unfoldable pub join_found : JoinNode → Row → Option (List Row) → List Row
unfolding fill_left merge_rows ◌==◌
join_found n lr (some matched) =
    if is_type n.info (bytes "SEMI")
    then fill_left n lr ∷ []
    else map (merge_rows n.info.right_prefix lr) matched
join_found n lr none =
    if is_type n.info (bytes "LEFT") || is_type n.info (bytes "FULL")
    then fill_left n lr ∷ []
    else []

unfoldable pub join_row : JoinNode → Map (List Row) → Row → List Row
unfolding lookup left_key join_found
join_row n hash lr = join_found n lr (lookup (left_key n.info lr) hash)

-- joinBatch: the right rows are those of the table, for a CROSS join the collected ones.
unfoldable pub join_batch : JoinNode → Map (List Row) → List Row → List Row → List Row
unfolding join_row cross_rows ◌==◌
join_batch n hash right_rows batch =
    if is_type n.info (bytes "CROSS")
    then flat_map (λ lr. map (cross_rows lr) right_rows) batch
    else flat_map (join_row n hash) batch

-- recordMatched over a batch: the keys of its left rows that the table has.
unfoldable pub record_matched : JoinInfo → Map (List Row) → List Row → List Text
unfolding lookup left_key
record_matched info hash [] = []
record_matched info hash (lr ∷ batch) =
    let rest = record_matched info hash batch in
    elim (lookup (left_key info lr) hash) [ none ↦ rest | some _ ↦ left_key info lr ∷ rest ]

-- An unmatched right row, over the defaults of the left side.
unfoldable pub fill_right : JoinNode → Row → Row
unfolding merge_entries copy_row
fill_right n rr = merge_entries n.info.right_prefix rr (copy_row n.left_defaults)

-- materializeTail
unfoldable pub materialize_tail : JoinNode → List Text → List Row → List Row
unfolding right_key fill_right ◌==◌
materialize_tail n matched right_rows =
    if is_type n.info (bytes "RIGHT") || is_type n.info (bytes "FULL")
    then map (fill_right n)
        (filter (λ rr. not (any (λ k. k == right_key n.info rr) matched)) right_rows)
    else []

-- The stream of a join by one worker, which has recorded the keys `matched` so far: the rows of each
-- left row in turn, then the tail. An error of the left side ends the stream.
unfoldable pub join_from : JoinNode → Map (List Row) → List Row → List Text → RowIter → RowIter
unfolding join_batch record_matched materialize_tail append_iter slice_iter
join_from n hash right_rows matched eof = slice_iter (materialize_tail n matched right_rows)
join_from n hash right_rows matched (fail e) = fail e
join_from n hash right_rows matched (yield lr it) =
    append_iter (join_batch n hash right_rows (lr ∷ []))
      (join_from n hash right_rows (matched ++ record_matched n.info hash (lr ∷ [])) it)

-- The join of a left stream with the collected right rows.
unfoldable pub join_iter : JoinNode → List Row → RowIter → RowIter
unfolding join_from build_hash right_key
join_iter n right_rows left =
    join_from n (build_hash (right_key n.info) [] right_rows) right_rows [] left
