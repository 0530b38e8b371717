-- ===== src/Plan/Join/Hash.antt =====
-- The hash join gives the rows of a nested loop over both sides.
use mathlib.Core.Path.{fun_ext}
use gsql.Common.{
  Bool, false, not, ◌||◌, Option, none, some, List, [], ◌∷◌, ◌++◌, map, flat_map, filter, any, All,
  append_assoc, ◌≡◌, refl, ap, ◌∙◌, inl, inr, if◌then◌else◌, Bool-cases, Option-cases,
  filter_congr_All, All-map,
}
use gsql.Text.{Text, bytes, ◌==◌, eq_iff, eq_refl}
use gsql.Map.{Map, lookup, lookup-insert}
use gsql.Plan.Logical.{JoinInfo}
use gsql.Plan.Row.{Row, value_or}
use gsql.Plan.Join.{
  JoinNode, left_key, right_key, add_row, build_hash, is_type, fill_left, merge_rows, join_found,
  join_row, join_batch, record_matched, fill_right, materialize_tail,
}

-- A table entry after more rows of its key.
abbrev pub extend : Option (List Row) → List Row → Option (List Row)
extend o [] = o
extend o (x ∷ xs) = some (value_or [] o ++ x ∷ xs)

extend-cons :
    (o : Option (List Row)) (x : Row) (xs : List Row)
    → extend (some (value_or [] o ++ x ∷ [])) xs ≡ extend o (x ∷ xs)
extend-cons o x [] = refl
extend-cons o x (y ∷ ys) = rw append_assoc

lookup-add_row :
    (key : Row → Text) (hash : Map (List Row)) (row : Row) (k : Text)
    → lookup k (add_row key hash row)
      ≡ (if key row == k then some (value_or [] (lookup k hash) ++ row ∷ []) else lookup k hash)
unfolding add_row
lookup-add_row key hash row k = elim (Bool-cases (key row == k)) [
  | inl same ↦ rw (lookup-insert, same, (eq_iff (key row) k).0 same) refl
  | inr other ↦ rw (lookup-insert, other) refl
]

-- An entry of the table holds the rows of its key, in their order.
pub lookup-build_hash :
    (key : Row → Text) (hash : Map (List Row)) (rows : List Row) (k : Text)
    → lookup k (build_hash key hash rows) ≡ extend (lookup k hash) (filter (λ r. key r == k) rows)
unfolding build_hash
lookup-build_hash key hash [] k = refl
lookup-build_hash key hash (row ∷ rows) k = elim (Bool-cases (key row == k)) [
  | inl same ↦
      lookup-build_hash key (add_row key hash row) rows k
      ∙ rw (lookup-add_row, same) (extend-cons (lookup k hash) row (filter (λ r. key r == k) rows))
  | inr other ↦
      lookup-build_hash key (add_row key hash row) rows k ∙ rw (lookup-add_row, other) refl
]

-- The table over all right rows.
abbrev pub hash_of : JoinInfo → List Row → Map (List Row)
hash_of info rights = build_hash (right_key info) [] rights

-- The right rows that a left row matches.
abbrev pub matches : JoinInfo → List Row → Row → List Row
matches info rights lr = filter (λ rr. right_key info rr == left_key info lr) rights

-- A nested loop: the rows of one left row with its matches.
pub nested_matches : JoinNode → Row → List Row → List Row
nested_matches n lr [] =
    if is_type n.info (bytes "LEFT") || is_type n.info (bytes "FULL")
    then fill_left n lr ∷ []
    else []
nested_matches n lr (rr ∷ rrs) =
    if is_type n.info (bytes "SEMI")
    then fill_left n lr ∷ []
    else map (merge_rows n.info.right_prefix lr) (rr ∷ rrs)

pub nested_row : JoinNode → List Row → Row → List Row
nested_row n rights lr = nested_matches n lr (matches n.info rights lr)

lookup-nil : (k : Text) → lookup {V = List Row} k [] ≡ none
unfolding lookup
lookup-nil k = refl

lookup-hash_of :
    (info : JoinInfo) (rights : List Row) (k : Text)
    → lookup k (hash_of info rights) ≡ extend none (filter (λ rr. right_key info rr == k) rights)
lookup-hash_of info rights k =
    lookup-build_hash (right_key info) [] rights k ∙ rw (lookup-nil k) refl

join_found-extend :
    (n : JoinNode) (lr : Row) (ms : List Row)
    → join_found n lr (extend none ms) ≡ nested_matches n lr ms
unfolding join_found nested_matches
join_found-extend n lr [] = refl
join_found-extend n lr (m ∷ ms) = refl

pub join_row-nested :
    (n : JoinNode) (rights : List Row) (lr : Row)
    → join_row n (hash_of n.info rights) lr ≡ nested_row n rights lr
unfolding join_row nested_row
join_row-nested n rights lr =
    rw (lookup-hash_of n.info rights (left_key n.info lr))
      (join_found-extend n lr (matches n.info rights lr))

-- The join of a batch against the table over the right rows is the nested loop over both, for every
-- join type but CROSS: the matches of a left row in the order of the right rows, one row for a SEMI
-- join, and a row filled with the right defaults where LEFT or FULL finds no match.
pub join_batch-nested :
    (n : JoinNode) (rights batch : List Row)
    → is_type n.info (bytes "CROSS") ≡ false
    → join_batch n (hash_of n.info rights) rights batch ≡ flat_map (nested_row n rights) batch
unfolding join_batch
join_batch-nested n rights batch h = rw (h, fun_ext (join_row-nested n rights))

-- Some left row has the key of the right row.
abbrev pub is_matched : JoinInfo → List Row → Row → Bool
is_matched info lefts rr = any (λ lr. left_key info lr == right_key info rr) lefts

-- The right row stands in the table under its key.
abbrev HasEntry : JoinInfo → Map (List Row) → Row → Type 0
HasEntry info hash rr = (rows : List Row) × (lookup (right_key info rr) hash ≡ some rows)

recorded-is_matched :
    (info : JoinInfo) (hash : Map (List Row)) (lefts : List Row) (rr : Row)
    → HasEntry info hash rr
    → any (λ k. k == right_key info rr) (record_matched info hash lefts) ≡ is_matched info lefts rr
unfolding record_matched
recorded-is_matched info hash [] rr h = refl
recorded-is_matched info hash (lr ∷ lefts) rr h =
    elim (Option-cases (lookup (left_key info lr) hash)) [
      | inr (rows, e) ↦ rw (e, record_matched, recorded-is_matched info hash lefts rr h)
      | inl e ↦ elim (Bool-cases (left_key info lr == right_key info rr)) [
        | inl same ↦ cc (e, h.1, (eq_iff (left_key info lr) (right_key info rr)).0 same)
        | inr other ↦ rw (e, record_matched, other, recorded-is_matched info hash lefts rr h)
      ]
    ]

abbrev NonEmpty : List Row → Type 0
NonEmpty xs = (y : Row) × (ys : List Row) × (xs ≡ y ∷ ys)

NonEmpty-filter-cons :
    (p : Row → Bool) (x : Row) (xs : List Row)
    → NonEmpty (filter p xs)
    → NonEmpty (filter p (x ∷ xs))
NonEmpty-filter-cons p x xs (y, ys, e) = elim (Bool-cases (p x)) [
  | inl kept ↦ (x, filter p xs, rw kept)
  | inr dropped ↦ (y, ys, rw dropped e)
]

keys-NonEmpty :
    (key : Row → Text) (rows : List Row)
    → All (λ rr. NonEmpty (filter (λ r. key r == key rr) rows)) rows
keys-NonEmpty key [] = tt
keys-NonEmpty key (x ∷ xs) = (
  (x, filter (λ r. key r == key x) xs, rw (eq_refl (key x))),
  All-map (λ rr h. NonEmpty-filter-cons (λ r. key r == key rr) x xs h) xs (keys-NonEmpty key xs),
)

rows-HasEntry :
    (info : JoinInfo) (rights : List Row) → All (HasEntry info (hash_of info rights)) rights
rows-HasEntry info rights =
    All-map
      (λ rr (y, ys, e).
        (y ∷ ys, lookup-hash_of info rights (right_key info rr) ∙ ap (extend none) e))
      rights (keys-NonEmpty (right_key info) rights)

-- The tail of a RIGHT or FULL join is the right rows that no left row matches, in their order, each
-- over the left defaults; the other join types have no tail.
pub materialize_tail-unmatched :
    (n : JoinNode) (rights lefts : List Row)
    → materialize_tail n (record_matched n.info (hash_of n.info rights) lefts) rights ≡ (
        if is_type n.info (bytes "RIGHT") || is_type n.info (bytes "FULL")
        then map (fill_right n) (filter (λ rr. not (is_matched n.info lefts rr)) rights)
        else [])
unfolding materialize_tail
materialize_tail-unmatched n rights lefts =
    ap
      (λ rrs.
        if is_type n.info (bytes "RIGHT") || is_type n.info (bytes "FULL")
        then map (fill_right n) rrs
        else [])
      (filter_congr_All _ _ rights (
        All-map (λ rr h. ap not (recorded-is_matched n.info (hash_of n.info rights) lefts rr h))
          rights (rows-HasEntry n.info rights)))
