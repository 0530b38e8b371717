-- ===== src/Plan/Join/Parallel.antt =====
-- The parallel probe gives the stream of the serial join.
use gsql.Common.{
  ℕ, ◌+◌, ◌≤◌, ◌<◌, some, List, [], ◌∷◌, ◌++◌, map, length, flatten, flat_map-append, All,
  length-append, leb, append_assoc, append-nil, ◌≡◌, refl, sym, ap, ap₂, ◌∙◌, inl, inr, arith,
  Bool-cases, leb_false→lt,
}
use gsql.Text.{Text, bytes}
use gsql.Map.{Map}
use gsql.Plan.Row.{Row}
use gsql.Plan.Iter.{RowIter, eof, fail, yield, append_iter, rows_of, end_of}
use gsql.Plan.Join.{
  JoinNode, is_type, right_key, build_hash, join_batch, record_matched, materialize_tail, join_from,
  join_iter,
}
use gsql.Plan.Join.Pipeline.{Published, flush, read_batches, drain, start}
use gsql.Plan.Join.Arrival.{Arrives}
use gsql.Plan.Join.Order.{ending, turns, drain-probing, append_iter-append}

flatten-flush : (batch : List Row) → flatten (flush batch) ≡ batch
unfolding flush
flatten-flush [] = refl
flatten-flush (row ∷ batch) = append-nil (row ∷ batch)

-- The batches are the left side cut up, with the error that ends it.
pub flatten-read_batches :
    (size : ℕ) (batch : List Row) (it : RowIter)
    → (flatten (read_batches size batch it).0 ≡ batch ++ rows_of it)
      × ((read_batches size batch it).1 ≡ end_of it)
unfolding read_batches rows_of end_of
flatten-read_batches size batch eof = (flatten-flush batch ∙ sym (append-nil batch), refl)
flatten-read_batches size batch (fail e) = (flatten-flush batch ∙ sym (append-nil batch), refl)
flatten-read_batches size batch (yield row it) =
    elim (Bool-cases (leb size (length (batch ++ row ∷ [])))) [
      | inl full ↦
          let (p, q) = flatten-read_batches size [] it in
          rw full (rw p (append_assoc batch (row ∷ []) (rows_of it)), q)
      | inr more ↦
          let (p, q) = flatten-read_batches size (batch ++ row ∷ []) it in
          rw more (p ∙ append_assoc batch (row ∷ []) (rows_of it), q)
    ]

-- Batches are never larger than the batch size, and none is empty: at most that many left rows are
-- held for one worker.
pub read_batches-bounded :
    (size : ℕ) (batch : List Row) (it : RowIter)
    → length batch < size
    → All (λ b. (0 < length b) × (length b ≤ size)) (read_batches size batch it).0
unfolding read_batches flush
read_batches-bounded size [] eof h = tt
read_batches-bounded size (r ∷ batch) eof h = ((omega arith, omega arith), tt)
read_batches-bounded size [] (fail e) h = tt
read_batches-bounded size (r ∷ batch) (fail e) h = ((omega arith, omega arith), tt)
read_batches-bounded size batch (yield row it) h =
    let grown : length (batch ++ row ∷ []) ≡ length batch + 1 =
      length-append batch (row ∷ []) ∙ omega arith in
    elim (Bool-cases (leb size (length (batch ++ row ∷ [])))) [
      | inl full ↦ rw full (
        (omega (arith, grown), omega (arith, grown)),
        read_batches-bounded size [] it (omega arith),
      )
      | inr more ↦
          rw more (read_batches-bounded size (batch ++ row ∷ []) it (leb_false→lt size _ more))
    ]

join_batch-append :
    (n : JoinNode) (hash : Map (List Row)) (rights xs ys : List Row)
    → join_batch n hash rights (xs ++ ys)
      ≡ join_batch n hash rights xs ++ join_batch n hash rights ys
unfolding join_batch
join_batch-append n hash rights xs ys = elim (Bool-cases (is_type n.info (bytes "CROSS"))) [
  | inl cross ↦ rw cross (flat_map-append _ xs ys)
  | inr keyed ↦ rw keyed (flat_map-append _ xs ys)
]

join_batch-nil :
    (n : JoinNode) (hash : Map (List Row)) (rights : List Row) → join_batch n hash rights [] ≡ []
unfolding join_batch
join_batch-nil n hash rights = ground arith

flatten-join_batch :
    (n : JoinNode) (hash : Map (List Row)) (rights : List Row) (batches : List (List Row))
    → flatten (map (join_batch n hash rights) batches) ≡ join_batch n hash rights (flatten batches)
flatten-join_batch n hash rights [] = sym (join_batch-nil n hash rights)
flatten-join_batch n hash rights (b ∷ bs) =
    rw (flatten-join_batch n hash rights bs) (sym (join_batch-append n hash rights b (flatten bs)))

record_matched-cons :
    (n : JoinNode) (hash : Map (List Row)) (lr : Row) (rows : List Row)
    → record_matched n.info hash (lr ∷ rows)
      ≡ record_matched n.info hash (lr ∷ []) ++ record_matched n.info hash rows
unfolding record_matched
record_matched-cons n hash lr rows = ground arith

join_from-rows :
    (n : JoinNode) (hash : Map (List Row)) (rights : List Row) (matched : List Text) (it : RowIter)
    → join_from n hash rights matched it
      ≡ append_iter (join_batch n hash rights (rows_of it)) (
          ending
            (materialize_tail n (matched ++ record_matched n.info hash (rows_of it)) rights)
            (end_of it))
unfolding join_from rows_of end_of
join_from-rows n hash rights matched eof = rw (join_batch-nil, append-nil)
join_from-rows n hash rights matched (fail e) = rw join_batch-nil
join_from-rows n hash rights matched (yield lr it) =
    let first = join_batch n hash rights (lr ∷ []) in
    let keys = record_matched n.info hash (lr ∷ []) in
    ap (append_iter first) (join_from-rows n hash rights (matched ++ keys) it)
    ∙ append_iter-append first (join_batch n hash rights (rows_of it)) _
    ∙ ap₂ append_iter (sym (join_batch-append n hash rights (lr ∷ []) (rows_of it))) (
        ap (λ m. ending (materialize_tail n m rights) (end_of it))
          (append_assoc matched keys (record_matched n.info hash (rows_of it))
            ∙ ap (λ r. matched ++ r) (sym (record_matched-cons n hash lr (rows_of it)))))

-- Whatever the order in which the workers publish the joined batches, each exactly once, the calls of
-- Next return the stream of the serial join: its rows in the order of the left side, then the tail or
-- the error of the left side. The fuel needed is the number of turns of the loop.
pub drain-join_iter :
    (n : JoinNode) (rights : List Row) (left : RowIter) (size fuel : ℕ) (results : List Published)
    → Arrives 0
        (map
          (join_batch n (build_hash (right_key n.info) [] rights) rights)
          (read_batches size [] left).0)
        results
    → turns
          (materialize_tail n
            (record_matched n.info (build_hash (right_key n.info) [] rights) (rows_of left))
            rights)
          (read_batches size [] left).1
          []
          []
          results
        + 3
      ≤ fuel
    → drain fuel
        (materialize_tail n
          (record_matched n.info (build_hash (right_key n.info) [] rights) (rows_of left))
          rights)
        (read_batches size [] left).1
        (start results)
      ≡ some (join_iter n rights left)
unfolding join_iter
drain-join_iter n rights left size fuel results arrives enough =
    let hash = build_hash (right_key n.info) [] rights in
    let cut = flatten-read_batches size [] left in
    let tail = materialize_tail n (record_matched n.info hash (rows_of left)) rights in
    drain-probing tail (read_batches size [] left).1 fuel 0 _ [] results [] enough arrives
    ∙ ap some (
        ap₂ append_iter
          (flatten-join_batch n hash rights (read_batches size [] left).0
            ∙ ap (join_batch n hash rights) cut.0)
          (ap (ending tail) cut.1)
        ∙ sym (join_from-rows n hash rights [] left))
