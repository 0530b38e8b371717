-- ===== src/Plan/Join/Pipeline.antt =====
-- The parallel probe of a join (pkg/plan/join.go): the reader cuts the left side into numbered
-- batches, workers publish the joined batches in any order, and Next puts them back in order. A run
-- of the workers is the order in which their results arrive; the receiving side is a step function
-- on its state.
use mathlib.Core.Option
use gsql.Common.{
  ℕ, zero, suc, Bool, true, false, not, Option, none, some, List, [], ◌∷◌, ◌++◌, length, filter,
  leb, eqb, if◌then◌else◌,
}
use gsql.Result.{Error}
use gsql.Plan.Row.{Row}
use gsql.Plan.Iter.{RowIter, eof, fail, yield}

-- The batches that readBatches sends, and the error that ended the left side, if any. A batch is sent
-- when it is full; what is left is sent at the end.
unfoldable pub flush : List Row → List (List Row)
flush [] = []
flush (row ∷ batch) = (row ∷ batch) ∷ []

unfoldable pub read_batches : ℕ → List Row → RowIter → List (List Row) × Option Error
unfolding flush
read_batches size batch eof = (flush batch, none)
read_batches size batch (fail e) = (flush batch, some e)
read_batches size batch (yield row it) =
    let full = leb size (length (batch ++ row ∷ [])) in
    let rest = read_batches size (if full then [] else batch ++ row ∷ []) it in
    if full then ((batch ++ row ∷ []) ∷ rest.0, rest.1) else rest

-- A published result: its batch number and its rows. (joinBatch returns no error.)
abbrev pub Published : Type 0
Published = ℕ × List Row

-- The batches with their numbers from `seq` on.
unfoldable pub number_from : ℕ → List (List Row) → List Published
number_from seq [] = []
number_from seq (batch ∷ batches) = (seq, batch) ∷ number_from (suc seq) batches

-- `received` is a map: an insertion stands in front and hides what it replaces.
unfoldable pub lookup_seq : ℕ → List Published → Option (List Row)
lookup_seq seq [] = none
lookup_seq seq ((s, rows) ∷ received) = if eqb s seq then some rows else lookup_seq seq received

abbrev pub has_seq : ℕ → Published → Bool
has_seq seq p = eqb p.0 seq

unfoldable pub delete_seq : ℕ → List Published → List Published
delete_seq seq received = filter (λ p. not (has_seq seq p)) received

-- The receiving side. `cur_rows` are the rows of the current batch that are not yet returned,
-- `results` what the channel will deliver before it is closed.
pub record Consumer : Type 0 where
  pub next_seq : ℕ
  pub received : List Published
  pub cur_rows : List Row
  pub results : List Published
  pub probe_done : Bool
  pub tail : List Row
  pub tail_done : Bool

-- One turn of the loop in Next: a row is returned, the loop goes on, or it ends.
pub data Turn : Type 0 where
  emit : Row → Consumer → Turn
  go_on : Consumer → Turn
  finished : Turn
  failed : Error → Turn

-- The rows that materializeTail gives, and the error of the reader, are known when the probe is done.
unfoldable pub end_turn : List Row → Option Error → Consumer → List Row → Turn
end_turn tail_rows (some e) c tail = failed e
end_turn tail_rows none c (row ∷ rows) = emit row (record c { tail = rows })
end_turn tail_rows none c [] =
    if not c.tail_done then go_on (record c { tail = tail_rows; tail_done = true }) else finished

unfoldable pub receive_turn : Consumer → List Published → Turn
receive_turn c [] = go_on (record c { probe_done = true })
receive_turn c (p ∷ results) = go_on (record c { received = p ∷ c.received; results = results })

unfoldable pub wait_turn : List Row → Option Error → Consumer → Option (List Row) → Turn
unfolding end_turn receive_turn delete_seq
wait_turn tail_rows failure c (some rows) = go_on (record c {
  received = delete_seq c.next_seq c.received;
  next_seq = suc c.next_seq;
  cur_rows = rows;
})
wait_turn tail_rows failure c none =
    if c.probe_done then end_turn tail_rows failure c c.tail else receive_turn c c.results

unfoldable pub turn : List Row → Option Error → Consumer → List Row → Turn
unfolding wait_turn lookup_seq
turn tail_rows failure c (row ∷ rows) = emit row (record c { cur_rows = rows })
turn tail_rows failure c [] = wait_turn tail_rows failure c (lookup_seq c.next_seq c.received)

-- All calls of Next, as a stream; `none` means that the fuel ran out.
unfoldable pub drain : ℕ → List Row → Option Error → Consumer → Option RowIter
unfolding turn
drain zero tail_rows failure c = none
drain (suc f) tail_rows failure c = elim (turn tail_rows failure c c.cur_rows) [
  | emit row c' ↦ Option.map (yield row) (drain f tail_rows failure c')
  | go_on c' ↦ drain f tail_rows failure c'
  | finished ↦ some eof
  | failed e ↦ some (fail e)
]

-- The state when the probe starts, with the results in their order of arrival.
abbrev pub start : List Published → Consumer
start results = record {
  next_seq = 0;
  received = [];
  cur_rows = [];
  results = results;
  probe_done = false;
  tail = [];
  tail_done = false;
}
