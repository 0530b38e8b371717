-- ===== src/Plan/Join/Order.antt =====
-- The rows of a join come out in the order of the left side, in whatever order the workers finish.
use mathlib.Core.Option
use gsql.Common.{
  ℕ, zero, suc, ◌+◌, ◌≤◌, ◌<◌, Bool, true, false, Option, none, some, List, [], ◌∷◌, ◌++◌, length,
  filter, flatten, filter-append, ◌≡◌, refl, sym, ap, ◌∙◌, inl, inr, arith, Option-cases,
}
use gsql.Result.{Error}
use gsql.Plan.Row.{Row}
use gsql.Plan.Iter.{RowIter, fail, yield, append_iter, slice_iter}
use gsql.Plan.Join.Pipeline.{
  Published, Consumer, lookup_seq, has_seq, delete_seq, wait_turn, turn, drain,
}
use gsql.Plan.Join.Arrival.{
  Arrives, lookup_seq-filter, lookup_seq-none, append-singleton, weight, weight-filter,
  due-received, Arrives-early,
}

-- How the stream ends: by the reader's error, or by the tail.
abbrev pub ending : List Row → Option Error → RowIter
ending tail_rows none = slice_iter tail_rows
ending tail_rows (some e) = fail e

abbrev pub probing : ℕ → List Published → List Row → List Published → Consumer
probing seq received cur results = record {
  next_seq = seq;
  received = received;
  cur_rows = cur;
  results = results;
  probe_done = false;
  tail = [];
  tail_done = false;
}

abbrev ended : ℕ → List Row → Bool → Consumer
ended seq tail tail_done = record {
  next_seq = seq;
  received = [];
  cur_rows = [];
  results = [];
  probe_done = true;
  tail = tail;
  tail_done = tail_done;
}

-- The turns that return the tail.
drain-tail :
    (tail_rows : List Row) (f seq : ℕ) (tail : List Row)
    → length tail < f
    → drain f tail_rows none (ended seq tail true) ≡ some (slice_iter tail)
unfolding drain slice_iter
drain-tail tail_rows zero seq tail h = absurd (omega arith)
drain-tail tail_rows (suc f) seq [] h = refl
drain-tail tail_rows (suc f) seq (r ∷ tail) h =
    ap (Option.map (yield r)) (drain-tail tail_rows f seq tail (omega arith))

pub append_iter-append :
    (xs ys : List Row) (it : RowIter)
    → append_iter xs (append_iter ys it) ≡ append_iter (xs ++ ys) it
unfolding append_iter
append_iter-append [] ys it = refl
append_iter-append (x ∷ xs) ys it = ap (yield x) (append_iter-append xs ys it)

module _ (tail_rows : List Row) (failure : Option Error) where
  drain-ended :
      (f seq : ℕ)
      → suc (length tail_rows) < f
      → drain f tail_rows failure (ended seq [] false) ≡ some (ending tail_rows failure)
  unfolding drain
  drain-ended zero seq h = absurd (omega arith)
  drain-ended (suc f) seq h = elim (Option-cases failure) [
    | inl e ↦ rw e (drain-tail tail_rows f seq tail_rows (omega arith))
    | inr (x, e) ↦ rw e refl
  ]

  step-due :
      (f seq : ℕ) (b : List Row) (received results : List Published)
      → lookup_seq seq received ≡ some b
      → drain (suc f) tail_rows failure (probing seq received [] results)
        ≡ drain f tail_rows failure (probing (suc seq) (delete_seq seq received) b results)
  unfolding drain
  step-due f seq b received results e = rw (e, drain, turn, wait_turn)

  step-receive :
      (f seq : ℕ) (p : Published) (received results : List Published)
      → lookup_seq seq received ≡ none
      → drain (suc f) tail_rows failure (probing seq received [] (p ∷ results))
        ≡ drain f tail_rows failure (probing seq (p ∷ received) [] results)
  unfolding drain
  step-receive f seq p received results e = rw (e, drain, turn, wait_turn)

  -- The turns that are needed, but for the last three.
  abbrev pub turns : List Row → List Published → List Published → ℕ
  turns cur received results = length cur + weight 1 received + weight 2 results + length tail_rows

  weight-due :
      (seq : ℕ) (b : List Row) (received : List Published)
      → filter (has_seq seq) received ≡ (seq, b) ∷ []
      → weight 1 (delete_seq seq received) + length b + 1 ≡ weight 1 received
  unfolding delete_seq weight
  weight-due seq b received h =
      let total = weight-filter 1 (has_seq seq) received in omega (arith, (rw h at total))

  pub drain-probing :
      (f seq : ℕ) (bs : List (List Row)) (received results : List Published) (cur : List Row)
      → turns cur received results + 3 ≤ f
      → Arrives seq bs (received ++ results)
      → drain f tail_rows failure (probing seq received cur results)
        ≡ some (append_iter cur (append_iter (flatten bs) (ending tail_rows failure)))
  unfolding drain append_iter weight
  drain-probing zero seq bs received results cur h a = absurd (omega arith)
  drain-probing (suc f) seq bs received results (r ∷ cur) h a =
      ap (Option.map (yield r)) (drain-probing f seq bs received results cur (omega arith) a)
  drain-probing (suc f) seq [] [] [] [] h a = drain-ended f seq (omega arith)
  drain-probing (suc f) seq [] [] (p ∷ results) [] h a = cc
  drain-probing (suc f) seq [] (p ∷ received) results [] h a = cc
  drain-probing (suc f) seq (b ∷ bs) received results [] h a =
      elim (append-singleton (filter (has_seq seq) received) (filter (has_seq seq) results) (seq, b)
        (sym (filter-append (has_seq seq) received results) ∙ a.0)) [
          | inl (here, gone) ↦
              step-due f seq b received results (lookup_seq-filter seq b received here)
              ∙ drain-probing f (suc seq) bs (delete_seq seq received) results b
                  (omega (arith, weight-due seq b received here))
                  (due-received seq b bs received results here gone a.1)
              ∙ ap some (append_iter-append b (flatten bs) (ending tail_rows failure))
          | inr (absent, later) ↦
              waiting (drain-probing f seq (b ∷ bs)) results (lookup_seq-none seq received absent)
                later h a
        ]
    where
      waiting :
          ((rec res : List Published) (cur : List Row)
            → turns cur rec res + 3 ≤ f
            → Arrives seq (b ∷ bs) (rec ++ res)
            → drain f tail_rows failure (probing seq rec cur res)
              ≡ some (append_iter cur (append_iter (flatten (b ∷ bs)) (ending tail_rows failure))))
          → (rs : List Published) → lookup_seq seq received ≡ none
          → filter (has_seq seq) rs ≡ (seq, b) ∷ []
          → turns [] received rs + 3 ≤ suc f
          → Arrives seq (b ∷ bs) (received ++ rs)
          → drain (suc f) tail_rows failure (probing seq received [] rs)
            ≡ some (append_iter (b ++ flatten bs) (ending tail_rows failure))
      waiting ih [] e l m r = cc
      waiting ih (p ∷ rs) e l m r =
          step-receive f seq p received rs e
          ∙ ih (p ∷ received) rs [] (omega arith) (Arrives-early seq (b ∷ bs) received p rs r)
