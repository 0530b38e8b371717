-- ===== src/Plan/Iter.antt =====
-- Row streams (pkg/plan/iter.go). An iterator is what its calls of Next return: rows, and then
-- io.EOF or an error. Closing an iterator changes nothing that Next returned.
use gsql.Common.{ℕ, zero, suc, Bool, Option, none, some, List, [], ◌∷◌, if◌then◌else◌}
use gsql.Result.{Error, Result, ok, err, ◌>>=◌}
use gsql.Plan.Row.{Row}

pub data RowIter : Type 0 where
  eof : RowIter
  fail : Error → RowIter
  yield : Row → RowIter → RowIter

-- sliceIter
unfoldable pub slice_iter : List Row → RowIter
slice_iter [] = eof
slice_iter (row ∷ rows) = yield row (slice_iter rows)

-- Drains an iterator; an error discards the rows.
unfoldable pub collect : RowIter → Result (List Row)
collect eof = ok []
collect (fail e) = err e
collect (yield row it) = collect it >>= λ rows. ok (row ∷ rows)

-- filterIter
unfoldable pub filter_iter : (Row → Bool) → RowIter → RowIter
filter_iter predicate eof = eof
filter_iter predicate (fail e) = fail e
filter_iter predicate (yield row it) =
    let rest = filter_iter predicate it in if predicate row then yield row rest else rest

-- projectIter, with the projection of one row
unfoldable pub map_iter : (Row → Row) → RowIter → RowIter
map_iter project eof = eof
map_iter project (fail e) = fail e
map_iter project (yield row it) = yield (project row) (map_iter project it)

-- limitIter: after n rows it asks its child for nothing more.
unfoldable pub limit_iter : ℕ → RowIter → RowIter
limit_iter zero it = eof
limit_iter (suc n) eof = eof
limit_iter (suc n) (fail e) = fail e
limit_iter (suc n) (yield row it) = yield row (limit_iter n it)

-- An iterator that goes on with another when the first is exhausted.
unfoldable pub append_iter : List Row → RowIter → RowIter
append_iter [] it = it
append_iter (row ∷ rows) it = yield row (append_iter rows it)

-- The rows that a stream returns, and the error that ends it, if any.
unfoldable pub rows_of : RowIter → List Row
rows_of eof = []
rows_of (fail e) = []
rows_of (yield row it) = row ∷ rows_of it

unfoldable pub end_of : RowIter → Option Error
end_of eof = none
end_of (fail e) = some e
end_of (yield row it) = end_of it
