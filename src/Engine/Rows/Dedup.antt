-- ===== src/Engine/Rows/Dedup.antt =====
-- UNION without ALL: which rows stay (dedupRows of pkg/engine/engine.go).
use gsql.Common.{
  true, false, not, ◌&&◌, ◌||◌, ◌≡◌, refl, sym, ap, All, List, [], ◌∷◌, map, arith, inl, inr,
  Bool-cases,
}
use gsql.Text.{Text, ◌==◌, eq_refl, eq_iff, eq_of_test}
use gsql.Plan.Row.{Row}
use gsql.Engine.Plan.{has_text}
use gsql.Engine.Rows.Entries.{IsDistinct, IsMap, Agree, row_key_iff}
use gsql.Engine.Names.{has_text_iff}
use gsql.Common.Some.{Some, Some-map, Some-imp}
use gsql.Engine.Rows.{row_key, dedup_from, dedup_rows}

has_text_congr :
    (seen : List Text) (s t : Text) → (s == t) ≡ true → has_text seen s ≡ has_text seen t
has_text_congr seen s t h = ap (has_text seen) (eq_of_test s t h)

has_text-nil : (k : Text) → has_text [] k ≡ false
unfolding has_text
has_text-nil k = refl

has_text-cons :
    (s : Text) (ss : List Text) (k : Text) → has_text (s ∷ ss) k ≡ (s == k || has_text ss k)
unfolding has_text
has_text-cons s ss k = refl

has_text-dedup_from :
    (seen : List Text) (rows : List Row) (k : Text)
    → has_text (map row_key (dedup_from seen rows)) k
      ≡ (has_text (map row_key rows) k && not (has_text seen k))
unfolding dedup_from
has_text-dedup_from seen [] k = ground (arith, has_text-nil k)
has_text-dedup_from seen (row ∷ rows) k =
    let key = row_key row in
    let same = has_text_congr seen key k in
    elim (Bool-cases (has_text seen key)) [
      | inl p ↦ rw p (
          ground (
            arith,
            p,
            same,
            has_text-dedup_from seen rows k,
            has_text-cons key (map row_key rows) k,
          ))
      | inr p ↦
          let rest = dedup_from (key ∷ seen) rows in
          rw p (
            ground (
              arith,
              p,
              same,
              has_text-dedup_from (key ∷ seen) rows k,
              has_text-cons key (map row_key rows) k,
              has_text-cons key (map row_key rest) k,
              has_text-cons key seen k,
            ))
    ]

dedup_from-IsDistinct :
    (seen : List Text) (rows : List Row) → IsDistinct (map row_key (dedup_from seen rows))
unfolding dedup_from
dedup_from-IsDistinct seen [] = tt
dedup_from-IsDistinct seen (row ∷ rows) =
    let key = row_key row in
    elim (Bool-cases (has_text seen key)) [
      | inl p ↦ rw p (dedup_from-IsDistinct seen rows)
      | inr p ↦ rw p (
        ground (
          arith,
          has_text-dedup_from (key ∷ seen) rows key,
          has_text-cons key seen key,
          eq_refl key,
        ),
        dedup_from-IsDistinct (key ∷ seen) rows,
      )
    ]

-- What stands in the result stands in the input.
dedup_from-All :
    (P : Row → Type 0) (seen : List Text) (rows : List Row)
    → All P rows
    → All P (dedup_from seen rows)
unfolding dedup_from
dedup_from-All P seen [] ps = tt
dedup_from-All P seen (row ∷ rows) ps = elim (Bool-cases (has_text seen (row_key row))) [
  | inl e ↦ rw e (dedup_from-All P seen rows ps.1)
  | inr e ↦ rw e (ps.0, dedup_from-All P (row_key row ∷ seen) rows ps.1)
]

-- No row has the entries of one before it.
abbrev pub AreDistinct : List Row → Type 0
AreDistinct [] = Unit
AreDistinct (row ∷ rows) = All (λ other. Agree row other → ⊥) rows × AreDistinct rows

-- The row has the key of none of the rows.
other_keys :
    (row : Row) (rows : List Row)
    → IsMap row
    → All IsMap rows
    → has_text (map row_key rows) (row_key row) ≡ false
    → All (λ other. Agree row other → ⊥) rows
unfolding has_text
other_keys row [] h hs absent = tt
other_keys row (other ∷ rows) h hs absent = (
  λ agree. ground (
    arith,
    absent,
    eq_iff (row_key other) (row_key row),
    sym ((row_key_iff row other h hs.0).1 agree),
  ),
  other_keys row rows h hs.1 (ground (arith, absent)),
)

keys_distinct :
    (rows : List Row) → All IsMap rows → IsDistinct (map row_key rows) → AreDistinct rows
keys_distinct [] hs h = tt
keys_distinct (row ∷ rows) hs h = (other_keys row rows hs.0 hs.1 h.0, keys_distinct rows hs.1 h.1)

-- The rows with the key of a row have its entries.
key_found :
    (row : Row) (rows : List Row)
    → IsMap row
    → All IsMap rows
    → has_text (map row_key rows) (row_key row) ≡ true
    → Some (Agree row) rows
unfolding has_text
key_found row [] h hs found = absurd cc
key_found row (other ∷ rows) h hs found = elim (Bool-cases (row_key other == row_key row)) [
  | inl e ↦
      inl ((row_key_iff row other h hs.0).0 (sym (eq_of_test (row_key other) (row_key row) e)))
  | inr e ↦ inr (key_found row rows h hs.1 (rw e at found))
]

Agree-self : (row : Row) → Agree row row
Agree-self row name val = (λ h. h, λ h. h)

key_of :
    (row : Row) (rows : List Row)
    → Some (λ r. r ≡ row) rows
    → has_text (map row_key rows) (row_key row) ≡ true
key_of row rows h =
    let key : Text → Type 0 = λ s. s ≡ row_key row in
    (has_text_iff (map row_key rows) (row_key row)).1 (
      (Some-map key row_key rows).1
        (Some-imp (λ r. r ≡ row) (λ r. row_key r ≡ row_key row) (λ r e. ap row_key e) rows h))

-- Each row of a part of the input has one with its entries in the result.
rows_kept :
    (rows some_rows : List Row)
    → All IsMap rows
    → All IsMap some_rows
    → ((row : Row) → Some (λ r. r ≡ row) some_rows → Some (λ r. r ≡ row) rows)
    → All (λ row. Some (Agree row) (dedup_rows rows)) some_rows
unfolding dedup_rows
rows_kept rows [] hs ks sub = tt
rows_kept rows (row ∷ some_rows) hs ks sub = (
  key_found row (dedup_from [] rows) ks.0 (dedup_from-All IsMap [] rows hs) (
      ground (
        arith,
        has_text-dedup_from [] rows (row_key row),
        has_text-nil (row_key row),
        key_of row rows (sub row (inl refl)),
      )),
  rows_kept rows some_rows hs ks.1 (λ r h. sub r (inr h)),
)

-- For maps whose columns have no NUL and no equals sign in their names and no NUL in their values: of
-- rows with the same columns and values one stays, every row has one that stays with its columns and
-- values, and the rows that stay are rows of the input.
pub dedup_rows-AreDistinct :
    (rows : List Row) (P : Row → Type 0)
    → All IsMap rows
    → All P rows
    → AreDistinct (dedup_rows rows)
      × All (λ row. Some (Agree row) (dedup_rows rows)) rows
      × All P (dedup_rows rows)
unfolding dedup_rows
dedup_rows-AreDistinct rows P hs ps = (
  keys_distinct (dedup_from [] rows) (dedup_from-All IsMap [] rows hs)
      (dedup_from-IsDistinct [] rows),
  rows_kept rows rows hs hs (λ row h. h),
  dedup_from-All P [] rows ps,
)
