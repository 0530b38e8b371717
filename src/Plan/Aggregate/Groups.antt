-- ===== src/Plan/Aggregate/Groups.antt =====
-- The groups of an aggregation: one for every key that occurs, with its rows, in the order of the keys.
use gsql.Common.{
  Bool, true, false, Option, none, some, List, [], ◌∷◌, filter, ◌≡◌, refl, ap, ap₂, subst, ◌∙◌, inl,
  inr, arith, Bool-cases,
}
use gsql.Text.{Text, ◌==◌, eq_iff, text_lt}
use gsql.Map.{lookup, insert, lookup-insert}
use gsql.Plan.Row.{Row}
use gsql.Plan.Join.{add_row, build_hash}
use gsql.Plan.Join.Hash.{extend, lookup-build_hash}
use gsql.Plan.Sort.Laws.{IsOrdered, stable_sort-IsOrdered, filter-stable_sort}
use gsql.Text.Order.{text_lt_asym}
use gsql.Plan.Aggregate.{Group, group_less, make_group_key, group_rows}

abbrev pub has_key : Text → Group → Bool
has_key k g = g.0 == k

abbrev pub entry_of : Text → Option (List Row) → List Group
entry_of k none = []
entry_of k (some rows) = (k, rows) ∷ []

-- No key has two entries.
abbrev Distinct : List Group → Type 0
Distinct [] = Unit
Distinct ((k, rows) ∷ m) = (lookup k m ≡ none) × Distinct m

filter-has_key :
    (k : Text) (m : List Group) → Distinct m → filter (has_key k) m ≡ entry_of k (lookup k m)
unfolding lookup
filter-has_key k [] h = refl
filter-has_key k ((j, rows) ∷ m) h = elim (Bool-cases (j == k)) [
  | inl same ↦
      let j_is_k : j ≡ k = (eq_iff j k).0 same in
      let gone : lookup k m ≡ none = subst (λ x. lookup x m ≡ none) j_is_k h.0 in
      rw same (ap₂ (λ x l. (x, rows) ∷ l) j_is_k (filter-has_key k m h.1 ∙ ap (entry_of k) gone))
  | inr other ↦ rw other (filter-has_key k m h.1)
]

insert-Distinct :
    (k : Text) (rows : List Row) (m : List Group) → Distinct m → Distinct (insert k rows m)
unfolding insert lookup
insert-Distinct k rows [] h = (refl, tt)
insert-Distinct k rows ((j, w) ∷ m) h = elim (Bool-cases (j == k)) [
  | inl same ↦ rw same h
  | inr other ↦ rw other (
    lookup-insert k j rows m ∙ ground (arith, h.0, eq_iff k j, eq_iff j k),
    insert-Distinct k rows m h.1,
  )
]

build_hash-Distinct :
    (key : Row → Text) (m : List Group) (rows : List Row)
    → Distinct m
    → Distinct (build_hash key m rows)
unfolding build_hash add_row
build_hash-Distinct key m [] h = h
build_hash-Distinct key m (row ∷ rows) h =
    build_hash-Distinct key (add_row key m row) rows (insert-Distinct (key row) _ m h)

text_lt_irrefl : (s : Text) → text_lt s s ≡ false
unfolding text_lt
text_lt_irrefl [] = refl
text_lt_irrefl (x ∷ s) = ground (arith, text_lt_irrefl s)

ties : (k : Text) (g h : Group) → has_key k g ≡ true → has_key k h ≡ true → group_less g h ≡ false
ties k g h p q = rw ((eq_iff g.0 k).0 p, (eq_iff h.0 k).0 q) (text_lt_irrefl k)

-- The group of a key: none if no row has it, else its rows.
abbrev pub group_of : Text → List Row → List Group
group_of k rows = entry_of k (extend none rows)

lookup-nil : (k : Text) → lookup {V = List Row} k [] ≡ none
unfolding lookup
lookup-nil k = refl

-- With GROUP BY there is exactly one group for each key that occurs, it holds the rows of that key in
-- the order of the input, and the groups stand in the order of their keys.
pub group_rows-groups :
    (col : Text) (cols : List Text) (rows : List Row) (k : Text)
    → (filter (has_key k) (group_rows (col ∷ cols) rows)
        ≡ group_of k (filter (λ r. make_group_key (col ∷ cols) r == k) rows))
      × IsOrdered group_less (group_rows (col ∷ cols) rows)
unfolding group_rows
group_rows-groups col cols rows k =
    let key = make_group_key (col ∷ cols) in
    (
      filter-stable_sort group_less (has_key k) (ties k) (build_hash key [] rows)
          ∙ filter-has_key k (build_hash key [] rows) (build_hash-Distinct key [] rows tt)
          ∙ ap (entry_of k) (
              lookup-build_hash key [] rows k
              ∙ ap (λ o. extend o (filter (λ r. key r == k) rows)) (lookup-nil k)),
      stable_sort-IsOrdered group_less (λ g h. text_lt_asym g.0 h.0) (build_hash key [] rows),
    )
