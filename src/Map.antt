-- ===== src/Map.antt =====
-- Go maps keyed by strings, as association lists. The order in which `range` visits a map is not
-- fixed by the language; a loop here visits the entries from the last to the first.
use gsql.Common.{◌≡◌, refl, Option, none, some, List, [], ◌∷◌, arith, if◌then◌else◌}
use gsql.Text.{Text, ◌==◌, eq_iff}

abbrev pub Map {ℓ} : Type ℓ → Type ℓ
Map V = List (Text × V)

abbrev pub or_else {ℓ} : {A : Type ℓ} → Option A → Option A → Option A
or_else none b = b
or_else (some a) b = some a

module _ {ℓ} {V : Type ℓ} where
  -- `v, ok := m[k]`
  unfoldable pub lookup : Text → Map V → Option V
  lookup key [] = none
  lookup key ((first, val) ∷ rest) = if first == key then some val else lookup key rest

  -- `m[k] = v`
  unfoldable pub insert : Text → V → Map V → Map V
  insert key val [] = (key, val) ∷ []
  insert key val ((first, old) ∷ rest) =
      if first == key then (first, val) ∷ rest else (first, old) ∷ insert key val rest

  -- `for k, v := range src { dst[k] = v }`
  unfoldable pub insert_all : Map V → Map V → Map V
  unfolding insert
  insert_all [] dst = dst
  insert_all ((k, v) ∷ src) dst = insert k v (insert_all src dst)

  pub lookup-insert :
      (key other : Text) (val : V) (entries : Map V)
      → lookup other (insert key val entries)
        ≡ (if key == other then some val else lookup other entries)
  unfolding lookup insert
  lookup-insert key other val [] = refl
  lookup-insert key other val ((first, old) ∷ rest) =
      let ih = lookup-insert key other val rest in
      ground (arith, ih, eq_iff first key, eq_iff first other, eq_iff key other)

  pub lookup-insert_all :
      (j : Text) (src dst : Map V)
      → lookup j (insert_all src dst) ≡ or_else (lookup j src) (lookup j dst)
  unfolding lookup insert_all
  lookup-insert_all j [] dst = refl
  lookup-insert_all j ((k, v) ∷ src) dst =
      ground (arith, lookup-insert k j v (insert_all src dst), lookup-insert_all j src dst)
