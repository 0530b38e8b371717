-- ===== src/Plan/Aggregate/Key.antt =====
-- Group keys: rows without NUL in their values have one key exactly when they agree in every column.
use gsql.Common.{Bool, true, List, [], ◌∷◌, ◌++◌, All, ◌≡◌, refl, ap₂, ◌↔◌}
use gsql.Text.{Text, join}
use gsql.Text.Cut.{without, cut_at}
use gsql.Plan.Row.{Row, get}
use gsql.Plan.Aggregate.{make_group_key}

-- No byte is NUL.
abbrev pub no_nul : Text → Bool
no_nul s = without 0 s

-- Every column's value is free of NUL.
abbrev pub ValuesClean : List Text → Row → Type 0
ValuesClean cols row = All (λ col. no_nul (get row col) ≡ true) cols

-- Both rows have the same value in every column.
abbrev pub Agree : List Text → Row → Row → Type 0
Agree cols r s = All (λ col. get r col ≡ get s col) cols

make_group_key-Agree :
    (cols : List Text) (r s : Row) → Agree cols r s → make_group_key cols r ≡ make_group_key cols s
unfolding make_group_key join
make_group_key-Agree [] r s h = refl
make_group_key-Agree (c ∷ []) r s h = h.0
make_group_key-Agree (c ∷ d ∷ cols) r s h =
    ap₂ (λ v k. v ++ 0 ∷ k) h.0 (make_group_key-Agree (d ∷ cols) r s h.1)

make_group_key-injective :
    (cols : List Text) (r s : Row)
    → ValuesClean cols r
    → ValuesClean cols s
    → make_group_key cols r ≡ make_group_key cols s
    → Agree cols r s
unfolding make_group_key join
make_group_key-injective [] r s hr hs e = tt
make_group_key-injective (c ∷ []) r s hr hs e = (e, tt)
make_group_key-injective (c ∷ d ∷ cols) r s hr hs e =
    let cut =
      cut_at 0 (get r c) (get s c) (make_group_key (d ∷ cols) r) (make_group_key (d ∷ cols) s) hr.0
        hs.0 e in
    (cut.0, make_group_key-injective (d ∷ cols) r s hr.1 hs.1 cut.1)

-- Two rows fall into one group exactly when they agree in every GROUP BY column, if no value of
-- these columns holds a NUL byte.
pub make_group_key_iff :
    (cols : List Text) (r s : Row)
    → ValuesClean cols r
    → ValuesClean cols s
    → (make_group_key cols r ≡ make_group_key cols s) ↔ Agree cols r s
make_group_key_iff cols r s hr hs =
    (make_group_key-injective cols r s hr hs, make_group_key-Agree cols r s)
