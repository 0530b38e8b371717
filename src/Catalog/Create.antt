-- ===== src/Catalog/Create.antt =====
-- Creating a table (Catalog.CreateTable of pkg/catalog/catalog.go): names are compared without case.
use gsql.Common.{ℕ, Option, none, some, [], ◌∷◌, ◌≡◌, refl, ap, ap₂, ◌∙◌, arith, if◌then◌else◌}
use gsql.Text.{Text, ◌==◌, to_lower, lower_byte}
use gsql.Map.{lookup, insert, lookup-insert}
use gsql.Result.{Result, ok, err, already_exists}
use gsql.Catalog.{Catalog, Table, normalize_name, get_table}
use gsql.Catalog.Url.{Url, parse_storage_url}

-- The check for the name, with what the catalog has under it.
unfoldable pub add_table : Catalog → Table → Option Table → Result Catalog
unfolding insert normalize_name
add_table catalog t none = ok (insert (normalize_name t.name) t catalog)
add_table catalog t (some old) = err (already_exists t.name)

unfoldable pub create_table : (Text → Option Url) → Catalog → Table → Result Catalog
unfolding parse_storage_url add_table lookup
create_table parse_url catalog t =
    add_table catalog (parse_storage_url parse_url t) (lookup (normalize_name t.name) catalog)

lower_byte_idem : (c : ℕ) → lower_byte (lower_byte c) ≡ lower_byte c
unfolding lower_byte
lower_byte_idem c = ground arith

pub normalize_name_idem : (name : Text) → normalize_name (normalize_name name) ≡ normalize_name name
unfolding normalize_name to_lower
normalize_name_idem [] = refl
normalize_name_idem (c ∷ name) = ap₂ (λ x xs. x ∷ xs) (lower_byte_idem c) (normalize_name_idem name)

added :
    (catalog after : Catalog) (t : Table) (o : Option Table)
    → add_table catalog t o ≡ ok after
    → (o ≡ none) × (after ≡ insert (normalize_name t.name) t catalog)
unfolding add_table
added catalog after t none h = (refl, cc)
added catalog after t (some old) h = absurd cc

-- A table is created only if the catalog has none of its name, case ignored; afterwards its name, in
-- any case, stands for the table with the options of its URL, and every other name for what it stood.
pub create_table-get :
    (parse_url : Text → Option Url) (catalog after : Catalog) (t : Table)
    → create_table parse_url catalog t ≡ ok after
    → (get_table catalog t.name ≡ none)
      × ((name : Text)
          → get_table after name ≡ (
              if normalize_name t.name == normalize_name name
              then some (parse_storage_url parse_url t)
              else get_table catalog name))
unfolding create_table get_table parse_storage_url
create_table-get parse_url catalog after t h =
    let stored = parse_storage_url parse_url t in
    let (free, made) = added catalog after stored (lookup (normalize_name t.name) catalog) h in
    (
      free,
      λ name.
          ap (lookup (normalize_name name)) made
          ∙ lookup-insert (normalize_name t.name) (normalize_name name) stored catalog,
    )
