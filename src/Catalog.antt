-- ===== src/Catalog.antt =====
-- pkg/catalog: tables and their lookup by name.
pub mod Url
pub mod Create
use gsql.Common.{Bool, Option, none, some, List, map}
use gsql.Common.Int.{ℤ}
use gsql.Text.{Text, to_lower}
use gsql.Map.{Map, lookup}

pub record ColumnDef : Type 0 where
  pub name : Text
  pub type : Text
  pub default : Text
  pub has_default : Bool

pub record Table : Type 0 where
  pub name : Text
  pub columns : List ColumnDef
  pub with_options : Map Text
  pub external : Bool
  pub partition_by : List Text
  -- 0 means unknown
  pub estimated_rows : ℤ

abbrev pub Catalog : Type 0
Catalog = Map Table

unfoldable pub normalize_name : Text → Text
unfolding to_lower
normalize_name name = to_lower name

unfoldable pub get_table : Catalog → Text → Option Table
unfolding lookup normalize_name
get_table tables name = lookup (normalize_name name) tables

-- Table.Option
unfoldable pub option : Table → Text → Text → Text
unfolding lookup
option t key default_value = elim (lookup key t.with_options) [ none ↦ default_value | some v ↦ v ]

unfoldable pub table_names : Catalog → List Text
table_names tables = map (λ entry. entry.0) tables
