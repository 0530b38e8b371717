-- ===== src/Tests/Catalog.antt =====
-- A catalog of one table, and a table with an s3 URL.
use gsql.Common.{◌≡◌, refl, true, Option, some, none, [], ◌∷◌, All, if◌then◌else◌}
use gsql.Common.Int.{pos}
use gsql.Text.{Text, bytes, ◌==◌}
use gsql.Map.{lookup}
use gsql.Result.{ok}
use gsql.Catalog.{Catalog, Table, normalize_name, get_table}
use gsql.Catalog.Url.{Url, parse_storage_url, set_storage}
use gsql.Catalog.Url.Storage.{storage_of, set_storage-stored}
use gsql.Catalog.Create.{create_table, create_table-get}

-- s3://data/2026?Secret_Key=k, for each text
abbrev s3_url : Url
s3_url = record {
  scheme = bytes "s3";
  host = bytes "data";
  hostname = bytes "data";
  port = [];
  user = none;
  path = bytes "/2026";
  query = (bytes "Secret_Key", bytes "k" ∷ []) ∷ [];
}

abbrev parse_s3 : Text → Option Url
parse_s3 text = some s3_url

abbrev remote : Table
remote = record {
  name = bytes "Remote";
  columns = [];
  with_options = (bytes "url", bytes "s3://data/2026?Secret_Key=k") ∷ [];
  external = true;
  partition_by = [];
  estimated_rows = pos 0;
}

secret :
    lookup (bytes "access_secret") ((parse_storage_url parse_s3 remote).with_options)
    ≡ some (bytes "k")
unfolding parse_storage_url ◌==◌
secret = refl

abbrev with_remote : Catalog
with_remote = (bytes "remote", parse_storage_url parse_s3 remote) ∷ []

created : create_table parse_s3 [] remote ≡ ok with_remote
unfolding create_table ◌==◌
created = refl

create_table-get_example :
    (get_table [] (bytes "Remote") ≡ none)
    × ((name : Text)
        → get_table with_remote name ≡ (
            if normalize_name (bytes "Remote") == normalize_name name
            then some (parse_storage_url parse_s3 remote)
            else get_table [] name))
create_table-get_example = create_table-get parse_s3 [] with_remote remote created

set_storage-stored_example :
    All
      (λ entry. lookup (bytes "storage") (set_storage entry.0 s3_url []) ≡ some entry.1)
      storage_of
set_storage-stored_example = set_storage-stored s3_url []
