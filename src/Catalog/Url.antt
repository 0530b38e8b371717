-- ===== src/Catalog/Url.antt =====
-- The storage options that a table's URL stands for (parseStorageURL of pkg/catalog/catalog.go). The
-- package net/url is a parameter: what it parses a text to, or none for an error.
pub mod Storage
use gsql.Common.{
  Bool, true, false, ◌||◌, Option, none, some, List, [], ◌∷◌, ◌++◌, eqb, if◌then◌else◌,
}
use gsql.Text.{Text, bytes, ◌==◌, to_lower, contains, split, join, trim_func, has_prefix}
use gsql.Map.{Map, lookup, insert}
use gsql.Catalog.{Table}

-- url.URL with the results of Hostname, Port and Query; the user has a name and perhaps a password.
pub record Url : Type 0 where
  pub scheme : Text
  pub host : Text
  pub hostname : Text
  pub port : Text
  pub user : Option (Text × Option Text)
  pub path : Text
  pub query : Map (List Text)

abbrev pub Options : Type 0
Options = Map Text

abbrev pub set : Text → Text → Options → Options
set k v options = insert k v options

-- The user's name and password, if given, under two keys.
unfoldable pub set_user : Text → Text → Option (Text × Option Text) → Options → Options
unfolding insert
set_user name_key pass_key none options = options
set_user name_key pass_key (some (name, none)) options = set name_key name options
set_user name_key pass_key (some (name, some pass)) options =
    set pass_key pass (set name_key name options)

-- "ftp" and "sftp"
unfoldable pub set_ftp : Text → Url → Options → Options
unfolding insert set_user ◌==◌
set_ftp storage u options =
    let hosted = set (bytes "host") u.hostname (set (bytes "storage") storage options) in
    let ported = if u.port == [] then hosted else set (bytes "port") u.port hosted in
    set (bytes "path") u.path (set_user (bytes "username") (bytes "password") u.user ported)

-- The bucket and the path below an endpoint.
unfoldable pub set_bucket : List Text → Options → Options
unfolding insert join
set_bucket [] options = options
set_bucket (bucket ∷ []) options = set (bytes "bucket") bucket options
set_bucket (bucket ∷ part ∷ parts) options =
    set (bytes "path") (join (bytes "/") (part ∷ parts)) (set (bytes "bucket") bucket options)

-- The path in a bucket that is the host; a first part that is empty gives none.
unfoldable pub set_path : List Text → Options → Options
unfolding insert join
set_path [] options = options
set_path ([] ∷ parts) options = options
set_path ((c ∷ part) ∷ parts) options =
    set (bytes "path") (join (bytes "/") ((c ∷ part) ∷ parts)) options

-- The key under which a query parameter of an s3 URL is stored.
unfoldable pub s3_key : Text → Text
unfolding ◌==◌
s3_key key =
    if key == bytes "access_key" || key == bytes "accesskey"
    then bytes "access_key"
    else if key == bytes "access_secret"
        || key == bytes "accesssecret"
        || key == bytes "secret_key"
        || key == bytes "secretkey"
    then bytes "access_secret"
    else bytes "s3_" ++ key

-- The first value of each parameter, under a key made from its name in lower case.
unfoldable pub set_query : (Text → Text) → Map (List Text) → Options → Options
unfolding insert to_lower
set_query key_of [] options = options
set_query key_of ((k, []) ∷ query) options = set_query key_of query options
set_query key_of ((k, v ∷ vs) ∷ query) options =
    set (key_of (to_lower k)) v (set_query key_of query options)

unfoldable pub set_s3 : Url → Options → Options
unfolding insert contains split trim_func set_bucket set_path set_query s3_key
set_s3 u options =
    let stored = set (bytes "storage") (bytes "s3") options in
    let parts = split b'/' (trim_func (λ c. eqb c b'/') u.path) in
    set_query s3_key u.query (
      if contains u.host (bytes ".") || contains u.host (bytes ":")
      then set_bucket parts (set (bytes "endpoint") (bytes "https://" ++ u.host) stored)
      else set_path parts (set (bytes "bucket") u.host stored))

unfoldable pub set_webdav : Url → Options → Options
unfolding insert set_user
set_webdav u options = set_user (bytes "username") (bytes "password") u.user (
    set (bytes "url") (u.scheme ++ (bytes "://" ++ (u.host ++ u.path)))
      (set (bytes "storage") (bytes "webdav") options))

unfoldable pub set_git : Url → Options → Options
unfolding insert has_prefix
set_git u options =
    set (if has_prefix u.path (bytes "/") then bytes "path" else bytes "repo") u.path
      (set (bytes "storage") (bytes "gitlfs") options)

unfoldable pub set_lark : Url → Options → Options
unfolding insert set_user set_query
set_lark u options =
    set_query (λ k. k) u.query
      (set_user (bytes "app_id") (bytes "app_secret") u.user
        (set (bytes "path") u.host (set (bytes "storage") (bytes "lark") options)))

-- The switch on the scheme; an unknown one changes nothing.
unfoldable pub set_storage : Text → Url → Options → Options
unfolding insert set_ftp set_s3 set_webdav set_git set_lark ◌==◌
set_storage scheme u options =
    if scheme == bytes "ftp"
    then set_ftp (bytes "ftp") u options
    else if scheme == bytes "sftp"
    then set_ftp (bytes "sftp") u options
    else if scheme == bytes "s3"
    then set_s3 u options
    else if scheme == bytes "hdfs"
    then set (bytes "path") u.path (set (bytes "storage") (bytes "hdfs") options)
    else if scheme == bytes "webdav"
    then set_webdav u options
    else if scheme == bytes "gitlfs" || scheme == bytes "git-lfs" || scheme == bytes "git"
    then set_git u options
    else if scheme == bytes "lark"
    then set_lark u options
    else if scheme == bytes "local"
    then set (bytes "path") u.path (set (bytes "storage") (bytes "local") options)
    else options

module _ (parse_url : Text → Option Url) where
  -- The options after the URL, if there is one and it parses.
  unfoldable pub url_options : Options → Options
  unfolding lookup set_storage to_lower
  url_options options = elim (lookup (bytes "url") options) [
    | none ↦ options
    | some text ↦ elim (parse_url text) [
      | none ↦ options
      | some u ↦ set_storage (to_lower u.scheme) u options
    ]
  ]

  unfoldable pub parse_storage_url : Table → Table
  unfolding url_options
  parse_storage_url t = record t { with_options = url_options t.with_options }
