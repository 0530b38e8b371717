-- ===== src/Catalog/Url/Storage.antt =====
-- The kind of storage that a URL's scheme selects.
use gsql.Common.{
  All, false, ◌||◌, Option, none, some, List, [], ◌∷◌, ◌≡◌, refl, ◌∙◌, inl, inr, arith,
  if◌then◌else◌, Bool-cases,
}
use gsql.Text.{Text, bytes, ◌==◌, to_lower, contains, has_prefix}
use gsql.Map.{Map, lookup, insert, lookup-insert}
use gsql.Catalog.Url.{
  Url, Options, set_user, set_ftp, set_bucket, set_path, s3_key, set_query, set_s3, set_webdav,
  set_git, set_storage,
}

-- The storage option of each scheme but "lark", whose query may set any option.
abbrev pub storage_of : List (Text × Text)
storage_of =
    (bytes "ftp", bytes "ftp")
    ∷ (bytes "sftp", bytes "sftp")
    ∷ (bytes "s3", bytes "s3")
    ∷ (bytes "hdfs", bytes "hdfs")
    ∷ (bytes "webdav", bytes "webdav")
    ∷ (bytes "gitlfs", bytes "gitlfs")
    ∷ (bytes "git-lfs", bytes "gitlfs")
    ∷ (bytes "git", bytes "gitlfs")
    ∷ (bytes "local", bytes "local")
    ∷ []

-- The storage option has a value.
abbrev Stored : Text → Options → Type 0
Stored s options = lookup (bytes "storage") options ≡ some s

insert-Stored :
    (k v s : Text) (options : Options)
    → (k == bytes "storage") ≡ false
    → Stored s options
    → Stored s (insert k v options)
insert-Stored k v s options other h = lookup-insert k (bytes "storage") v options ∙ rw other h

first-Stored : (s : Text) (options : Options) → Stored s (insert (bytes "storage") s options)
unfolding ◌==◌
first-Stored s options = lookup-insert (bytes "storage") (bytes "storage") s options

set_user-Stored :
    (name_key pass_key s : Text) (user : Option (Text × Option Text)) (options : Options)
    → (name_key == bytes "storage") ≡ false
    → (pass_key == bytes "storage") ≡ false
    → Stored s options
    → Stored s (set_user name_key pass_key user options)
unfolding set_user
set_user-Stored name_key pass_key s none options p q h = h
set_user-Stored name_key pass_key s (some (name, none)) options p q h =
    insert-Stored name_key name s options p h
set_user-Stored name_key pass_key s (some (name, some pass)) options p q h =
    insert-Stored pass_key pass s (insert name_key name options) q
      (insert-Stored name_key name s options p h)

set_ftp-Stored : (s : Text) (u : Url) (options : Options) → Stored s (set_ftp s u options)
unfolding set_ftp ◌==◌
set_ftp-Stored s u options =
    let hosted = insert (bytes "host") u.hostname (insert (bytes "storage") s options) in
    let host : Stored s hosted =
      insert-Stored (bytes "host") u.hostname s _ refl (first-Stored s options) in
    let port : Stored s (if u.port == [] then hosted else insert (bytes "port") u.port hosted) =
      elim (Bool-cases (u.port == [])) [
        | inl e ↦ rw e host
        | inr e ↦ rw e (insert-Stored (bytes "port") u.port s hosted refl host)
      ] in
    insert-Stored (bytes "path") u.path s _ refl
      (set_user-Stored (bytes "username") (bytes "password") s u.user _ refl refl port)

s3_key-other : (key : Text) → (s3_key key == bytes "storage") ≡ false
unfolding s3_key ◌==◌
s3_key-other key = ground arith

set_query-Stored :
    (s : Text) (query : Map (List Text)) (options : Options)
    → Stored s options
    → Stored s (set_query s3_key query options)
unfolding set_query
set_query-Stored s [] options h = h
set_query-Stored s ((k, []) ∷ query) options h = set_query-Stored s query options h
set_query-Stored s ((k, v ∷ vs) ∷ query) options h =
    insert-Stored (s3_key (to_lower k)) v s _ (s3_key-other (to_lower k))
      (set_query-Stored s query options h)

set_bucket-Stored :
    (s : Text) (parts : List Text) (options : Options)
    → Stored s options
    → Stored s (set_bucket parts options)
unfolding set_bucket ◌==◌
set_bucket-Stored s [] options h = h
set_bucket-Stored s (bucket ∷ []) options h = insert-Stored (bytes "bucket") bucket s options refl h
set_bucket-Stored s (bucket ∷ part ∷ parts) options h =
    insert-Stored (bytes "path") _ s _ refl (insert-Stored (bytes "bucket") bucket s options refl h)

set_path-Stored :
    (s : Text) (parts : List Text) (options : Options)
    → Stored s options
    → Stored s (set_path parts options)
unfolding set_path ◌==◌
set_path-Stored s [] options h = h
set_path-Stored s ([] ∷ parts) options h = h
set_path-Stored s ((c ∷ part) ∷ parts) options h = insert-Stored (bytes "path") _ s options refl h

set_s3-Stored : (u : Url) (options : Options) → Stored (bytes "s3") (set_s3 u options)
unfolding set_s3 ◌==◌
set_s3-Stored u options =
    let s3 = bytes "s3" in
    let first = first-Stored s3 options in
    set_query-Stored s3 u.query _
      (elim (Bool-cases (contains u.host (bytes ".") || contains u.host (bytes ":"))) [
        | inl e ↦
            rw e (set_bucket-Stored s3 _ _ (insert-Stored (bytes "endpoint") _ s3 _ refl first))
        | inr e ↦
            rw e (set_path-Stored s3 _ _ (insert-Stored (bytes "bucket") u.host s3 _ refl first))
      ])

set_webdav-Stored : (u : Url) (options : Options) → Stored (bytes "webdav") (set_webdav u options)
unfolding set_webdav ◌==◌
set_webdav-Stored u options =
    set_user-Stored (bytes "username") (bytes "password") (bytes "webdav") u.user _ refl refl (
      insert-Stored (bytes "url") _ (bytes "webdav") _ refl (first-Stored (bytes "webdav") options))

set_git-Stored : (u : Url) (options : Options) → Stored (bytes "gitlfs") (set_git u options)
unfolding set_git ◌==◌
set_git-Stored u options = elim (Bool-cases (has_prefix u.path (bytes "/"))) [
  | inl e ↦ rw e (
      insert-Stored (bytes "path") u.path (bytes "gitlfs") _ refl
        (first-Stored (bytes "gitlfs") options))
  | inr e ↦ rw e (
      insert-Stored (bytes "repo") u.path (bytes "gitlfs") _ refl
        (first-Stored (bytes "gitlfs") options))
]

-- For each known scheme but "lark" the storage option ends as the storage of the scheme, whatever the
-- other parts of the URL and its query parameters are.
pub set_storage-stored :
    (u : Url) (options : Options)
    → All
        (λ entry. lookup (bytes "storage") (set_storage entry.0 u options) ≡ some entry.1)
        storage_of
unfolding set_storage ◌==◌
set_storage-stored u options = (
  set_ftp-Stored (bytes "ftp") u options,
  (
    set_ftp-Stored (bytes "sftp") u options,
    (
      set_s3-Stored u options,
      (
        insert-Stored (bytes "path") u.path (bytes "hdfs") _ refl
            (first-Stored (bytes "hdfs") options),
        (
          set_webdav-Stored u options,
          (
            set_git-Stored u options,
            (
              set_git-Stored u options,
              (
                set_git-Stored u options,
                (
                  insert-Stored (bytes "path") u.path (bytes "local") _ refl
                      (first-Stored (bytes "local") options),
                  tt,
                ),
              ),
            ),
          ),
        ),
      ),
    ),
  ),
)
