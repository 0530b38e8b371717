-- ===== src/Engine/Project/Keys.antt =====
-- ORDER BY against the projection (projectionKeyMap and addProjection of pkg/engine/engine.go).
use gsql.Common.{
  true, false, ◌≡◌, refl, Option, none, some, List, [], ◌∷◌, ◌++◌, map, All, inl, inr, Bool-cases,
  arith,
}
use gsql.Text.{Text, ◌==◌, eq_refl}
use gsql.Map.{Map, lookup, insert, lookup-insert}
use gsql.Parser.Ast.{Expressions, AggregateExpr, JoinClause, WindowExpr}
use gsql.Plan.Builtin.{Registry}
use gsql.Engine.Columns.{project_column_key}
use gsql.Engine.Plan.{has_text, window_key_set}
use gsql.Engine.Project.{
  is_star, project_key, other_exprs, set_alias, projection_items, item_keys, alias_keys,
  projection_key_map,
}

has_text-append :
    (xs ys : List Text) (s : Text) → has_text ys s ≡ true → has_text (xs ++ ys) s ≡ true
unfolding has_text
has_text-append [] ys s h = h
has_text-append (x ∷ xs) ys s h = ground (arith, has_text-append xs ys s h)

has_text-first : (xs : List Text) (s : Text) → has_text (s ∷ xs) s ≡ true
unfolding has_text
has_text-first xs s = ground (arith, eq_refl s)

-- A map with emitted columns for its values.
abbrev HasValues : List Text → Map Text → Type 0
HasValues emitted m = (s key : Text) → lookup s m ≡ some key → has_text emitted key ≡ true

insert-HasValues :
    (emitted : List Text) (m : Map Text) (name key : Text)
    → HasValues emitted m
    → has_text emitted key ≡ true
    → HasValues emitted (insert name key m)
insert-HasValues emitted m name key old new s found h =
    let e = lookup-insert name s key m in
    elim (Bool-cases (name == s)) [ inl p ↦ cc (e, p, h, new) | inr p ↦ old s found (cc (e, p, h)) ]

set_alias-HasValues :
    (emitted : List Text) (m : Map Text) (alias orig : Text) (found : Option Text)
    → lookup orig m ≡ found
    → HasValues emitted m
    → HasValues emitted (set_alias alias found m)
unfolding set_alias
set_alias-HasValues emitted m alias orig none e old = old
set_alias-HasValues emitted m alias orig (some key) e old =
    insert-HasValues emitted m alias key old (old orig key e)

alias_keys-HasValues :
    (emitted : List Text) (aliases keys : Map Text)
    → HasValues emitted keys
    → HasValues emitted (alias_keys aliases keys)
unfolding alias_keys
alias_keys-HasValues emitted [] keys h = h
alias_keys-HasValues emitted ((alias, orig) ∷ rest) keys h =
    set_alias-HasValues emitted (alias_keys rest keys) alias orig
      (lookup orig (alias_keys rest keys)) refl (alias_keys-HasValues emitted rest keys h)

module _ (joins : List JoinClause) (window_keys emitted : List Text) where
  -- The item is a star, or its key is emitted.
  abbrev IsEmitted : Text → Type 0
  IsEmitted col = is_star col ≡ false → has_text emitted (project_key window_keys joins col) ≡ true

  item_keys-HasValues :
      (columns : List Text) (keys : Map Text)
      → All IsEmitted columns
      → HasValues emitted keys
      → HasValues emitted (item_keys window_keys joins columns keys)
  unfolding item_keys
  item_keys-HasValues [] keys all h = h
  item_keys-HasValues (c ∷ columns) keys all h = elim (Bool-cases (is_star c)) [
    | inl p ↦ rw p (item_keys-HasValues columns keys all.1 h)
    | inr p ↦ rw p (
        item_keys-HasValues columns (insert c (project_key window_keys joins c) keys) all.1
          (insert-HasValues emitted keys c (project_key window_keys joins c) h (all.0 p)))
  ]

  projection_items-IsEmitted :
      (builtins : Registry) (aggregates : List AggregateExpr) (star columns : List Text)
      (es : Expressions)
      → ((s : Text)
          → has_text ((projection_items builtins aggregates joins star window_keys columns es).0) s
            ≡ true
          → has_text emitted s ≡ true)
      → All IsEmitted columns
  unfolding projection_items
  projection_items-IsEmitted builtins aggregates star [] es sub = tt
  projection_items-IsEmitted builtins aggregates star (c ∷ columns) es sub =
      let rest =
        (projection_items builtins aggregates joins star window_keys columns (other_exprs es)).0 in
      let keys = map (project_column_key joins) star in
      let key = project_key window_keys joins c in
      let behind = projection_items-IsEmitted builtins aggregates star columns (other_exprs es) in
      elim (Bool-cases (is_star c)) [
        | inl p ↦ (λ q. absurd cc, behind (λ s h. sub s (rw p (has_text-append keys rest s h))))
        | inr p ↦ (
          λ q. sub key (rw p (has_text-first rest key)),
          behind (λ s h. sub s (rw p (has_text-append (key ∷ []) rest s h))),
        )
      ]

-- Every column that projectionKeyMap has for an item or for an alias of the query, and by which a
-- name in ORDER BY is replaced, is one that the projection of the query emits.
pub projection_key_map-emitted :
    (builtins : Registry) (aggregates : List AggregateExpr) (joins : List JoinClause)
    (star columns : List Text) (es : Expressions) (window_exprs : List WindowExpr)
    (column_aliases : Map Text) (s key : Text)
    → lookup s (projection_key_map columns joins window_exprs column_aliases) ≡ some key
    → has_text
        ((projection_items builtins aggregates joins star
          (window_key_set window_exprs)
          columns
          es).0)
        key
      ≡ true
unfolding projection_key_map
projection_key_map-emitted builtins aggregates joins star columns es window_exprs aliases =
    let window_keys = window_key_set window_exprs in
    let emitted = (projection_items builtins aggregates joins star window_keys columns es).0 in
    alias_keys-HasValues emitted aliases (item_keys window_keys joins columns []) (
      item_keys-HasValues joins window_keys emitted columns []
        (projection_items-IsEmitted joins window_keys emitted builtins aggregates star columns es
          (λ s h. h))
        (λ s key h. absurd cc))
