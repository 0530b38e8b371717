-- ===== src/Engine/Build/Grouping.antt =====
-- The check of grouped queries (validateGroupByColumns of pkg/engine/engine.go).
use gsql.Common.{
  not, true, false, ◌≡◌, refl, ap, some, List, [], ◌∷◌, ◌++◌, All, ◌↔◌, ◌⊎◌, ◌≢◌, map, filter, inl,
  inr, Bool-cases,
}
use gsql.Common.Some.{
  Some, Some-append, Some-map, Some-filter, Some-or, Some-iff, iff_trans, iff_sum,
}
use gsql.Text.{Text, bytes, ◌==◌}
use gsql.Result.{Error, not_grouped}
use gsql.Parser.Ast.{AggregateExpr, WindowExpr}
use gsql.Engine.Names.{has_text_iff}
use gsql.Engine.Columns.{strip_table_alias, window_result_key}
use gsql.Engine.Plan.{
  aggregate_name, window_key_set, has_text, valid_columns, first_invalid, is_only_star,
  validate_group_by_columns,
}

-- The name, without a table, is that of a column of GROUP BY; that of an aggregate, whose DISTINCT
-- does not count; or the key of a window with a function, with or without a table.
module _ (group_by : List Text) (aggregates : List AggregateExpr)
    (window_exprs : List WindowExpr) where
  abbrev pub IsAllowed : Text → Type 0
  IsAllowed name =
      Some (λ g. strip_table_alias g ≡ name) group_by
      ⊎ (Some
            (λ (a : AggregateExpr).
              a.func_name ++ b'(' ∷ (strip_table_alias a.column ++ bytes ")") ≡ name)
            aggregates
          ⊎ Some
              (λ (w : WindowExpr).
                (w.func_name ≢ [])
                × ((window_result_key w ≡ name) ⊎ (strip_table_alias (window_result_key w) ≡ name)))
              window_exprs)

  -- The first item that is not allowed.
  abbrev pub FirstRefused : List Text → Text → Type 0
  FirstRefused columns col =
      (before : List Text) × (after : List Text) × (columns ≡ before ++ col ∷ after)
      × All (λ c. IsAllowed (strip_table_alias c)) before
      × ¬ IsAllowed (strip_table_alias col)

has_function : (name : Text) → (not (name == []) ≡ true) ↔ (name ≢ [])
unfolding ◌==◌
has_function [] = (λ h. cc, λ h. absurd (h refl))
has_function (c ∷ name) = (λ h e. absurd cc, λ h. refl)

window_key_iff :
    (window_exprs : List WindowExpr) (P : Text → Type 0)
    → Some P (window_key_set window_exprs)
      ↔ Some (λ (w : WindowExpr). (w.func_name ≢ []) × P (window_result_key w)) window_exprs
unfolding window_key_set
window_key_iff window_exprs P =
    let is_set = λ (w : WindowExpr). not (w.func_name == []) in
    let holds : WindowExpr → Type 0 = λ w. P (window_result_key w) in
    iff_trans (Some-map P window_result_key (filter is_set window_exprs)) (
      iff_trans (Some-filter holds is_set window_exprs) (
        Some-iff (λ w. (is_set w ≡ true) × holds w) (λ w. (w.func_name ≢ []) × holds w)
          (λ w.
            let named = has_function w.func_name in
            (λ h. (named.0 h.0, h.1), λ h. (named.1 h.0, h.1)))
          window_exprs))

valid_iff :
    (group_by : List Text) (aggregates : List AggregateExpr) (window_exprs : List WindowExpr)
    (name : Text)
    → (has_text (valid_columns group_by aggregates window_exprs) name ≡ true)
      ↔ IsAllowed group_by aggregates window_exprs name
unfolding valid_columns aggregate_name
valid_iff group_by aggregates window_exprs name =
    let same : Text → Type 0 = λ n. n ≡ name in
    let keys = window_key_set window_exprs in
    let columns = map strip_table_alias group_by in
    let calls = map aggregate_name aggregates in
    let windows = keys ++ map strip_table_alias keys in
    iff_trans (has_text_iff (columns ++ (calls ++ windows)) name) (
      iff_trans (Some-append same columns (calls ++ windows)) (
        iff_sum (Some-map same strip_table_alias group_by) (
          iff_trans (Some-append same calls windows) (
            iff_sum (Some-map same aggregate_name aggregates) (
              iff_trans (Some-append same keys (map strip_table_alias keys)) (
                iff_trans
                  (iff_sum (window_key_iff window_exprs same) (
                    iff_trans (Some-map same strip_table_alias keys)
                      (window_key_iff window_exprs (λ n. strip_table_alias n ≡ name))))
                  (Some-or _ _ _
                    (λ w. (
                      λ h. elim h [ inl p ↦ (p.0, inl p.1) | inr p ↦ (p.0, inr p.1) ],
                      λ h. elim (h.1) [ inl p ↦ inl (h.0, p) | inr p ↦ inr (h.0, p) ],
                    ))
                    window_exprs)))))))

-- The same by the list of names.
abbrev IsListed : List Text → Text → Type 0
IsListed valid col = has_text valid (strip_table_alias col) ≡ true

abbrev FirstUnlisted : List Text → List Text → Text → Type 0
FirstUnlisted valid columns col =
    (before : List Text) × (after : List Text) × (columns ≡ before ++ col ∷ after)
    × All (IsListed valid) before
    × (has_text valid (strip_table_alias col) ≡ false)

refused_next :
    (valid columns : List Text) (first col : Text)
    → IsListed valid first
    → FirstUnlisted valid columns col
    → FirstUnlisted valid (first ∷ columns) col
refused_next valid columns first col allowed (before, after, split, all, refused) =
    (first ∷ before, after, ap (λ cs. first ∷ cs) split, (allowed, all), refused)

refused_of :
    (valid columns : List Text) (e : Error)
    → first_invalid valid columns ≡ some e
    → (col : Text) × FirstUnlisted valid columns col × (e ≡ not_grouped (strip_table_alias col))
unfolding first_invalid
refused_of valid [] e h = absurd cc
refused_of valid (c ∷ columns) e h = elim (Bool-cases (has_text valid (strip_table_alias c))) [
  | inl p ↦
      let (col, refused, made) = refused_of valid columns e (cc (h, p)) in
      (col, refused_next valid columns c col p refused, made)
  | inr p ↦ (c, ([], columns, refl, tt, p), cc (h, p))
]

first_invalid-append :
    (valid before after : List Text) (col : Text)
    → All (IsListed valid) before
    → has_text valid (strip_table_alias col) ≡ false
    → first_invalid valid (before ++ col ∷ after) ≡ some (not_grouped (strip_table_alias col))
unfolding first_invalid
first_invalid-append valid [] after col all refused = rw refused refl
first_invalid-append valid (b ∷ before) after col all refused =
    rw (all.0) (first_invalid-append valid before after col (all.1) refused)

All-iff {ℓ} :
    {A : Type ℓ} (P Q : A → Type 0) → ((x : A) → P x ↔ Q x) → (xs : List A) → All P xs ↔ All Q xs
All-iff P Q each [] = (λ h. tt, λ h. tt)
All-iff P Q each (x ∷ xs) =
    let later = All-iff P Q each xs in
    (λ h. ((each x).0 h.0, later.0 h.1), λ h. ((each x).1 h.0, later.1 h.1))

-- A grouped query whose items are not just a star is refused exactly when one of them is not allowed:
-- without its table it is the name of no column of GROUP BY and of no aggregate, written without
-- DISTINCT, and the key of no window with a function. The error names the first such item.
pub validate_group_by_columns_iff :
    (columns : List Text) (g : Text) (group_by : List Text) (aggregates : List AggregateExpr)
    (window_exprs : List WindowExpr) (e : Error)
    → is_only_star columns ≡ false
    → (validate_group_by_columns columns (g ∷ group_by) aggregates window_exprs ≡ some e) ↔ (
        (col : Text) × FirstRefused (g ∷ group_by) aggregates window_exprs columns col
        × (e ≡ not_grouped (strip_table_alias col)))
unfolding validate_group_by_columns
validate_group_by_columns_iff columns g group_by aggregates window_exprs e several =
    let valid = valid_columns (g ∷ group_by) aggregates window_exprs in
    let each : (c : Text)
        → IsListed valid c
          ↔ IsAllowed (g ∷ group_by) aggregates window_exprs (strip_table_alias c) =
      λ c. valid_iff (g ∷ group_by) aggregates window_exprs (strip_table_alias c) in
    let all = All-iff _ _ each in
    (
      λ h.
          let (col, (before, after, split, listed, unlisted), made) =
            refused_of valid columns e (cc (h, several)) in
          (
            col,
            (
              before,
              after,
              split,
              (all before).0 listed,
              λ allowed. absurd (cc ((each col).1 allowed, unlisted)),
            ),
            made,
          ),
      λ (col, (before, after, split, allowed, refused), made).
          let unlisted : has_text valid (strip_table_alias col) ≡ false =
            elim (Bool-cases (has_text valid (strip_table_alias col))) [
              | inl p ↦ absurd (refused ((each col).0 p))
              | inr p ↦ p
            ] in
          rw (several, split, made)
            (first_invalid-append valid before after col ((all before).1 allowed) unlisted),
    )
