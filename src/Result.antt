-- ===== src/Result.antt =====
-- Go's pairs of a value and an error, with the errors of the planner and of the operators.
use gsql.Common.{ℕ}
use gsql.Text.{Text}

pub data Error : Type 0 where
  -- "table %s not found", "CTE %s not found"
  table_not_found : Text → Error
  cte_not_found : Text → Error
  -- "table scan node has no table"
  no_table : Error
  -- "table %s already exists"
  already_exists : Text → Error
  -- "column %q must appear in GROUP BY clause or be used in an aggregate function"
  not_grouped : Text → Error
  -- "target table %s does not exist", "no values provided for INSERT"
  no_target : Text → Error
  no_values : Error
  -- "column count mismatch: VALUES has %d columns, table %s has %d columns", and with the name of a
  -- column behind it "(column %s has no DEFAULT)"
  column_count : ℕ → Text → ℕ → Error
  no_default : ℕ → Text → ℕ → Text → Error
  -- an error behind a text, "IN subquery: %w"
  within : Text → Error → Error
  -- an error of a storage backend, a decoder or a database
  storage_error : Text → Error

pub data Result {ℓ} (A : Type ℓ) : Type ℓ where
  ok : A → Result A
  err : Error → Result A

infixl 5 ◌>>=◌
abbrev pub ◌>>=◌ {ℓ κ} : {A : Type ℓ} {B : Type κ} → Result A → (A → Result B) → Result B
ok a >>= f = f a
err e >>= f = err e
