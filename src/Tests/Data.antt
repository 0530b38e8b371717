-- ===== src/Tests/Data.antt =====
-- Sample data: whole numbers in the place of floats, rows, and the nodes of a join.
use gsql.Common.{
  ℕ, ◌+◌, ◌-◌, ◌*◌, ◌/◌, Option, none, some, List, [], ◌∷◌, ltb, String, leb, eqb, all,
  if◌then◌else◌, ◌&&◌,
}
use gsql.Common.Int.{pos, pos_part}
use gsql.Text.{Text, bytes, itoa}
use gsql.Float.{Floats}
use gsql.Plan.Row.{Row}
use gsql.Plan.Join.{JoinNode}

abbrev pub digits_value : ℕ → Text → ℕ
digits_value acc [] = acc
digits_value acc (c ∷ s) = digits_value (acc * 10 + (c - b'0')) s

abbrev pub parse_digits : Text → Option ℕ
parse_digits [] = none
parse_digits (c ∷ s) =
    if all (λ d. leb b'0' d && leb d b'9') (c ∷ s) then some (digits_value 0 (c ∷ s)) else none

abbrev pub whole_numbers : Floats
whole_numbers = record {
  Float64 = ℕ;
  parse_float = parse_digits;
  format_f = itoa;
  lt = ltb;
  le = leb;
  eq = eqb;
  add = ◌+◌;
  sub = ◌-◌;
  mul = ◌*◌;
  div = ◌/◌;
  of_int = pos_part;
  to_int = pos;
}

abbrev pub user : String → String → Row
user id name = (bytes "id", bytes id) ∷ (bytes "name", bytes name) ∷ []

abbrev pub order : String → String → Row
order id amount = (bytes "id", bytes id) ∷ (bytes "amount", bytes amount) ∷ []

abbrev pub users : List Row
users = user "1" "ann" ∷ user "2" "bob" ∷ user "3" "eve" ∷ []

abbrev pub orders : List Row
orders = order "1" "10" ∷ order "1" "20" ∷ order "4" "40" ∷ []

abbrev pub join_on_id : String → JoinNode
join_on_id t = record {
  info = record {
    left_column = bytes "id";
    right_column = bytes "id";
    join_type = bytes t;
    left_prefix = bytes "u";
    right_prefix = bytes "o";
    normalize_key = none;
  };
  left_defaults = (bytes "id", bytes "0") ∷ (bytes "name", []) ∷ [];
  right_defaults = (bytes "id", bytes "0") ∷ (bytes "amount", bytes "0") ∷ [];
}
