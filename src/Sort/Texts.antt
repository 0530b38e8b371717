-- ===== src/Sort/Texts.antt =====
-- The order of texts, as sort.Strings and sort.SliceStable ask for.
use gsql.Common.{List, [], ◌∷◌, All}
use gsql.Text.{Text, text_lt}
use gsql.Text.Order.{text_lt_asym, text_lt_through}
use gsql.Sort.Contract.{IsWeakOrder}

abbrev pub Any : Text → Type 0
Any s = Unit

pub every-Any : (xs : List Text) → All Any xs
every-Any [] = tt
every-Any (x ∷ xs) = (tt, every-Any xs)

pub text_weak : IsWeakOrder text_lt Any
text_weak = record {
  asym = λ s t p q. text_lt_asym s t;
  through = λ s t u p q r. text_lt_through s t u;
}
