-- ===== src/Text/Order.antt =====
-- The order of texts is total and strict.
use gsql.Common.{true, false, ◌≡◌, refl, [], ◌∷◌, arith}
use gsql.Text.{Text, ◌==◌, text_lt}

pub text_lt_asym : (s t : Text) → text_lt s t ≡ true → text_lt t s ≡ false
unfolding text_lt
text_lt_asym [] [] h = cc
text_lt_asym [] (y ∷ t) h = refl
text_lt_asym (x ∷ s) [] h = cc
text_lt_asym (x ∷ s) (y ∷ t) h = ground (arith, text_lt_asym s t)

pub text_lt_total : (s t : Text) → (s == t) ≡ false → text_lt s t ≡ false → text_lt t s ≡ true
unfolding text_lt ◌==◌
text_lt_total [] [] e h = cc
text_lt_total [] (y ∷ t) e h = cc
text_lt_total (x ∷ s) [] e h = refl
text_lt_total (x ∷ s) (y ∷ t) e h = ground (arith, text_lt_total s t)

-- What is not less than a text that is not less than a third one is not less than it.
pub text_lt_through :
    (s t u : Text) → text_lt s t ≡ false → text_lt t u ≡ false → text_lt s u ≡ false
unfolding text_lt
text_lt_through s t [] h k = refl
text_lt_through [] [] (z ∷ u) h k = cc
text_lt_through [] (y ∷ t) (z ∷ u) h k = cc
text_lt_through (x ∷ s) [] (z ∷ u) h k = cc
text_lt_through (x ∷ s) (y ∷ t) (z ∷ u) h k = ground (arith, text_lt_through s t u)

pub text_lt_self : (s : Text) → text_lt s s ≡ false
unfolding text_lt
text_lt_self [] = refl
text_lt_self (x ∷ s) = ground (arith, text_lt_self s)
