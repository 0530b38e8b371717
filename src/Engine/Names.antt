-- ===== src/Engine/Names.antt =====
-- Lists of names, as sets: the maps with Boolean values of pkg/engine/engine.go.
use gsql.Common.{true, ◌≡◌, refl, List, [], ◌∷◌, ◌↔◌, inl, inr, arith, Bool-cases}
use gsql.Common.Some.{Some}
use gsql.Text.{Text, ◌==◌, eq_of_test, eq_iff}
use gsql.Engine.Plan.{has_text}

-- The test against a list of names.
pub has_text_iff :
    (names : List Text) (s : Text) → (has_text names s ≡ true) ↔ Some (λ n. n ≡ s) names
unfolding has_text
has_text_iff [] s = (λ h. cc, λ h. absurd h)
has_text_iff (n ∷ names) s = elim (Bool-cases (n == s)) [
  | inl e ↦ (λ h. inl (eq_of_test n s e), λ h. rw e refl)
  | inr e ↦ (
    λ h. inr ((has_text_iff names s).0 (rw e at h)),
    λ h. elim h [
      | inl same ↦ ground (arith, eq_iff n s, e, same)
      | inr later ↦ rw e ((has_text_iff names s).1 later)
    ],
  )
]
