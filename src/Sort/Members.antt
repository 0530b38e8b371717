-- ===== src/Sort/Members.antt =====
-- Sorting keeps the elements.
use gsql.Common.{Bool, List, [], ◌∷◌, ◌↔◌, All, inl, inr, Bool-cases}
use gsql.Common.Some.{Some, iff_trans, iff_sum}
use gsql.Sort.{insert_sorted, stable_sort}

module _ {ℓ} {A : Type ℓ} (less : A → A → Bool) (P : A → Type 0) where
  Some-insert_sorted : (x : A) (xs : List A) → Some P (insert_sorted less x xs) ↔ Some P (x ∷ xs)
  unfolding insert_sorted
  Some-insert_sorted x [] = (λ h. h, λ h. h)
  Some-insert_sorted x (y ∷ ys) = elim (Bool-cases (less y x)) [
    | inl e ↦
        let later = Some-insert_sorted x ys in
        rw e (
          λ h. elim h [
            | inl p ↦ inr (inl p)
            | inr k ↦ elim (later.0 k) [ inl p ↦ inl p | inr q ↦ inr (inr q) ]
          ],
          λ h. elim h [
            | inl p ↦ inr (later.1 (inl p))
            | inr k ↦ elim k [ inl p ↦ inl p | inr q ↦ inr (later.1 (inr q)) ]
          ],
        )
    | inr e ↦ rw e (λ h. h, λ h. h)
  ]

  pub Some-stable_sort : (xs : List A) → Some P (stable_sort less xs) ↔ Some P xs
  unfolding stable_sort
  Some-stable_sort [] = (λ h. h, λ h. h)
  Some-stable_sort (x ∷ xs) =
      iff_trans (Some-insert_sorted x (stable_sort less xs))
        (iff_sum (λ h. h, λ h. h) (Some-stable_sort xs))

  pub All-insert_sorted : (x : A) (xs : List A) → P x → All P xs → All P (insert_sorted less x xs)
  unfolding insert_sorted
  All-insert_sorted x [] p ps = (p, tt)
  All-insert_sorted x (y ∷ ys) p ps = elim (Bool-cases (less y x)) [
    | inl e ↦ rw e (ps.0, All-insert_sorted x ys p ps.1)
    | inr e ↦ rw e (p, ps)
  ]

  pub All-stable_sort : (xs : List A) → All P xs → All P (stable_sort less xs)
  unfolding stable_sort
  All-stable_sort [] ps = tt
  All-stable_sort (x ∷ xs) ps =
      All-insert_sorted x (stable_sort less xs) ps.0 (All-stable_sort xs ps.1)
