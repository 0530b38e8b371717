-- ===== src/Sort.antt =====
pub mod Contract
pub mod Members
pub mod Texts
-- sort.SliceStable over a comparison that is a weak order: the elements in order, tied ones in their
-- order of the input. Contract shows that this leaves one result. For other comparisons the package
-- promises nothing, and the model has the result of an insertion sort.
use gsql.Common.{Bool, List, [], ◌∷◌, if◌then◌else◌}

module _ {ℓ} {A : Type ℓ} (less : A → A → Bool) where
  unfoldable pub insert_sorted : A → List A → List A
  insert_sorted x [] = x ∷ []
  insert_sorted x (y ∷ ys) = if less y x then y ∷ insert_sorted x ys else x ∷ y ∷ ys

  unfoldable pub stable_sort : List A → List A
  unfolding insert_sorted
  stable_sort [] = []
  stable_sort (x ∷ xs) = insert_sorted x (stable_sort xs)
