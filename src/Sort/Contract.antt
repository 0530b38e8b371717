-- ===== src/Sort/Contract.antt =====
-- What sort.SliceStable documents: the elements in order, and those that are tied in their order of
-- the input. This determines the result for an order of the kind that it asks for.
use gsql.Common.{
  Bool, true, false, not, ◌&&◌, ◌≡◌, refl, sym, ap₂, ◌∙◌, List, [], ◌∷◌, filter, All, ◌↔◌, subst,
  inl, inr, Bool-cases, arith,
}
use gsql.Sort.{insert_sorted, stable_sort}
use gsql.Sort.Members.{All-insert_sorted}

module _ {ℓ} {A : Type ℓ} (less : A → A → Bool) where
  -- Neither is less.
  unfoldable pub tied : A → A → Bool
  tied a b = not (less a b) && not (less b a)

  -- No element is less than one before it.
  abbrev pub IsSorted : List A → Type 0
  IsSorted [] = Unit
  IsSorted (x ∷ xs) = All (λ y. less y x ≡ false) xs × IsSorted xs

  module _ (P : A → Type 0) where
    -- An order of the elements with the property, as SliceStable asks for.
    pub record IsWeakOrder : Type ℓ where
      pub asym : (a b : A) → P a → P b → less a b ≡ true → less b a ≡ false
      pub through :
          (a b c : A) → P a → P b → P c → less a b ≡ false → less b c ≡ false → less a c ≡ false

    -- Elements with the property, in order, and each class of tied ones as in the input.
    abbrev pub IsStableSort : List A → List A → Type ℓ
    IsStableSort input sorted =
        All P sorted
        × IsSorted sorted
        × ((r : A) → P r → filter (tied r) sorted ≡ filter (tied r) input)

    module _ (weak : IsWeakOrder) where
      -- The test of what stands behind an element.
      insert_sorted-behind :
          (z x : A) (xs : List A)
          → less x z ≡ false
          → All (λ y. less y z ≡ false) xs
          → All (λ y. less y z ≡ false) (insert_sorted less x xs)
      unfolding insert_sorted
      insert_sorted-behind z x [] h hs = (h, tt)
      insert_sorted-behind z x (y ∷ ys) h hs = elim (Bool-cases (less y x)) [
        | inl e ↦ rw e (hs.0, insert_sorted-behind z x ys h hs.1)
        | inr e ↦ rw e (h, hs)
      ]

      -- What is not less than an element is not less than one before it.
      through-All :
          (x y : A) (ys : List A)
          → P x
          → P y
          → All P ys
          → less y x ≡ false
          → All (λ z. less z y ≡ false) ys
          → All (λ z. less z x ≡ false) ys
      through-All x y [] px py ps h hs = tt
      through-All x y (z ∷ ys) px py ps h hs =
          (weak.through z y x ps.0 py px hs.0 h, through-All x y ys px py ps.1 h hs.1)

      insert_sorted-IsSorted :
          (x : A) (xs : List A) → P x → All P xs → IsSorted xs → IsSorted (insert_sorted less x xs)
      unfolding insert_sorted
      insert_sorted-IsSorted x [] p ps h = (tt, tt)
      insert_sorted-IsSorted x (y ∷ ys) p ps h = elim (Bool-cases (less y x)) [
        | inl e ↦ rw e (
          insert_sorted-behind y x ys (weak.asym y x ps.0 p e) h.0,
          insert_sorted-IsSorted x ys p ps.1 h.1,
        )
        | inr e ↦ rw e ((e, through-All x y ys p ps.0 ps.1 e h.0), h)
      ]

      -- Elements that are tied to one are tied.
      tied-less :
          (r a b : A) → P r → P a → P b → tied r a ≡ true → tied r b ≡ true → less a b ≡ false
      unfolding tied
      tied-less r a b pr pa pb ta tb = weak.through a r b pa pr pb (ground arith) (ground arith)

      filter-insert_sorted :
          (r x : A) (xs : List A)
          → P r
          → P x
          → All P xs
          → filter (tied r) (insert_sorted less x xs) ≡ filter (tied r) (x ∷ xs)
      unfolding insert_sorted
      filter-insert_sorted r x [] pr p ps = refl
      filter-insert_sorted r x (y ∷ ys) pr p ps =
          ground (arith, tied-less r y x pr ps.0 p, filter-insert_sorted r x ys pr p ps.1)

      stable_sort-IsStableSort : (xs : List A) → All P xs → IsStableSort xs (stable_sort less xs)
      unfolding stable_sort
      stable_sort-IsStableSort [] ps = (tt, tt, λ r p. refl)
      stable_sort-IsStableSort (x ∷ xs) ps =
          let (all, sorted, kept) = stable_sort-IsStableSort xs ps.1 in
          (
            All-insert_sorted less P x (stable_sort less xs) ps.0 all,
            insert_sorted-IsSorted x (stable_sort less xs) ps.0 all sorted,
            λ r p.
                filter-insert_sorted r x (stable_sort less xs) p ps.0 all
                ∙ ground (arith, kept r p),
          )

      not_less_self : (x : A) → P x → less x x ≡ false
      not_less_self x p = elim (Bool-cases (less x x)) [ inl e ↦ weak.asym x x p p e | inr e ↦ e ]

      tied_self : (x : A) → P x → tied x x ≡ true
      unfolding tied
      tied_self x p = rw (not_less_self x p) refl

      -- What a filter finds has what all elements have.
      All-filter :
          (Q : A → Type 0) (p : A → Bool) (xs : List A) (z : A) (rest : List A)
          → All Q xs
          → filter p xs ≡ z ∷ rest
          → Q z
      All-filter Q p [] z rest qs h = absurd cc
      All-filter Q p (x ∷ xs) z rest qs h = elim (Bool-cases (p x)) [
        | inl e ↦ let same : x ≡ z = cc (e, h) in subst Q same qs.0
        | inr e ↦ All-filter Q p xs z rest qs.1 (rw e at h)
      ]

      filter_first : (x : A) (xs : List A) → P x → filter (tied x) (x ∷ xs) ≡ x ∷ filter (tied x) xs
      filter_first x xs p = rw (tied_self x p) refl

      -- The first element is not greater than one that stands in another list with the same classes.
      first_least :
          (x y : A) (xs ys : List A)
          → P x
          → P y
          → All (λ z. less z x ≡ false) xs
          → filter (tied y) (x ∷ xs) ≡ filter (tied y) (y ∷ ys)
          → less y x ≡ false
      first_least x y xs ys px py h same =
          All-filter (λ z. less z x ≡ false) (tied y) (x ∷ xs) y (filter (tied y) ys)
            (not_less_self x px, h) (same ∙ filter_first y ys py)

      same_rest :
          (r x : A) (xs ys : List A)
          → filter (tied r) (x ∷ xs) ≡ filter (tied r) (x ∷ ys)
          → filter (tied r) xs ≡ filter (tied r) ys
      same_rest r x xs ys h = elim (Bool-cases (tied r x)) [ inl e ↦ cc (e, h) | inr e ↦ cc (e, h) ]

      both_tied : (x y : A) → less y x ≡ false → less x y ≡ false → tied x y ≡ true
      unfolding tied
      both_tied x y lower upper = rw (lower, upper) refl

      first_same :
          (x y : A) (xs ys : List A)
          → P x
          → tied x y ≡ true
          → filter (tied x) (x ∷ xs) ≡ filter (tied x) (y ∷ ys)
          → x ≡ y
      first_same x y xs ys p t e = cc (e, tied_self x p, t)

      same_lists :
          (xs ys : List A)
          → All P xs
          → All P ys
          → IsSorted xs
          → IsSorted ys
          → ((r : A) → P r → filter (tied r) xs ≡ filter (tied r) ys)
          → xs ≡ ys
      same_lists [] [] ps qs h k same = refl
      same_lists [] (y ∷ ys) ps qs h k same = absurd (cc (same y qs.0, filter_first y ys qs.0))
      same_lists (x ∷ xs) [] ps qs h k same = absurd (cc (same x ps.0, filter_first x xs ps.0))
      same_lists (x ∷ xs) (y ∷ ys) ps qs h k same =
          let lower = first_least x y xs ys ps.0 qs.0 h.0 (same y qs.0) in
          let upper = first_least y x ys xs qs.0 ps.0 k.0 (sym (same x ps.0)) in
          let first : x ≡ y = first_same x y xs ys ps.0 (both_tied x y lower upper) (same x ps.0) in
          let rest =
            same_lists xs ys ps.1 qs.1 h.1 k.1
              (λ r p. same_rest r x xs ys (rw (← first) at (same r p))) in
          ap₂ (λ a l. a ∷ l) first rest

      -- A list is the stable sort of another exactly if it meets the contract.
      pub stable_sort_iff :
          (input sorted : List A)
          → All P input
          → IsStableSort input sorted ↔ (sorted ≡ stable_sort less input)
      stable_sort_iff input sorted ps =
          let (all, ordered, kept) = stable_sort-IsStableSort input ps in
          (
            λ (all', ordered', kept').
                same_lists sorted (stable_sort less input) all' all ordered' ordered
                  (λ r p. kept' r p ∙ sym (kept r p)),
            λ e. subst (IsStableSort input) (sym e) (all, ordered, kept),
          )
