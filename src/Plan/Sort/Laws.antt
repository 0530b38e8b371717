-- ===== src/Plan/Sort/Laws.antt =====
-- What a stable sort keeps, and that the comparison of rows is asymmetric (sortRows of
-- pkg/plan/plan.go).
use gsql.Common.{
  zero, suc, Bool, true, false, Option, none, some, List, [], ◌∷◌, filter, length, ◌≡◌, refl, ap,
  ◌∙◌, inl, inr, arith, Bool-cases,
}
use gsql.Common.Int.{ℤ, pos, negsuc}
use gsql.Text.Order.{text_lt_asym, text_lt_total}
use gsql.Text.{eq_refl, Text, ◌==◌, text_lt, eq_iff, eq_of_test}
use gsql.Float.{Floats}
use gsql.Parser.Ast.{SortOrder}
use gsql.Plan.Row.{Row, project_row_value}
use gsql.Sort.{insert_sorted, stable_sort}
use gsql.Plan.Sort.{order_parsed, order_floats, order_texts, compare_numeric, by_key, sort_less}

module _ {ℓ} {A : Type ℓ} (less : A → A → Bool) where
  -- The element may stand before the list.
  abbrev pub Precedes : A → List A → Type 0
  Precedes x [] = Unit
  Precedes x (y ∷ ys) = less y x ≡ false

  -- No element is less than the one before it.
  abbrev pub IsOrdered : List A → Type 0
  IsOrdered [] = Unit
  IsOrdered (x ∷ xs) = Precedes x xs × IsOrdered xs

  insert_sorted-Precedes :
      (z x : A) (xs : List A)
      → less x z ≡ false
      → Precedes z xs
      → Precedes z (insert_sorted less x xs)
  unfolding insert_sorted
  insert_sorted-Precedes z x [] h p = h
  insert_sorted-Precedes z x (y ∷ ys) h p = elim (Bool-cases (less y x)) [
    | inl e ↦ rw e p
    | inr e ↦ rw e h
  ]

  insert_sorted-IsOrdered :
      ((a b : A) → less a b ≡ true → less b a ≡ false)
      → (x : A) (xs : List A) → IsOrdered xs
      → IsOrdered (insert_sorted less x xs)
  unfolding insert_sorted
  insert_sorted-IsOrdered asym x [] h = (tt, tt)
  insert_sorted-IsOrdered asym x (y ∷ ys) h = elim (Bool-cases (less y x)) [
    | inl e ↦
        rw e (insert_sorted-Precedes y x ys (asym y x e) h.0, insert_sorted-IsOrdered asym x ys h.1)
    | inr e ↦ rw e (e, h)
  ]

  pub stable_sort-IsOrdered :
      ((a b : A) → less a b ≡ true → less b a ≡ false)
      → (xs : List A) → IsOrdered (stable_sort less xs)
  unfolding stable_sort
  stable_sort-IsOrdered asym [] = tt
  stable_sort-IsOrdered asym (x ∷ xs) =
      insert_sorted-IsOrdered asym x _ (stable_sort-IsOrdered asym xs)

  filter-insert_sorted :
      (p : A → Bool)
      → ((a b : A) → p a ≡ true → p b ≡ true → less a b ≡ false)
      → (x : A) (xs : List A) → filter p (insert_sorted less x xs) ≡ filter p (x ∷ xs)
  unfolding insert_sorted
  filter-insert_sorted p ties x [] = refl
  filter-insert_sorted p ties x (y ∷ ys) =
      ground (arith, ties y x, filter-insert_sorted p ties x ys)

  pub filter-stable_sort :
      (p : A → Bool)
      → ((a b : A) → p a ≡ true → p b ≡ true → less a b ≡ false)
      → (xs : List A) → filter p (stable_sort less xs) ≡ filter p xs
  unfolding stable_sort
  filter-stable_sort p ties [] = refl
  filter-stable_sort p ties (x ∷ xs) =
      filter-insert_sorted p ties x (stable_sort less xs)
      ∙ ground (arith, filter-stable_sort p ties xs)

  length-insert_sorted : (x : A) (xs : List A) → length (insert_sorted less x xs) ≡ suc (length xs)
  unfolding insert_sorted
  length-insert_sorted x [] = refl
  length-insert_sorted x (y ∷ ys) = ground (arith, length-insert_sorted x ys)

  pub length-stable_sort : (xs : List A) → length (stable_sort less xs) ≡ length xs
  unfolding stable_sort
  length-stable_sort [] = refl
  length-stable_sort (x ∷ xs) =
      length-insert_sorted x (stable_sort less xs) ∙ ap suc (length-stable_sort xs)

abbrev opposite : ℤ → ℤ
opposite (pos zero) = pos zero
opposite (pos (suc n)) = negsuc n
opposite (negsuc n) = pos (suc n)

eq_sym_false : (a b : Text) → (a == b) ≡ false → (b == a) ≡ false
eq_sym_false a b h = ground (arith, eq_iff a b, eq_iff b a)

module _ (fl : Floats) where
  by_key-opposite :
      (desc : Bool) (cmp : ℤ) (rest back : Bool)
      → (rest ≡ true → back ≡ false)
      → by_key fl desc cmp rest ≡ true
      → by_key fl desc (opposite cmp) back ≡ false
  unfolding by_key
  by_key-opposite desc (pos zero) rest back later h = later h
  by_key-opposite true (pos (suc n)) rest back later h = refl
  by_key-opposite false (pos (suc n)) rest back later h = cc
  by_key-opposite true (negsuc n) rest back later h = cc
  by_key-opposite false (negsuc n) rest back later h = refl

  order_texts-opposite :
      (a b : Text) → (a == b) ≡ false → order_texts fl b a ≡ opposite (order_texts fl a b)
  order_texts-opposite a b h = elim (Bool-cases (text_lt a b)) [
    | inl e ↦ rw (e, text_lt_asym a b e) refl
    | inr e ↦ rw (e, text_lt_total a b h e) refl
  ]

  order_floats-opposite :
      ((x y : fl.Float64) → fl.lt x y ≡ true → fl.lt y x ≡ false)
      → (x y : fl.Float64) → order_floats fl y x ≡ opposite (order_floats fl x y)
  order_floats-opposite asym x y = ground (arith, asym x y)

  order_parsed-opposite :
      ((x y : fl.Float64) → fl.lt x y ≡ true → fl.lt y x ≡ false)
      → (p q : Option fl.Float64) (a b : Text) → (a == b) ≡ false
      → order_parsed fl q p b a ≡ opposite (order_parsed fl p q a b)
  order_parsed-opposite asym (some x) (some y) a b h = order_floats-opposite asym x y
  order_parsed-opposite asym (some x) none a b h = order_texts-opposite a b h
  order_parsed-opposite asym none (some y) a b h = order_texts-opposite a b h
  order_parsed-opposite asym none none a b h = order_texts-opposite a b h

  compare_numeric-opposite :
      ((x y : fl.Float64) → fl.lt x y ≡ true → fl.lt y x ≡ false)
      → (a b : Text) → compare_numeric fl b a ≡ opposite (compare_numeric fl a b)
  unfolding compare_numeric
  compare_numeric-opposite asym a b = elim (Bool-cases (a == b)) [
    | inl e ↦ rw (eq_of_test a b e, eq_refl b) refl
    | inr e ↦ rw (e, eq_sym_false a b e) (order_parsed-opposite asym _ _ a b e)
  ]

  pub sort_less_asym :
      ((x y : fl.Float64) → fl.lt x y ≡ true → fl.lt y x ≡ false)
      → (order_by : List SortOrder) (a b : Row) → sort_less fl order_by a b ≡ true
      → sort_less fl order_by b a ≡ false
  unfolding sort_less
  sort_less_asym asym [] a b h = refl
  sort_less_asym asym (o ∷ order_by) a b h =
      rw
        (compare_numeric-opposite asym (project_row_value a o.column)
          (project_row_value b o.column))
        (by_key-opposite o.desc _ _ _ (sort_less_asym asym order_by a b) h)
