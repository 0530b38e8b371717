-- ===== src/Plan/Window/Parts.antt =====
-- The partitions of a window: one for each key, in the order of their first rows.
use gsql.Common.{
  ℕ, zero, suc, false, none, some, List, [], ◌∷◌, ◌++◌, map, filter, length, get_elem?,
  filter-append, ◌≡◌, refl, sym, ap, ◌⊎◌, ap₂, subst, ◌∙◌, inl, inr, arith, if◌then◌else◌,
  Bool-cases, Option-cases, append-nil, append_assoc,
}
use gsql.Text.{Text, ◌==◌, eq_iff, eq_refl}
use gsql.Map.{lookup, lookup-insert}
use gsql.Plan.Window.Keys.{
  index_of, note_at, note_key, Distinct, map-none, index_of-snoc, note_key-Distinct,
}
use gsql.Plan.Window.{set_at, Grouping, add_to_group, group_from, partition_rows}

module _ {A : Type 0} (key : A → Text) where
  -- The items of a key, in their order.
  abbrev pub of_key : List A → Text → List A
  of_key items k = filter (λ a. key a == k) items

  -- The keys of the items in the order of their first items, after those that are known.
  abbrev pub first_keys : List Text → List A → List Text
  first_keys known [] = known
  first_keys known (a ∷ items) = first_keys (note_key (key a) known) items

  of_key-snoc :
      (items : List A) (a : A) (k : Text)
      → of_key (items ++ a ∷ []) k
        ≡ (if key a == k then of_key items k ++ a ∷ [] else of_key items k)
  of_key-snoc items a k =
      filter-append (λ b. key b == k) items (a ∷ []) ∙ elim (Bool-cases (key a == k)) [
        | inl e ↦ rw e refl
        | inr e ↦ rw e (append-nil (of_key items k))
      ]

  fresh :
      (items : List A) (a : A) (keys : List Text)
      → index_of (key a) keys ≡ none
      → map (of_key (items ++ a ∷ [])) keys ≡ map (of_key items) keys
  fresh items a [] h = refl
  fresh items a (j ∷ keys) h = elim (Bool-cases (j == key a)) [
    | inl e ↦ let found : some 0 ≡ none = sym (rw e refl) ∙ h in absurd cc
    | inr e ↦
        let gone : index_of (key a) keys ≡ none = map-none _ (sym (rw e refl) ∙ h) in
        let apart : (key a == j) ≡ false = ground (arith, eq_iff j (key a), eq_iff (key a) j) in
        ap₂ (λ g gs. g ∷ gs) (of_key-snoc items a j ∙ rw apart refl) (fresh items a keys gone)
  ]

  -- The group at the position of the key, and the groups with the item added there.
  abbrev Placed : List A → A → List Text → ℕ → Type 0
  Placed items a keys i =
      (get_elem? (map (of_key items) keys) i ≡ some (of_key items (key a)))
      × (set_at i (of_key items (key a) ++ a ∷ []) (map (of_key items) keys)
          ≡ map (of_key (items ++ a ∷ [])) keys)

  placed :
      (items : List A) (a : A) (keys : List Text) (i : ℕ)
      → Distinct keys
      → index_of (key a) keys ≡ some i
      → Placed items a keys i
  unfolding set_at
  placed items a [] i d h = absurd cc
  placed items a (j ∷ keys) i d h = elim (Bool-cases (j == key a)) [
    | inl e ↦
        let same : j ≡ key a = (eq_iff j (key a)).0 e in
        let zero_i : zero ≡ i = some_inj (sym (rw e refl) ∙ h) in
        subst (λ n. Placed items a (j ∷ keys) n) zero_i
          (
            ap (λ k. some (of_key items k)) same,
            ap₂ (λ g gs. g ∷ gs) (sym (of_key-snoc items a j ∙ rw (same, eq_refl (key a)) refl))
                (sym (fresh items a keys (subst (λ k. index_of k keys ≡ none) same d.0))),
          )
    | inr e ↦ later (placed items a keys) e (Option-cases (index_of (key a) keys))
  ]
    where
      some_inj : {m n : ℕ} → some m ≡ some n → m ≡ n
      some_inj q = cc

      later :
          ((n : ℕ) → Distinct keys → index_of (key a) keys ≡ some n → Placed items a keys n)
          → (j == key a) ≡ false
          → (index_of (key a) keys ≡ none) ⊎ ((n : ℕ) × (index_of (key a) keys ≡ some n))
          → Placed items a (j ∷ keys) i
      later ih e (inl gone) = let lost : none ≡ some i = sym (rw (e, gone) refl) ∙ h in absurd cc
      later ih e (inr (n, found)) =
          let i_is : suc n ≡ i = some_inj (sym (rw (e, found) refl) ∙ h) in
          let apart : (key a == j) ≡ false = ground (arith, eq_iff j (key a), eq_iff (key a) j) in
          let rest = ih n d.1 found in
          subst (λ m. Placed items a (j ∷ keys) m) i_is
            (rest.0, ap₂ (λ g gs. g ∷ gs) (sym (of_key-snoc items a j ∙ rw apart refl)) rest.1)

  -- What the loop has after the items: the groups of the keys, their positions, and no key is missing.
  abbrev Grouped : List A → List Text → Grouping A → Type 0
  Grouped items keys g =
      (g.0 ≡ map (of_key items) keys)
      × ((k : Text) → lookup k g.1 ≡ index_of k keys)
      × Distinct keys
      × ((k : Text) → index_of k keys ≡ none → of_key items k ≡ [])

  add-known :
      (items : List A) (a : A) (keys : List Text) (g : Grouping A) (i : ℕ)
      → index_of (key a) keys ≡ some i
      → Grouped items keys g
      → Grouped (items ++ a ∷ []) keys (add_to_group key g a)
  unfolding add_to_group
  add-known items a keys (groups, index) i e (same, at, d, missing) =
      let put = placed items a keys i d e in
      let found : lookup (key a) index ≡ some i = at (key a) ∙ e in
      rw (add_to_group, found)
        (
          rw (same, put.0) put.1,
          at,
          d,
          λ k none_k. of_key-snoc items a k ∙ rw (apart k none_k, missing k none_k) refl,
        )
    where
      apart : (k : Text) → index_of k keys ≡ none → (key a == k) ≡ false
      apart k none_k = elim (Bool-cases (key a == k)) [
        | inl same ↦
            let lost : some i ≡ none =
              sym e
              ∙ subst (λ x. index_of x keys ≡ none) (sym ((eq_iff (key a) k).0 same)) none_k in
            absurd cc
        | inr other ↦ other
      ]

  map-snoc :
      (f : Text → List A) (keys : List Text) (k : Text)
      → map f (keys ++ k ∷ []) ≡ map f keys ++ f k ∷ []
  map-snoc f [] k = refl
  map-snoc f (j ∷ keys) k = ap (λ l. f j ∷ l) (map-snoc f keys k)

  length-map : (f : Text → List A) (keys : List Text) → length (map f keys) ≡ length keys
  length-map f [] = refl
  length-map f (k ∷ keys) = ap suc (length-map f keys)

  add-new :
      (items : List A) (a : A) (keys : List Text) (g : Grouping A)
      → index_of (key a) keys ≡ none
      → Grouped items keys g
      → Grouped (items ++ a ∷ []) (keys ++ key a ∷ []) (add_to_group key g a)
  unfolding add_to_group
  add-new items a keys (groups, index) e (same, at, d, missing) =
      let lost : lookup (key a) index ≡ none = at (key a) ∙ e in
      let alone : of_key (items ++ a ∷ []) (key a) ≡ a ∷ [] =
        of_key-snoc items a (key a) ∙ rw (eq_refl (key a), missing (key a) e) refl in
      rw (add_to_group, lost)
        (
          ap₂ (λ gs g. gs ++ g ∷ []) (same ∙ sym (fresh items a keys e)) (sym alone)
              ∙ sym (map-snoc (of_key (items ++ a ∷ [])) keys (key a)),
          λ k.
              lookup-insert (key a) k (length groups) index
              ∙ rw (at k, same, length-map (of_key items) keys)
                  (sym (index_of-snoc k (key a) keys e)),
          subst (λ o. Distinct (note_at o (key a) keys)) e (note_key-Distinct (key a) keys d),
          λ k none_k. of_key-snoc items a k ∙ old k (sym (index_of-snoc k (key a) keys e) ∙ none_k),
        )
    where
      old :
          (k : Text)
          → (if key a == k then some (length keys) else index_of k keys) ≡ none
          → (if key a == k then of_key items k ++ a ∷ [] else of_key items k) ≡ []
      old k h = elim (Bool-cases (key a == k)) [
        | inl f ↦ let found : some (length keys) ≡ none = sym (rw f refl) ∙ h in absurd cc
        | inr f ↦ rw f (missing k (sym (rw f refl) ∙ h))
      ]

  group_from-Grouped :
      (items more : List A) (keys : List Text) (g : Grouping A)
      → Grouped items keys g
      → (group_from key g more).0 ≡ map (of_key (items ++ more)) (first_keys keys more)
  unfolding group_from
  group_from-Grouped items [] keys g h =
      h.0 ∙ ap (λ l. map (of_key l) keys) (sym (append-nil items))
  group_from-Grouped items (a ∷ more) keys g h =
      group_from-Grouped (items ++ a ∷ []) more (note_key (key a) keys) (add_to_group key g a)
        (elim (Option-cases (index_of (key a) keys)) [
          | inl e ↦
              subst (λ o. Grouped (items ++ a ∷ []) (note_at o (key a) keys) (add_to_group key g a))
                (sym e) (add-new items a keys g e h)
          | inr (i, e) ↦
              subst (λ o. Grouped (items ++ a ∷ []) (note_at o (key a) keys) (add_to_group key g a))
                (sym e) (add-known items a keys g i e h)
        ])
      ∙ ap (λ l. map (of_key l) (first_keys (note_key (key a) keys) more))
          (append_assoc items (a ∷ []) more)

  -- The partitions are the groups of items of one key, each in the order of the input, and they stand
  -- in the order in which their keys first occur.
  pub partition_rows-first_keys :
      (col : Text) (cols : List Text) (items : List A)
      → partition_rows (col ∷ cols) key items ≡ map (of_key items) (first_keys [] items)
  unfolding partition_rows lookup
  partition_rows-first_keys col cols items =
      group_from-Grouped [] items [] ([], []) (refl, λ k. refl, tt, λ k e. refl)
