-- ===== src/Common/Some.antt =====
-- Some element of a list has a property, and equivalences.
use mathlib.Core.Logic.{◌⊎◌, inl, inr, ◌↔◌}
use mathlib.Core.Path.{◌≡◌, refl}
use mathlib.Core.Bool.{Bool, true}
use mathlib.Core.List.{List, [], ◌∷◌, ◌++◌, map}
use gsql.Common.Lists.{filter}
use gsql.Common.Tests.{Bool-cases}

-- Some element of the list has the property.
abbrev pub Some {ℓ} : {A : Type ℓ} → (A → Type 0) → List A → Type 0
Some P [] = ⊥
Some P (x ∷ xs) = P x ⊎ Some P xs

pub Some-append {ℓ} :
    {A : Type ℓ} (P : A → Type 0) (xs ys : List A) → Some P (xs ++ ys) ↔ (Some P xs ⊎ Some P ys)
Some-append P [] ys = (λ h. inr h, λ h. elim h [ inl e ↦ absurd e | inr k ↦ k ])
Some-append P (x ∷ xs) ys = (
  λ h. elim h [
    | inl p ↦ inl (inl p)
    | inr k ↦ elim ((Some-append P xs ys).0 k) [ inl p ↦ inl (inr p) | inr p ↦ inr p ]
  ],
  λ h. elim h [
    | inl p ↦ elim p [ inl q ↦ inl q | inr q ↦ inr ((Some-append P xs ys).1 (inl q)) ]
    | inr p ↦ inr ((Some-append P xs ys).1 (inr p))
  ],
)

pub Some-map {ℓ κ} :
    {A : Type ℓ} {B : Type κ} (P : B → Type 0) (f : A → B) (xs : List A)
    → Some P (map f xs) ↔ Some (λ x. P (f x)) xs
Some-map P f [] = (λ h. h, λ h. h)
Some-map P f (x ∷ xs) = (
  λ h. elim h [ inl p ↦ inl p | inr k ↦ inr ((Some-map P f xs).0 k) ],
  λ h. elim h [ inl p ↦ inl p | inr k ↦ inr ((Some-map P f xs).1 k) ],
)

pub Some-filter {ℓ} :
    {A : Type ℓ} (P : A → Type 0) (test : A → Bool) (xs : List A)
    → Some P (filter test xs) ↔ Some (λ x. (test x ≡ true) × P x) xs
Some-filter P test [] = (λ h. h, λ h. h)
Some-filter P test (x ∷ xs) = elim (Bool-cases (test x)) [
  | inl e ↦ rw e (
    λ h. elim h [ inl p ↦ inl (refl, p) | inr k ↦ inr ((Some-filter P test xs).0 k) ],
    λ h. elim h [ inl p ↦ inl p.1 | inr k ↦ inr ((Some-filter P test xs).1 k) ],
  )
  | inr e ↦ rw e (
    λ h. inr ((Some-filter P test xs).0 h),
    λ h. elim h [ inl p ↦ absurd (cc (p.0)) | inr k ↦ (Some-filter P test xs).1 k ],
  )
]

pub Some-or {ℓ} :
    {A : Type ℓ} (P Q R : A → Type 0)
    → ((x : A) → (P x ⊎ Q x) ↔ R x)
    → (xs : List A) → (Some P xs ⊎ Some Q xs) ↔ Some R xs
Some-or P Q R each [] = (λ h. elim h [ inl e ↦ e | inr e ↦ e ], λ h. inl h)
Some-or P Q R each (x ∷ xs) =
    let later = Some-or P Q R each xs in
    (
      λ h. elim h [
        | inl p ↦ elim p [ inl q ↦ inl ((each x).0 (inl q)) | inr k ↦ inr (later.0 (inl k)) ]
        | inr p ↦ elim p [ inl q ↦ inl ((each x).0 (inr q)) | inr k ↦ inr (later.0 (inr k)) ]
      ],
      λ h. elim h [
        | inl r ↦ elim ((each x).1 r) [ inl p ↦ inl (inl p) | inr q ↦ inr (inl q) ]
        | inr k ↦ elim (later.1 k) [ inl p ↦ inl (inr p) | inr q ↦ inr (inr q) ]
      ],
    )

pub iff_trans : {P Q R : Type 0} → P ↔ Q → Q ↔ R → P ↔ R
iff_trans h k = (λ p. k.0 (h.0 p), λ r. h.1 (k.1 r))

pub iff_sum : {P Q R S : Type 0} → P ↔ Q → R ↔ S → (P ⊎ R) ↔ (Q ⊎ S)
iff_sum h k = (
  λ e. elim e [ inl p ↦ inl (h.0 p) | inr r ↦ inr (k.0 r) ],
  λ e. elim e [ inl q ↦ inl (h.1 q) | inr s ↦ inr (k.1 s) ],
)

pub Some-iff {ℓ} :
    {A : Type ℓ} (P Q : A → Type 0) → ((x : A) → P x ↔ Q x) → (xs : List A) → Some P xs ↔ Some Q xs
Some-iff P Q each [] = (λ h. h, λ h. h)
Some-iff P Q each (x ∷ xs) = iff_sum (each x) (Some-iff P Q each xs)

pub Some-imp {ℓ} :
    {A : Type ℓ} (P Q : A → Type 0) → ((x : A) → P x → Q x) → (xs : List A) → Some P xs → Some Q xs
Some-imp P Q each [] h = h
Some-imp P Q each (x ∷ xs) (inl p) = inl (each x p)
Some-imp P Q each (x ∷ xs) (inr h) = inr (Some-imp P Q each xs h)

-- The element that has the property, with its place in the list.
pub Some-find :
    {A : Type 0} (P : A → Type 0) (xs : List A) → Some P xs → (x : A) × P x × Some (λ y. y ≡ x) xs
Some-find P [] h = absurd h
Some-find P (x ∷ xs) (inl p) = (x, p, inl refl)
Some-find P (x ∷ xs) (inr h) = let (y, p, place) = Some-find P xs h in (y, p, inr place)
