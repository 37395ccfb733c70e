-- ===== src/Prelude/Sorting.antt =====
-- Python's `sorted`, which is stable: `before x y` says that the key of `x` is strictly before that
-- of `y`. Among elements with equal keys the order of the input stays.
use Prim.Native.Nat.{suc}
use mathlib.Core.Path.{◌≡◌, refl, ap, ◌∙◌, subst}
use mathlib.Core.Bool.{Bool, true, false}
use mathlib.Core.Logic.{◌⊎◌, inl, inr}
use mathlib.Core.List.{List, [], ◌∷◌}
use native.Mathlib.Omega.{arith}
use analysis_engine_service.Prelude.Tests.{if◌then◌else◌, Bool-cases}
use analysis_engine_service.Prelude.Lists.{length, All, Elem}

module _ {ℓ} {A : Type ℓ} (before : A → A → Bool) where
  abbrev pub insert : A → List A → List A
  insert x [] = x ∷ []
  insert x (y ∷ ys) = if before y x then y ∷ insert x ys else x ∷ y ∷ ys

  abbrev pub sorted : List A → List A
  sorted [] = []
  sorted (x ∷ xs) = insert x (sorted xs)

  -- No later element is strictly before an earlier one.
  abbrev pub IsSorted : List A → Type 0
  IsSorted [] = Unit
  IsSorted (x ∷ xs) = All (λ y. before y x ≡ false) xs × IsSorted xs

  pub length-insert : (x : A) (ys : List A) → length (insert x ys) ≡ suc (length ys)
  length-insert x [] = refl
  length-insert x (y ∷ ys) = ground (arith, length-insert x ys)

  pub length-sorted : (xs : List A) → length (sorted xs) ≡ length xs
  length-sorted [] = refl
  length-sorted (x ∷ xs) = length-insert x (sorted xs) ∙ ap suc (length-sorted xs)

  pub All-insert : (P : A → Type 0) (x : A) (ys : List A) → P x → All P ys → All P (insert x ys)
  All-insert P x [] p h = (p, tt)
  All-insert P x (y ∷ ys) p h = ground (arith, All-insert P x ys p h.1)

  pub All-sorted : (P : A → Type 0) (xs : List A) → All P xs → All P (sorted xs)
  All-sorted P [] h = tt
  All-sorted P (x ∷ xs) h = All-insert P x (sorted xs) h.0 (All-sorted P xs h.1)

module _ {A : Type 0} (before : A → A → Bool) where
  pub Elem-insert_self : (x : A) (ys : List A) → Elem x (insert before x ys)
  Elem-insert_self x [] = inl refl
  Elem-insert_self x (y ∷ ys) = ground (arith, Elem-insert_self x ys)

  pub Elem-insert_of : (z x : A) (ys : List A) → Elem z ys → Elem z (insert before x ys)
  Elem-insert_of z x [] m = absurd m
  Elem-insert_of z x (y ∷ ys) m = ground (arith, Elem-insert_of z x ys)

  pub insert-Elem : (z x : A) (ys : List A) → Elem z (insert before x ys) → (x ≡ z) ⊎ Elem z ys
  insert-Elem z x [] m = ground arith
  insert-Elem z x (y ∷ ys) m = ground (arith, insert-Elem z x ys)

  pub Elem-sorted_of : (z : A) (xs : List A) → Elem z xs → Elem z (sorted before xs)
  Elem-sorted_of z (x ∷ xs) (inl e) =
      subst (λ w. Elem w (insert before x (sorted before xs))) e
        (Elem-insert_self x (sorted before xs))
  Elem-sorted_of z (x ∷ xs) (inr m) = Elem-insert_of z x (sorted before xs) (Elem-sorted_of z xs m)
  Elem-sorted_of z [] m = absurd m

  pub sorted-Elem : (z : A) (xs : List A) → Elem z (sorted before xs) → Elem z xs
  sorted-Elem z [] m = absurd m
  sorted-Elem z (x ∷ xs) m = elim (insert-Elem z x (sorted before xs) m) [
    | inl e ↦ inl e
    | inr k ↦ inr (sorted-Elem z xs k)
  ]

-- What `before` must satisfy: it is the strict part of a total preorder on the keys.
pub record IsKeyOrder {ℓ} {A : Type ℓ} (before : A → A → Bool) : Type ℓ where
  pub asym : (x y : A) → before x y ≡ true → before y x ≡ false
  pub trans : (x y z : A) → before y x ≡ false → before z y ≡ false → before z x ≡ false

module _ {ℓ} {A : Type ℓ} (before : A → A → Bool) (order : IsKeyOrder before) where
  All-trans :
      (x y : A) (ys : List A)
      → before y x ≡ false
      → All (λ z. before z y ≡ false) ys
      → All (λ z. before z x ≡ false) ys
  All-trans x y [] h k = tt
  All-trans x y (z ∷ ys) h k = (order.trans x y z h k.0, All-trans x y ys h k.1)

  insert-IsSorted :
      (x : A) (ys : List A) → IsSorted before ys → IsSorted before (insert before x ys)
  insert-IsSorted x [] h = (tt, tt)
  insert-IsSorted x (y ∷ ys) h = elim (Bool-cases (before y x)) [
    | inl e ↦ rw e (
      All-insert before (λ z. before z y ≡ false) x ys (order.asym y x e) h.0,
      insert-IsSorted x ys h.1,
    )
    | inr e ↦ rw e ((e, All-trans x y ys e h.0), h)
  ]

  -- The result of `sorted` is in order.
  pub sorted-IsSorted : (xs : List A) → IsSorted before (sorted before xs)
  sorted-IsSorted [] = tt
  sorted-IsSorted (x ∷ xs) = insert-IsSorted x (sorted before xs) (sorted-IsSorted xs)
