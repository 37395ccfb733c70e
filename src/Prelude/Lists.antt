-- ===== src/Prelude/Lists.antt =====
-- Lists measured by native numbers, with Boolean tests on their elements.
use Prim.Native.Nat.{ℕ, zero, suc, ◌+◌, ◌≤◌}
use mathlib.Core.Path.{◌≡◌, refl, ap, subst}
use mathlib.Core.Logic.{◌⊎◌, inl, inr}
use mathlib.Core.Bool.{Bool, true, false, ◌&&◌, ◌||◌}
use mathlib.Core.List.{List, [], ◌∷◌, ◌++◌, map, append_assoc}
use mathlib.Core.Option.{Option, none, some}
use native.Mathlib.Omega.{arith}
use analysis_engine_service.Prelude.Tests.{if◌then◌else◌, ||-true}

module _ {ℓ} {A : Type ℓ} where
  abbrev pub length : List A → ℕ
  length [] = 0
  length (x ∷ xs) = suc (length xs)

  abbrev pub take : ℕ → List A → List A
  take zero xs = []
  take (suc n) [] = []
  take (suc n) (x ∷ xs) = x ∷ take n xs

  abbrev pub drop : ℕ → List A → List A
  drop zero xs = xs
  drop (suc n) [] = []
  drop (suc n) (x ∷ xs) = drop n xs

  -- `any(p(x) for x in xs)`
  abbrev pub any : (A → Bool) → List A → Bool
  any p [] = false
  any p (x ∷ xs) = p x || any p xs

  abbrev pub all : (A → Bool) → List A → Bool
  all p [] = true
  all p (x ∷ xs) = p x && all p xs

  -- `[x for x in xs if p(x)]`
  abbrev pub filter : (A → Bool) → List A → List A
  filter p [] = []
  filter p (x ∷ xs) = if p x then x ∷ filter p xs else filter p xs

  -- `next((x for x in xs if p(x)), None)`
  abbrev pub find? : (A → Bool) → List A → Option A
  find? p [] = none
  find? p (x ∷ xs) = if p x then some x else find? p xs

  -- `sum(1 for x in xs if p(x))`
  abbrev pub count : (A → Bool) → List A → ℕ
  count p [] = 0
  count p (x ∷ xs) = (if p x then 1 else 0) + count p xs

  abbrev pub sum_of : (A → ℕ) → List A → ℕ
  sum_of f [] = 0
  sum_of f (x ∷ xs) = f x + sum_of f xs

  pub length-append : (xs ys : List A) → length (xs ++ ys) ≡ length xs + length ys
  length-append [] ys = omega arith
  length-append (x ∷ xs) ys = omega (arith, length-append xs ys)

  pub length-take-le : (n : ℕ) (xs : List A) → length (take n xs) ≤ n
  length-take-le zero xs = omega arith
  length-take-le (suc n) [] = omega arith
  length-take-le (suc n) (x ∷ xs) = omega (arith, length-take-le n xs)

  pub length-filter-le : (p : A → Bool) (xs : List A) → length (filter p xs) ≤ length xs
  length-filter-le p [] = omega arith
  length-filter-le p (x ∷ xs) = ground (arith, length-filter-le p xs)

  -- One round of a loop that appends on a test.
  pub append-if :
      (b : Bool) (xs : List A) (x : A) (rest : List A)
      → (if b then xs ++ x ∷ [] else xs) ++ rest ≡ xs ++ (if b then x ∷ rest else rest)
  append-if true xs x rest = append_assoc xs (x ∷ []) rest
  append-if false xs x rest = refl

-- Every element satisfies `P`; some element does; `x` is an element.
module _ {ℓ} {A : Type ℓ} (P : A → Type 0) where
  abbrev pub All : List A → Type 0
  All [] = Unit
  All (x ∷ xs) = P x × All xs

  abbrev pub Any : List A → Type 0
  Any [] = ⊥
  Any (x ∷ xs) = P x ⊎ Any xs

  pub All-append : (xs ys : List A) → All xs → All ys → All (xs ++ ys)
  All-append [] ys h k = k
  All-append (x ∷ xs) ys h k = (h.0, All-append xs ys h.1 k)

  pub All-take : (n : ℕ) (xs : List A) → All xs → All (take n xs)
  All-take zero xs h = tt
  All-take (suc n) [] h = tt
  All-take (suc n) (x ∷ xs) h = (h.0, All-take n xs h.1)

  pub All-filter : (p : A → Bool) (xs : List A) → All xs → All (filter p xs)
  All-filter p [] h = tt
  All-filter p (x ∷ xs) h = ground (arith, All-filter p xs h.1)

abbrev pub Elem : {A : Type 0} → A → List A → Type 0
Elem x xs = Any (λ y. y ≡ x) xs

module _ {A : Type 0} (P : A → Type 0) where
  pub All-Elem : (xs : List A) (x : A) → All P xs → Elem x xs → P x
  All-Elem (y ∷ ys) x h (inl e) = subst P e h.0
  All-Elem (y ∷ ys) x h (inr m) = All-Elem ys x h.1 m
  All-Elem [] x h m = absurd m

  pub All-of : (xs : List A) → ((x : A) → Elem x xs → P x) → All P xs
  All-of [] h = tt
  All-of (x ∷ xs) h = (h x (inl refl), All-of xs (λ y m. h y (inr m)))

  pub Any-Elem : (xs : List A) → Any P xs → (x : A) × Elem x xs × P x
  Any-Elem (x ∷ xs) (inl p) = (x, inl refl, p)
  Any-Elem (x ∷ xs) (inr q) = let (y, m, p) = Any-Elem xs q in (y, inr m, p)
  Any-Elem [] q = absurd q

module _ {A : Type 0} where
  pub Elem-append_left : (x : A) (xs ys : List A) → Elem x xs → Elem x (xs ++ ys)
  Elem-append_left x (y ∷ xs) ys (inl e) = inl e
  Elem-append_left x (y ∷ xs) ys (inr m) = inr (Elem-append_left x xs ys m)
  Elem-append_left x [] ys m = absurd m

  pub Elem-append_right : (x : A) (xs ys : List A) → Elem x ys → Elem x (xs ++ ys)
  Elem-append_right x [] ys m = m
  Elem-append_right x (y ∷ xs) ys m = inr (Elem-append_right x xs ys m)

  pub Elem-append : (x : A) (xs ys : List A) → Elem x (xs ++ ys) → Elem x xs ⊎ Elem x ys
  Elem-append x [] ys m = inr m
  Elem-append x (y ∷ xs) ys (inl e) = inl (inl e)
  Elem-append x (y ∷ xs) ys (inr m) = elim (Elem-append x xs ys m) [
    | inl a ↦ inl (inr a)
    | inr b ↦ inr b
  ]

  pub Elem-filter :
      (p : A → Bool) (x : A) (xs : List A) → Elem x (filter p xs) → Elem x xs × (p x ≡ true)
  Elem-filter p x [] m = absurd m
  Elem-filter p x (y ∷ xs) m = ground (arith, Elem-filter p x xs)

  pub Elem-filter_of :
      (p : A → Bool) (x : A) (xs : List A) → Elem x xs → p x ≡ true → Elem x (filter p xs)
  Elem-filter_of p x [] m h = absurd m
  Elem-filter_of p x (y ∷ xs) m h = ground (arith, Elem-filter_of p x xs)

  pub Elem-any : (p : A → Bool) (x : A) (xs : List A) → Elem x xs → p x ≡ true → any p xs ≡ true
  Elem-any p x [] m h = absurd m
  Elem-any p x (y ∷ xs) m h = ground (arith, Elem-any p x xs)

  pub any-Elem : (p : A → Bool) (xs : List A) → any p xs ≡ true → (x : A) × Elem x xs × (p x ≡ true)
  any-Elem p [] h = cc
  any-Elem p (x ∷ xs) h = elim (||-true (p x) (any p xs) h) [
    | inl e ↦ (x, inl refl, e)
    | inr e ↦ let (y, m, q) = any-Elem p xs e in (y, inr m, q)
  ]

  pub find?-eq-some :
      (p : A → Bool) (xs : List A) (x : A) → find? p xs ≡ some x → Elem x xs × (p x ≡ true)
  find?-eq-some p [] x h = cc
  find?-eq-some p (y ∷ xs) x h = ground (arith, find?-eq-some p xs x)

  pub find?-eq-none : (p : A → Bool) (xs : List A) → find? p xs ≡ none → All (λ x. p x ≡ false) xs
  find?-eq-none p [] h = tt
  find?-eq-none p (y ∷ xs) h = ground (arith, find?-eq-none p xs)

  pub Elem-map : {B : Type 0} (f : A → B) (x : A) (xs : List A) → Elem x xs → Elem (f x) (map f xs)
  Elem-map f x (y ∷ xs) (inl e) = inl (ap f e)
  Elem-map f x (y ∷ xs) (inr m) = inr (Elem-map f x xs m)
  Elem-map f x [] m = absurd m

  pub map-Elem :
      {B : Type 0} (f : A → B) (b : B) (xs : List A)
      → Elem b (map f xs)
      → (x : A) × Elem x xs × (f x ≡ b)
  map-Elem f b (x ∷ xs) (inl e) = (x, inl refl, e)
  map-Elem f b (x ∷ xs) (inr m) = let (y, k, e) = map-Elem f b xs m in (y, inr k, e)
  map-Elem f b [] m = absurd m

-- Every pair of an earlier and a later element is related by `R`.
abbrev pub Pairwise {ℓ} : {A : Type ℓ} → (A → A → Type 0) → List A → Type 0
Pairwise R [] = Unit
Pairwise R (x ∷ xs) = All (R x) xs × Pairwise R xs

module _ {ℓ} {A : Type ℓ} (R : A → A → Type 0) where
  pub Pairwise-take : (n : ℕ) (xs : List A) → Pairwise R xs → Pairwise R (take n xs)
  Pairwise-take zero xs h = tt
  Pairwise-take (suc n) [] h = tt
  Pairwise-take (suc n) (x ∷ xs) h = (All-take (R x) n xs h.0, Pairwise-take n xs h.1)

module _ {ℓ} {A : Type ℓ} where
  pub length-filter : (p : A → Bool) (xs : List A) → length (filter p xs) ≡ count p xs
  length-filter p [] = refl
  length-filter p (x ∷ xs) = ground (arith, length-filter p xs)

-- Two lists of one length, related element by element.
abbrev pub Pointwise {ℓ κ} : {A : Type ℓ} {B : Type κ} → (A → B → Type 0) → List A → List B → Type 0
Pointwise R [] [] = Unit
Pointwise R (x ∷ xs) (y ∷ ys) = R x y × Pointwise R xs ys
Pointwise R _ _ = ⊥

pub Pointwise-map {ℓ κ} :
    {A : Type ℓ} {B : Type κ} (R : A → B → Type 0) (f : A → B) (xs : List A)
    → ((x : A) → R x (f x))
    → Pointwise R xs (map f xs)
Pointwise-map R f [] h = tt
Pointwise-map R f (x ∷ xs) h = (h x, Pointwise-map R f xs h)

module _ {ℓ} {A : Type ℓ} (p : A → Bool) where
  pub any-append_left : (xs ys : List A) → any p xs ≡ true → any p (xs ++ ys) ≡ true
  any-append_left [] ys h = absurd (cc)
  any-append_left (x ∷ xs) ys h = ground (arith, any-append_left xs ys)

  pub any-append_right : (xs ys : List A) → any p ys ≡ true → any p (xs ++ ys) ≡ true
  any-append_right [] ys h = h
  any-append_right (x ∷ xs) ys h = ground (arith, any-append_right xs ys)

module _ {ℓ} {A : Type ℓ} where
  pub take_all : (n : ℕ) (xs : List A) → length xs ≤ n → take n xs ≡ xs
  take_all zero [] h = refl
  take_all zero (x ∷ xs) h = absurd (omega arith)
  take_all (suc n) [] h = refl
  take_all (suc n) (x ∷ xs) h = ap (λ l. x ∷ l) (take_all n xs (omega arith))
