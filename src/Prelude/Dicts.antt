-- ===== src/Prelude/Dicts.antt =====
-- Python's `dict` with text keys, as an association list in insertion order.
use Prim.Native.String.{String}
use mathlib.Core.Path.{◌≡◌, refl, sym, ap, ◌∙◌}
use mathlib.Core.Logic.{◌⊎◌}
use mathlib.Core.Option.{Option, none, some}
use mathlib.Core.List.{List, [], ◌∷◌, ◌++◌, append-nil}
use native.Mathlib.Omega.{arith}
use text.Mathlib.Text.{◌==◌}
use text.Mathlib.TextEquality.{eq_iff}
use analysis_engine_service.Prelude.Tests.{if◌then◌else◌, or_else}
use analysis_engine_service.Prelude.Lists.{filter, append-if, Elem}

abbrev pub Dict {ℓ} : Type ℓ → Type ℓ
Dict V = List (String × V)

module _ {ℓ} {V : Type ℓ} where
  -- `d.get(k)`
  abbrev pub get : String → Dict V → Option V
  get k [] = none
  get k ((j, v) ∷ d) = if j == k then some v else get k d

  -- `d[k] = v`: a key that is there keeps its place
  abbrev pub put : String → V → Dict V → Dict V
  put k v [] = (k, v) ∷ []
  put k v ((j, w) ∷ d) = if j == k then (j, v) ∷ d else (j, w) ∷ put k v d

  -- `d.setdefault(k, v)`
  abbrev pub setdefault : String → V → Dict V → Dict V
  setdefault k v [] = (k, v) ∷ []
  setdefault k v ((j, w) ∷ d) = if j == k then (j, w) ∷ d else (j, w) ∷ setdefault k v d

  -- `list(d.values())`
  abbrev pub values : Dict V → List V
  values [] = []
  values ((j, v) ∷ d) = v ∷ values d

  pub get-put :
      (k j : String) (v : V) (d : Dict V) → get j (put k v d) ≡ (if k == j then some v else get j d)
  get-put k j v [] = refl
  get-put k j v ((i, w) ∷ d) = ground (arith, eq_iff k j, eq_iff i k, eq_iff i j, get-put k j v d)

  pub get-setdefault :
      (k j : String) (v : V) (d : Dict V)
      → get j (setdefault k v d) ≡ (if k == j then some (or_else (get k d) v) else get j d)
  get-setdefault k j v [] = refl
  get-setdefault k j v ((i, w) ∷ d) =
      ground (arith, eq_iff k j, eq_iff i k, eq_iff i j, get-setdefault k j v d)

  pub get-put_self : (k : String) (v : V) (d : Dict V) → get k (put k v d) ≡ some v
  get-put_self k v d = ground (arith, get-put k k v d, eq_iff k k)

-- A `dict` of lists: `d.setdefault(k, []).append(v)`, and `d.get(k, [])`.
module _ {ℓ} {V : Type ℓ} where
  abbrev pub push : String → V → Dict (List V) → Dict (List V)
  push k v [] = (k, v ∷ []) ∷ []
  push k v ((j, vs) ∷ d) = if j == k then (j, vs ++ v ∷ []) ∷ d else (j, vs) ∷ push k v d

  abbrev pub bucket : String → Dict (List V) → List V
  bucket k d = or_else (get k d) []

  pub bucket-push :
      (k j : String) (v : V) (d : Dict (List V))
      → bucket j (push k v d) ≡ (if k == j then bucket j d ++ v ∷ [] else bucket j d)
  bucket-push k j v [] = ground (arith, eq_iff k j)
  bucket-push k j v ((i, w) ∷ d) =
      ground (arith, eq_iff k j, eq_iff i k, eq_iff i j, bucket-push k j v d)

  -- A loop that files each element under its key.
  abbrev pub push_all : (V → String) → Dict (List V) → List V → Dict (List V)
  push_all key d [] = d
  push_all key d (x ∷ xs) = push_all key (push (key x) x d) xs

  -- A bucket holds the elements with its key, in the order of the list.
  pub bucket-push_all :
      (key : V → String) (k : String) (d : Dict (List V)) (xs : List V)
      → bucket k (push_all key d xs) ≡ bucket k d ++ filter (λ x. key x == k) xs
  bucket-push_all key k d [] = sym (append-nil (bucket k d))
  bucket-push_all key k d (x ∷ xs) =
      bucket-push_all key k (push (key x) x d) xs
      ∙ ap (λ b. b ++ filter (λ y. key y == k) xs) (bucket-push (key x) k x d)
      ∙ append-if (key x == k) (bucket k d) x (filter (λ y. key y == k) xs)

module _ {V : Type 0} where
  pub Elem-values : (k : String) (d : Dict V) (s : V) → get k d ≡ some s → Elem s (values d)
  Elem-values k [] s h = cc
  Elem-values k ((j, v) ∷ d) s h = ground (arith, Elem-values k d s)

  pub values-put :
      (k : String) (v s : V) (d : Dict V)
      → Elem s (values (put k v d))
      → (v ≡ s) ⊎ Elem s (values d)
  values-put k v s [] m = ground arith
  values-put k v s ((j, w) ∷ d) m = ground (arith, values-put k v s d)

  pub values-setdefault :
      (k : String) (v s : V) (d : Dict V)
      → Elem s (values (setdefault k v d))
      → (v ≡ s) ⊎ Elem s (values d)
  values-setdefault k v s [] m = ground arith
  values-setdefault k v s ((j, w) ∷ d) m = ground (arith, values-setdefault k v s d)
