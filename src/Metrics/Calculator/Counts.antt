-- ===== src/Metrics/Calculator/Counts.antt =====
-- The tally of the findings by a key.
use analysis_engine_service.Prelude.{
  ℕ, ◌+◌, ◌≡◌, ◌≢◌, refl, sym, ap, String, Bool, true, false, ◌&&◌, Bool-cases, inl, inr, or_else,
  List, [], ◌∷◌, count, if◌then◌else◌, ◌==◌, eq_iff, All, All-Elem, Elem, arith, Dict, get, subst,
}
use analysis_engine_service.Domain.Finding.{Finding}
use analysis_engine_service.Metrics.Calculator.{Bucket, no_counts, add_finding, bump, tally}

abbrev pub bucket_at : String → Dict Bucket → Bucket
bucket_at k d = or_else (get k d) no_counts

not_here : (k j i : String) → (i == k) ≡ false → (i == j) ≡ true → (k == j) ≡ false
not_here k j i other here = ground (arith, eq_iff i k, eq_iff i j, eq_iff k j)

bucket_at-bump :
    (j k : String) (f : Finding) (d : Dict Bucket)
    → bucket_at j (bump k f d) ≡ (if k == j then add_finding f (bucket_at j d) else bucket_at j d)
unfolding bump
bucket_at-bump j k f [] = elim (Bool-cases (k == j)) [
  | inl same ↦ rw same refl
  | inr other ↦ rw other refl
]
bucket_at-bump j k f ((i, b) ∷ d) = elim (Bool-cases (i == k)) [
  | inl same ↦
      rw (same, (eq_iff i k).0 same)
        (elim (Bool-cases (k == j)) [ inl here ↦ rw here refl | inr there ↦ rw there refl ])
  | inr other ↦ rw other (elim (Bool-cases (i == j)) [
    | inl here ↦ rw (here, not_here k j i other here) refl
    | inr there ↦ rw there (bucket_at-bump j k f d)
  ])
]

-- No two entries have the same key.
abbrev pub AreDistinct : Dict Bucket → Type 0
AreDistinct [] = Unit
AreDistinct ((k, b) ∷ d) = All (λ (e : String × Bucket). e.0 ≢ k) d × AreDistinct d

All-bump :
    (j k : String) (f : Finding) (d : Dict Bucket)
    → k ≢ j
    → All (λ (e : String × Bucket). e.0 ≢ j) d
    → All (λ (e : String × Bucket). e.0 ≢ j) (bump k f d)
unfolding bump
All-bump j k f [] n h = (n, tt)
All-bump j k f ((i, b) ∷ d) n h = elim (Bool-cases (i == k)) [
  | inl same ↦ rw same h
  | inr other ↦ rw other (h.0, All-bump j k f d n h.1)
]

bump-AreDistinct :
    (k : String) (f : Finding) (d : Dict Bucket) → AreDistinct d → AreDistinct (bump k f d)
unfolding bump
bump-AreDistinct k f [] h = (tt, tt)
bump-AreDistinct k f ((i, b) ∷ d) h = elim (Bool-cases (i == k)) [
  | inl same ↦ rw same h
  | inr other ↦ rw other (
    All-bump i k f d (λ e. absurd (ground (arith, other, e, eq_iff i k))) h.0,
    bump-AreDistinct k f d h.1,
  )
]

pub tally-AreDistinct :
    (key : Finding → String) (d : Dict Bucket) (fs : List Finding)
    → AreDistinct d
    → AreDistinct (tally key d fs)
unfolding tally
tally-AreDistinct key d [] h = h
tally-AreDistinct key d (f ∷ fs) h =
    tally-AreDistinct key (bump (key f) f d) fs (bump-AreDistinct (key f) f d h)

other_key : (k j : String) → j ≢ k → (k == j) ≡ false
other_key k j h = elim (Bool-cases (k == j)) [
  | inl e ↦ absurd (h (sym ((eq_iff k j).0 e)))
  | inr e ↦ e
]

-- An entry is the one that its key gives.
pub bucket_at-Elem :
    (d : Dict Bucket) (e : String × Bucket) → AreDistinct d → Elem e d → bucket_at e.0 d ≡ e.1
bucket_at-Elem [] e h m = absurd m
bucket_at-Elem ((k, b) ∷ d) e h (inl q) =
    subst (λ (e : String × Bucket). bucket_at e.0 ((k, b) ∷ d) ≡ e.1) q
      (rw ((eq_iff k k).1 refl) refl)
bucket_at-Elem ((k, b) ∷ d) e h (inr m) =
    rw (other_key k e.0 (All-Elem (λ (e : String × Bucket). e.0 ≢ k) d e h.0 m))
      (bucket_at-Elem d e h.1 m)

-- A number of an entry that counts the findings with a property.
module _ (g : Bucket → ℕ) (p : Finding → Bool)
    (adds : (f : Finding) (b : Bucket) → g (add_finding f b) ≡ g b + (if p f then 1 else 0)) where
  tally-from :
      (key : Finding → String) (k : String) (d : Dict Bucket) (fs : List Finding)
      → g (bucket_at k (tally key d fs)) ≡ g (bucket_at k d) + count (λ f. key f == k && p f) fs
  unfolding tally
  tally-from key k d [] = omega arith
  tally-from key k d (f ∷ fs) = ground (
    arith,
    tally-from key k (bump (key f) f d) fs,
    ap g (bucket_at-bump k (key f) f d),
    adds f (bucket_at k d),
  )

  pub tally-counts :
      (key : Finding → String) (k : String) (fs : List Finding)
      → g no_counts ≡ 0
      → g (bucket_at k (tally key [] fs)) ≡ count (λ f. key f == k && p f) fs
  tally-counts key k fs z = ground (arith, tally-from key k [] fs)
