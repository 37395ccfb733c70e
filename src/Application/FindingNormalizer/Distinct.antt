-- ===== src/Application/FindingNormalizer/Distinct.antt =====
-- What the normalizer keeps: the first finding of each fingerprint.
use Prim.Native.String.{String}
use analysis_engine_service.Prelude.{
  ◌≡◌, refl, sym, ◌∙◌, ◌≢◌, ◌==◌, eq_iff, Option, none, some, List, [], ◌∷◌, map, find?, All,
  Pairwise, Dict, get, setdefault, values, get-setdefault, arith,
}
use analysis_engine_service.Domain.Finding.{Finding}
use analysis_engine_service.Application.FindingNormalizer.{
  with_fingerprint, see_all, deduplicate, normalize,
}

-- The first finding with a fingerprint.
abbrev pub first_of : String → List Finding → Option Finding
first_of k fs = find? (λ f. f.fingerprint == k) fs

abbrev Differ : Finding → Finding → Type 0
Differ f g = f.fingerprint ≢ g.fingerprint

-- Each finding stands under its fingerprint.
abbrev IsKeyed : Dict Finding → Type 0
IsKeyed d = All (λ e. e.1.fingerprint ≡ e.0) d

abbrev or_first : Option Finding → Option Finding → Option Finding
or_first (some f) o = some f
or_first none o = o

IsKeyed-setdefault :
    (f : Finding) (d : Dict Finding) → IsKeyed d → IsKeyed (setdefault f.fingerprint f d)
IsKeyed-setdefault f [] h = (refl, tt)
IsKeyed-setdefault f ((j, g) ∷ d) h = ground (arith, IsKeyed-setdefault f d)

All-setdefault :
    (f g : Finding) (d : Dict Finding)
    → f.fingerprint ≢ g.fingerprint
    → All (Differ g) (values d)
    → All (Differ g) (values (setdefault f.fingerprint f d))
All-setdefault f g [] n h = (λ e. n (sym e), tt)
All-setdefault f g ((j, w) ∷ d) n h = ground (arith, All-setdefault f g d n)

Pairwise-setdefault :
    (f : Finding) (d : Dict Finding)
    → IsKeyed d
    → Pairwise Differ (values d)
    → Pairwise Differ (values (setdefault f.fingerprint f d))
Pairwise-setdefault f [] k h = (tt, tt)
Pairwise-setdefault f ((j, g) ∷ d) k h =
    ground (arith, eq_iff j f.fingerprint, All-setdefault f g d, Pairwise-setdefault f d)

first_of-values : (k : String) (d : Dict Finding) → IsKeyed d → first_of k (values d) ≡ get k d
first_of-values k [] h = refl
first_of-values k ((j, g) ∷ d) h = ground (arith, first_of-values k d)

get-see_all :
    (k : String) (d : Dict Finding) (fs : List Finding)
    → get k (see_all d fs) ≡ or_first (get k d) (first_of k fs)
unfolding see_all
get-see_all k d [] = ground arith
get-see_all k d (f ∷ fs) = ground (
  arith,
  get-see_all k (setdefault f.fingerprint f d) fs,
  eq_iff f.fingerprint k,
  get-setdefault f.fingerprint k f d,
)

see_all-IsKeyed :
    (d : Dict Finding) (fs : List Finding)
    → IsKeyed d
    → Pairwise Differ (values d)
    → IsKeyed (see_all d fs) × Pairwise Differ (values (see_all d fs))
unfolding see_all
see_all-IsKeyed d [] k h = (k, h)
see_all-IsKeyed d (f ∷ fs) k h =
    see_all-IsKeyed (setdefault f.fingerprint f d) fs (IsKeyed-setdefault f d k)
      (Pairwise-setdefault f d k h)

-- No two normalized findings share a fingerprint, and for every fingerprint the finding that is
-- kept is the first of those that have it.
pub normalize_lem :
    (digest : String → String) (fs : List Finding)
    → Pairwise Differ (normalize digest fs)
      × ((k : String)
          → first_of k (normalize digest fs) ≡ first_of k (map (with_fingerprint digest) fs))
unfolding normalize deduplicate
normalize_lem digest fs =
    let (k, h) = see_all-IsKeyed [] (map (with_fingerprint digest) fs) tt tt in
    (
      h,
      λ i.
          first_of-values i (see_all [] (map (with_fingerprint digest) fs)) k
          ∙ get-see_all i [] (map (with_fingerprint digest) fs),
    )
