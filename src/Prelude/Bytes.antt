-- ===== src/Prelude/Bytes.antt =====
-- Python's `bytes`: prefixes, splitting and decimal numbers.
pub mod Decimal
use Prim.Native.Char.{code}
use Prim.Native.Nat.{ℕ, zero, suc, ◌+◌, ◌-◌, ◌*◌}
use Prim.Native.String
use Prim.Native.String.{String}
use mathlib.Core.Path.{◌≡◌, refl, ap, ◌∙◌, sym}
use mathlib.Core.Logic.{◌≢◌}
use mathlib.Core.Bool.{Bool, true, false, ◌&&◌}
use mathlib.Core.Option.{Option, none, some}
use mathlib.Core.List.{List, [], ◌∷◌, ◌++◌}
use native.Mathlib.Omega.{arith}
use analysis_engine_service.Prelude.Tests.{if◌then◌else◌, eqb, eqb_iff, leb}
use analysis_engine_service.Prelude.Lists.{All}

abbrev pub Bytes : Type 0
Bytes = List ℕ

-- A literal of ASCII characters: `b"..."`
abbrev pub bytes : String → Bytes
bytes String.[] = []
bytes (String.◌∷◌ c s) = code c ∷ bytes s

-- What follows a prefix, if it is there: `s.startswith(t)` and `s[len(t):]`
abbrev pub after : Bytes → Bytes → Option Bytes
after [] s = some s
after (d ∷ t) [] = none
after (d ∷ t) (c ∷ s) = if eqb c d then after t s else none

-- `s.split(b)` of one byte; the text after the last one counts too
abbrev pub cut_at : ℕ → Bytes → Bytes × List Bytes
cut_at b [] = ([], [])
cut_at b (c ∷ s) =
    let (first, rest) = cut_at b s in if eqb c b then ([], first ∷ rest) else (c ∷ first, rest)

unfoldable pub split : ℕ → Bytes → List Bytes
split b s = let (first, rest) = cut_at b s in first ∷ rest

-- What stands before the first `b`, and what behind it
abbrev pub cut_once : ℕ → Bytes → Option (Bytes × Bytes)
cut_once b [] = none
cut_once b (c ∷ s) =
    if eqb c b
    then some ([], s)
    else elim (cut_once b s) [ none ↦ none | some (before, behind) ↦ some (c ∷ before, behind) ]

-- `s.rstrip(b)` of one byte
unfoldable pub rstrip : ℕ → Bytes → Bytes
rstrip b [] = []
rstrip b (c ∷ s) = elim (rstrip b s) [ [] ↦ if eqb c b then [] else c ∷ [] | d ∷ r ↦ c ∷ d ∷ r ]

abbrev pub is_digit : ℕ → Bool
is_digit c = leb b'0' c && leb c b'9'

-- `\d*` and what follows, from the value so far
unfoldable pub read_digits : ℕ → Bytes → ℕ × Bytes
read_digits n [] = (n, [])
read_digits n (c ∷ s) = if is_digit c then read_digits (n * 10 + (c - b'0')) s else (n, c ∷ s)

-- `(\d+)` and what follows
unfoldable pub read_number : Bytes → Option (ℕ × Bytes)
unfolding read_digits
read_number [] = none
read_number (c ∷ s) = if is_digit c then some (read_digits (c - b'0') s) else none

infixl 5 ◌>>=◌
abbrev pub ◌>>=◌ {ℓ κ} : {A : Type ℓ} {B : Type κ} → Option A → (A → Option B) → Option B
none >>= f = none
some a >>= f = f a

-- No byte of the text is `b`.
abbrev pub Lacks : ℕ → Bytes → Type 0
Lacks b s = All (λ c. c ≢ b) s

pub after-append : (t s : Bytes) → after t (t ++ s) ≡ some s
after-append [] s = refl
after-append (d ∷ t) s = ground (arith, after-append t s)

cut_at-append : (b : ℕ) (s rest : Bytes) → Lacks b s → cut_at b (s ++ b ∷ rest) ≡ (s, split b rest)
unfolding split
cut_at-append b [] rest h = ground arith
cut_at-append b (c ∷ s) rest h = ground (arith, cut_at-append b s rest h.1)

-- Up to the first `b` is the first part.
pub split-append : (b : ℕ) (s rest : Bytes) → Lacks b s → split b (s ++ b ∷ rest) ≡ s ∷ split b rest
split-append b s rest h =
    unfold split in ap (λ (p : Bytes × List Bytes). p.0 ∷ p.1) (cut_at-append b s rest h)

cut_at-Lacks : (b : ℕ) (s : Bytes) → Lacks b s → cut_at b s ≡ (s, [])
cut_at-Lacks b [] h = refl
cut_at-Lacks b (c ∷ s) h = ground (arith, cut_at-Lacks b s h.1)

pub split-Lacks : (b : ℕ) (s : Bytes) → Lacks b s → split b s ≡ s ∷ []
unfolding split
split-Lacks b s h = ap (λ (p : Bytes × List Bytes). p.0 ∷ p.1) (cut_at-Lacks b s h)

pub cut_once-append :
    (b : ℕ) (s rest : Bytes) → Lacks b s → cut_once b (s ++ b ∷ rest) ≡ some (s, rest)
cut_once-append b [] rest h = ground arith
cut_once-append b (c ∷ s) rest h = ground (arith, cut_once-append b s rest h.1)

pub rstrip-Lacks : (b : ℕ) (s : Bytes) → Lacks b s → rstrip b s ≡ s
unfolding rstrip
rstrip-Lacks b [] h = refl
rstrip-Lacks b (c ∷ []) h = ground (arith, h.0)
rstrip-Lacks b (c ∷ d ∷ s) h = rw (rstrip-Lacks b (d ∷ s) h.1) refl

-- A last byte that is not `b` stays, and a last `b` goes.
pub rstrip-last : (b c : ℕ) (s : Bytes) → c ≢ b → rstrip b (s ++ c ∷ []) ≡ s ++ c ∷ []
unfolding rstrip
rstrip-last b c [] h = ground (arith, h)
rstrip-last b c (d ∷ []) h = ground (arith, h)
rstrip-last b c (d ∷ e ∷ s) h = rw (rstrip-last b c (e ∷ s) h) refl

pub rstrip-same : (b : ℕ) (s : Bytes) → rstrip b (s ++ b ∷ []) ≡ rstrip b s
unfolding rstrip
rstrip-same b [] = ground arith
rstrip-same b (d ∷ s) = rw (rstrip-same b s) refl
