-- ===== src/Prelude/Bytes/Decimal.antt =====
-- Decimal numbers are read back.
use Prim.Native.Nat.{ℕ, zero, suc, ◌+◌, ◌*◌, ◌/◌, ◌%◌, ◌<◌}
use mathlib.Core.Path.{◌≡◌, refl, ap, ◌∙◌}
use mathlib.Core.Bool.{false}
use mathlib.Core.Option.{some}
use mathlib.Core.List.{[], ◌∷◌, ◌++◌, append_assoc}
use native.Mathlib.Omega.{arith}
use analysis_engine_service.Prelude.Tests.{if◌then◌else◌, ltb, Bool-cases}
use analysis_engine_service.Prelude.Lists.{All-append}
use mathlib.Core.Logic.{◌≢◌, inl, inr}
use analysis_engine_service.Prelude.Bytes.{Bytes, Lacks, is_digit, read_digits, read_number}

-- The digits of a number, as `%d` writes them; the fuel is more than enough when it exceeds it.
unfoldable pub digits : ℕ → ℕ → Bytes
digits zero n = []
digits (suc fuel) n =
    let front = digits fuel (n / 10) in
    if ltb n 10 then (48 + n) ∷ [] else front ++ (48 + n % 10) ∷ []

unfoldable pub show : ℕ → Bytes
unfolding digits
show n = digits (n + 1) n

-- The text does not begin with a digit.
abbrev pub EndsNumber : Bytes → Type 0
EndsNumber [] = Unit
EndsNumber (c ∷ s) = is_digit c ≡ false

read_digits-EndsNumber : (n : ℕ) (rest : Bytes) → EndsNumber rest → read_digits n rest ≡ (n, rest)
unfolding read_digits
read_digits-EndsNumber n [] h = refl
read_digits-EndsNumber n (c ∷ s) h = rw h

read_digits-digit :
    (n d : ℕ) (rest : Bytes)
    → d < 10
    → read_digits n ((48 + d) ∷ rest) ≡ read_digits (n * 10 + d) rest
unfolding read_digits
read_digits-digit n d rest h = ground arith

-- Reading the digits of `n` after none gives `n`.
read_number-digits :
    (fuel n : ℕ) (rest : Bytes)
    → n < fuel
    → read_number (digits fuel n ++ rest) ≡ some (read_digits n rest)
unfolding digits read_number
read_number-digits zero n rest h = absurd (omega arith)
read_number-digits (suc fuel) n rest h = elim (Bool-cases (ltb n 10)) [
  | inl one ↦ rw one (ground arith)
  | inr more ↦
      rw (more, append_assoc)
        (read_number-digits fuel (n / 10) ((48 + n % 10) ∷ rest) (ground arith)
          ∙ ap some (read_digits-digit (n / 10) (n % 10) rest (omega arith))
          ∙ ap (λ k. some (read_digits k rest)) (omega arith))
]

pub read_number-show :
    (n : ℕ) (rest : Bytes) → EndsNumber rest → read_number (show n ++ rest) ≡ some (n, rest)
unfolding show
read_number-show n rest h =
    read_number-digits (n + 1) n rest (omega arith) ∙ ap some (read_digits-EndsNumber n rest h)

digits-Lacks : (fuel n b : ℕ) → b < 48 → Lacks b (digits fuel n)
unfolding digits
digits-Lacks zero n b h = tt
digits-Lacks (suc fuel) n b h = elim (Bool-cases (ltb n 10)) [
  | inl one ↦ rw one ((λ e. absurd (omega arith)), tt)
  | inr more ↦ rw more (
      All-append (λ c. c ≢ b) (digits fuel (n / 10)) ((48 + n % 10) ∷ [])
        (digits-Lacks fuel (n / 10) b h) ((λ e. absurd (omega arith)), tt))
]

-- A number is written without the characters below the digits.
pub show-Lacks : (n b : ℕ) → b < 48 → Lacks b (show n)
unfolding show
show-Lacks n b h = digits-Lacks (n + 1) n b h
