-- ===== src/Diffing/DiffParser/Quoting/RoundTrip.antt =====
-- Path names as git writes them, with core.quotePath=false, are read back.
use Prim.Native.Nat.{◌/◌, ◌%◌}
use analysis_engine_service.Prelude.{
  ℕ, ◌&&◌, ◌+◌, ◌<◌, ◌≡◌, ◌≢◌, refl, ap, ◌∙◌, String, Bool, true, false, ◌||◌, Bool-cases, inl, inr,
  Option, none, some, is_some, [], ◌∷◌, ◌++◌, if◌then◌else◌, ltb, eqb, any, All, arith,
}
use analysis_engine_service.Prelude.Raises.{ok, ◌>>=◌}
use analysis_engine_service.Prelude.Bytes.{
  Bytes, rstrip, Lacks, rstrip-Lacks, rstrip-last, rstrip-same,
}
use analysis_engine_service.Diffing.DiffParser.Quoting.{
  escaped, is_octal, octal, append_byte, unescape, before_quote, quoted_body, unquote_trimmed,
  unquote,
}

-- The characters that have an escape of their own.
unfoldable pub letter_of : ℕ → Option ℕ
letter_of c =
    if eqb c 7
    then some b'a'
    else if eqb c 8
    then some b'b'
    else if eqb c 9
    then some b't'
    else if eqb c 10
    then some b'n'
    else if eqb c 11
    then some b'v'
    else if eqb c 12
    then some b'f'
    else if eqb c 13
    then some b'r'
    else if eqb c 34
    then some 34
    else if eqb c 92
    then some 92
    else none

abbrev pub is_control : ℕ → Bool
is_control c = ltb c 32 || eqb c 127

-- git's `quote_c_style`
unfoldable pub quote : Bytes → Bytes
unfolding letter_of
quote [] = []
quote (c ∷ s) = elim (letter_of c) [
  | some l ↦ 92 ∷ l ∷ quote s
  | none ↦
      if is_control c
      then 92 ∷ (48 + c / 64) ∷ (48 + c / 8 % 8) ∷ (48 + c % 8) ∷ quote s
      else c ∷ quote s
]

abbrev pub needs_quotes : ℕ → Bool
unfolding letter_of
needs_quotes c = is_some (letter_of c) || is_control c

unfoldable pub name : Bytes → Bytes
unfolding quote
name path = if any needs_quotes path then 34 ∷ (quote path ++ 34 ∷ []) else path

eqb-false : (a b : ℕ) → a ≢ b → eqb a b ≡ false
eqb-false a b h = ground (arith, h)

-- A character that is no backslash stands for itself.
unescape-other :
    (c : ℕ) (t : Bytes) → c ≢ 92 → unescape (c ∷ t) ≡ (unescape t >>= λ out. ok (c ∷ out))
unfolding unescape
unescape-other c [] h = refl
unescape-other c (d ∷ []) h = rw (eqb-false c 92 h) refl
unescape-other c (d ∷ f ∷ []) h = rw (eqb-false c 92 h) refl
unescape-other c (d ∷ f ∷ g ∷ t) h = rw (eqb-false c 92 h) refl

unescape-plain : (c : ℕ) (t s : Bytes) → c ≢ 92 → unescape t ≡ ok s → unescape (c ∷ t) ≡ ok (c ∷ s)
unescape-plain c t s h e = unescape-other c t h ∙ ap (λ r. r >>= λ out. ok (c ∷ out)) e

escaped-letter :
    (c l : ℕ) → letter_of c ≡ some l → (escaped l ≡ c) × (is_octal l ≡ false) × (ltb c 256 ≡ true)
unfolding letter_of escaped
escaped-letter c l h = ground arith

unescape-escape :
    (l : ℕ) (t : Bytes)
    → is_octal l ≡ false
    → unescape (92 ∷ l ∷ t) ≡ append_byte (escaped l) (unescape t)
unfolding unescape
unescape-escape l [] h = refl
unescape-escape l (d ∷ []) h = refl
unescape-escape l (d ∷ f ∷ t) h = rw h refl

unescape-letter :
    (c l : ℕ) (t s : Bytes)
    → letter_of c ≡ some l
    → unescape t ≡ ok s
    → unescape (92 ∷ l ∷ t) ≡ ok (c ∷ s)
unescape-letter c l t s h e =
    unescape-escape l t (escaped-letter c l h).1
    ∙ ap (λ b. append_byte b (unescape t)) (escaped-letter c l h).0
    ∙ ap (append_byte c) e
    ∙ rw ((escaped-letter c l h).2) refl

octal-digits :
    (c : ℕ)
    → c < 256
    → ((is_octal (48 + c / 64) && (is_octal (48 + c / 8 % 8) && is_octal (48 + c % 8))) ≡ true)
      × (octal (48 + c / 64) (48 + c / 8 % 8) (48 + c % 8) ≡ c)
octal-digits c h = (ground arith, omega arith)

unescape-octal :
    (c : ℕ) (t : Bytes)
    → c < 256
    → unescape (92 ∷ (48 + c / 64) ∷ (48 + c / 8 % 8) ∷ (48 + c % 8) ∷ t)
      ≡ append_byte c (unescape t)
unfolding unescape
unescape-octal c t h = rw ((octal-digits c h).0, (octal-digits c h).1) refl

lt→ltb : (a b : ℕ) → a < b → ltb a b ≡ true
lt→ltb a b h = ground arith

unescape-control :
    (c : ℕ) (t s : Bytes)
    → c < 256
    → unescape t ≡ ok s
    → unescape (92 ∷ (48 + c / 64) ∷ (48 + c / 8 % 8) ∷ (48 + c % 8) ∷ t) ≡ ok (c ∷ s)
unescape-control c t s h e = unescape-octal c t h ∙ ap (append_byte c) e ∙ rw (lt→ltb c 256 h) refl

abbrev pub AreBytes : Bytes → Type 0
AreBytes s = All (λ c. c < 256) s

not_backslash : (c : ℕ) → letter_of c ≡ none → c ≢ 92
unfolding letter_of
not_backslash c h = ground arith

unescape-quote_byte :
    (c : ℕ) (s : Bytes)
    → c < 256
    → unescape (quote s) ≡ ok s
    → unescape (quote (c ∷ s)) ≡ ok (c ∷ s)
unfolding quote
unescape-quote_byte c s h ih = at (letter_of c) refl
  where
    at : (o : Option ℕ) → letter_of c ≡ o → unescape (quote (c ∷ s)) ≡ ok (c ∷ s)
    at (some l) e = rw (quote, e) (unescape-letter c l (quote s) s e ih)
    at none e =
        rw (quote, e)
          (elim (Bool-cases (is_control c)) [
            | inl odd ↦ rw odd (unescape-control c (quote s) s h ih)
            | inr fine ↦ rw fine (unescape-plain c (quote s) s (not_backslash c e) ih)
          ])

unescape-quote : (s : Bytes) → AreBytes s → unescape (quote s) ≡ ok s
unescape-quote [] w = unfold unescape in unfold quote in refl
unescape-quote (c ∷ s) w = unescape-quote_byte c s w.0 (unescape-quote s w.1)

before_quote-last : (s : Bytes) → before_quote (s ++ 34 ∷ []) ≡ some s
before_quote-last [] = refl
before_quote-last (c ∷ []) = refl
before_quote-last (c ∷ d ∷ s) = rw (before_quote-last (d ∷ s)) refl

any-Lacks : (b : ℕ) (s : Bytes) → needs_quotes b ≡ true → any needs_quotes s ≡ false → Lacks b s
any-Lacks b [] n h = tt
any-Lacks b (c ∷ s) n h = ground (arith, any-Lacks b s n)

-- A name without a quote in front is taken as it is.
quoted_body-Lacks : (s : Bytes) → Lacks 34 s → quoted_body s ≡ none
quoted_body-Lacks [] h = refl
quoted_body-Lacks (c ∷ s) h = ground (arith, h.0)

module _ (decode : Bytes → String) where
  trimmed-quoted :
      (path : Bytes)
      → AreBytes path
      → unquote_trimmed decode (34 ∷ (quote path ++ 34 ∷ [])) ≡ ok (decode path)
  unfolding unquote_trimmed
  trimmed-quoted path w =
      rw (unquote_trimmed, before_quote-last (quote path), unescape-quote path w) refl

  trimmed-plain :
      (path : Bytes) → quoted_body path ≡ none → unquote_trimmed decode path ≡ ok (decode path)
  unfolding unquote_trimmed
  trimmed-plain path h = rw (unquote_trimmed, h) refl

  trimmed-name :
      (path : Bytes) → AreBytes path → unquote_trimmed decode (name path) ≡ ok (decode path)
  unfolding name
  trimmed-name path w = elim (Bool-cases (any needs_quotes path)) [
    | inl some_need ↦ rw some_need (trimmed-quoted path w)
    | inr none_needs ↦ rw none_needs (
        trimmed-plain path
          (quoted_body-Lacks path (any-Lacks 34 path (unfold letter_of in refl) none_needs)))
  ]

  rstrip-name : (b : ℕ) (path : Bytes) → b < 32 → rstrip b (name path) ≡ name path
  unfolding name
  rstrip-name b path h = elim (Bool-cases (any needs_quotes path)) [
    | inl some_need ↦ rw some_need (rstrip-last b 34 (34 ∷ quote path) (λ e. absurd (omega arith)))
    | inr none_needs ↦
        rw none_needs (rstrip-Lacks b path (any-Lacks b path (ground arith) none_needs))
  ]

  -- Any path that git writes, in quotes where it has characters to escape, is read back; also with
  -- the tab that git puts behind a path.
  pub unquote-name :
      (path : Bytes)
      → AreBytes path
      → (unquote decode (name path) ≡ ok (decode path))
        × (unquote decode (name path ++ 9 ∷ []) ≡ ok (decode path))
  unfolding unquote
  unquote-name path w = (
    rw (rstrip-name 13 path (omega arith), rstrip-name 9 path (omega arith)) (trimmed-name path w),
    rw
        (
          rstrip-last 13 9 (name path) (λ e. absurd (omega arith)),
          rstrip-same 9 (name path),
          rstrip-name 9 path (omega arith),
        )
        (trimmed-name path w),
  )
