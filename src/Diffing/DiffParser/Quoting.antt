-- ===== src/Diffing/DiffParser/Quoting.antt =====
-- diffing/diff_parser.py: the path names in a patch, and git's C-style quoting of them.
pub mod RoundTrip
use Prim.Native.Nat.{◌/◌, ◌%◌}
use Prim.Native.Char.{Char, code}
use analysis_engine_service.Prelude.{
  ℕ, zero, suc, ◌+◌, ◌-◌, ◌*◌, ◌≡◌, String, Bool, true, false, ◌&&◌, ◌||◌, not, Option, none, some,
  List, [], ◌∷◌, ◌++◌, if◌then◌else◌, ltb, leb, eqb, any, ◌==◌, ◌<◌,
}
use analysis_engine_service.Prelude.Raises.{Raises, ok, value_error, ◌>>=◌}
use analysis_engine_service.Prelude.Bytes.{Bytes, bytes, rstrip}

-- `text[len(prefix):]` if `text.startswith(prefix)`
abbrev pub text_after : String → String → Option String
text_after String.[] s = some s
text_after (String.◌∷◌ d t) String.[] = none
text_after (String.◌∷◌ d t) (String.◌∷◌ c s) =
    if eqb (code c) (code d) then text_after t s else none

-- `_strip_prefix`
unfoldable pub strip_prefix : String → String → Option String
strip_prefix path prefix =
    if path == "/dev/null"
    then none
    else elim (text_after prefix path) [ some rest ↦ some rest | none ↦ some path ]

-- `_QUOTED_ESCAPES.get(nxt, ord(nxt))`
unfoldable pub escaped : ℕ → ℕ
escaped c =
    if eqb c b'a'
    then 7
    else if eqb c b'b'
    then 8
    else if eqb c b't'
    then 9
    else if eqb c b'n'
    then 10
    else if eqb c b'v'
    then 11
    else if eqb c b'f'
    then 12
    else if eqb c b'r'
    then 13
    else c

abbrev pub is_octal : ℕ → Bool
is_octal c = leb b'0' c && leb c b'7'

-- `int(octal, 8)` of three digits
abbrev pub octal : ℕ → ℕ → ℕ → ℕ
octal a b c = ((a - b'0') * 8 + (b - b'0')) * 8 + (c - b'0')

-- `bytearray.append`, which takes a byte
abbrev pub append_byte : ℕ → Raises Bytes → Raises Bytes
append_byte n rest = if ltb n 256 then rest >>= (λ out. ok (n ∷ out)) else value_error

-- The loop of `_unquote` over the body. What a step appends stands before what the rest appends.
unfoldable pub unescape : Bytes → Raises Bytes
unfolding escaped
unescape [] = ok []
unescape (c ∷ []) = ok (c ∷ [])
unescape (c ∷ d ∷ []) =
    let rest = unescape (d ∷ []) in
    if eqb c b'\\' then append_byte (escaped d) (ok []) else rest >>= (λ out. ok (c ∷ out))
unescape (c ∷ d ∷ e ∷ []) =
    let rest = unescape (d ∷ e ∷ []) in
    let past = unescape (e ∷ []) in
    if eqb c b'\\' then append_byte (escaped d) past else rest >>= (λ out. ok (c ∷ out))
unescape (c ∷ d ∷ e ∷ f ∷ s) =
    let rest = unescape (d ∷ e ∷ f ∷ s) in
    let past = unescape (e ∷ f ∷ s) in
    let behind = unescape s in
    if eqb c b'\\'
    then (if is_octal d && (is_octal e && is_octal f)
        then append_byte (octal d e f) behind
        else append_byte (escaped d) past)
    else rest >>= (λ out. ok (c ∷ out))

-- `raw[1:-1]` if `raw` stands in quotes
abbrev pub before_quote : Bytes → Option Bytes
before_quote [] = none
before_quote (c ∷ []) = if eqb c b'"' then some [] else none
before_quote (c ∷ d ∷ s) = elim (before_quote (d ∷ s)) [ none ↦ none | some t ↦ some (c ∷ t) ]

abbrev pub quoted_body : Bytes → Option Bytes
quoted_body [] = none
quoted_body (c ∷ s) = if eqb c b'"' then before_quote s else none

module _ (decode : Bytes → String) where
  unfoldable pub unquote_trimmed : Bytes → Raises String
  unfolding unescape
  unquote_trimmed raw = elim (quoted_body raw) [
    | none ↦ ok (decode raw)
    | some body ↦ unescape body >>= λ out. ok (decode out)
  ]

  -- `_unquote`
  unfoldable pub unquote : Bytes → Raises String
  unfolding unquote_trimmed rstrip
  unquote raw = unquote_trimmed (rstrip b'\t' (rstrip b'\r' raw))
