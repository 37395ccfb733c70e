-- ===== src/Rules/Glob/Laws.antt =====
-- The matcher against the meaning of each piece, and the usual patterns.
use Prim.Native.Char.{Char, code}
use Prim.Native.String.{String, ◌++◌}
use text.Mathlib.TextLemmas.{nil-append, cons-append}
use text.Mathlib.TextEquality.{Char-path}
use analysis_engine_service.Prelude.{
  ◌≡◌, refl, sym, ap, ◌∙◌, ◌↔◌, ◌⊎◌, inl, inr, Bool, true, false, not, ◌&&◌, ◌||◌, &&-true, ||-true,
  List, [], ◌∷◌, eqb, eqb_iff, arith,
}
use analysis_engine_service.Prelude.Text.{is_char}
use analysis_engine_service.Rules.Glob.{
  Piece, any_dirs, any_path, any_name, any_char, lit, is_star, compile, is_dot, is_slash, star,
  dirs, full_match, glob_match,
}

abbrev pub AllChars : (Char → Bool) → String → Type 0
AllChars p String.[] = Unit
AllChars p (String.◌∷◌ c s) = (p c ≡ true) × AllChars p s

-- What a piece matches: any directories with their slashes, any text without a line feed, any
-- text without a slash, one character but a slash, or the character itself.
abbrev pub Denotes : Piece → String → Type 0
Denotes any_dirs t = (t ≡ "") ⊎ ((u : String) × (t ≡ u ++ "/") × AllChars is_dot u)
Denotes any_path t = AllChars is_dot t
Denotes any_name t = AllChars (λ c. not (is_slash c)) t
Denotes any_char t = (c : Char) × (t ≡ String.◌∷◌ c "") × (is_slash c ≡ false)
Denotes (lit c) t = t ≡ String.◌∷◌ c ""

-- The text is a row of parts, one for each piece.
abbrev pub Matches : List Piece → String → Type 0
Matches [] s = s ≡ ""
Matches (p ∷ ps) s = (t rest : String) × (s ≡ t ++ rest) × Denotes p t × Matches ps rest

module _ (p : Char → Bool) (k : String → Bool) where
  star-split :
      (s : String)
      → star p k s ≡ true
      → (t rest : String) × (s ≡ t ++ rest) × AllChars p t × (k rest ≡ true)
  unfolding star
  star-split String.[] h = ("", "", sym (nil-append ""), tt, h)
  star-split (String.◌∷◌ c s) h = elim (||-true (k (String.◌∷◌ c s)) (p c && star p k s) h) [
    | inl e ↦ ("", String.◌∷◌ c s, sym (nil-append (String.◌∷◌ c s)), tt, e)
    | inr e ↦
        let (here, later) = &&-true (p c) (star p k s) e in
        let (t, rest, q, all, r) = star-split s later in
        (String.◌∷◌ c t, rest, ap (String.◌∷◌ c) q ∙ sym (cons-append c t rest), (here, all), r)
  ]

  star_here : (s : String) → k s ≡ true → star p k s ≡ true
  unfolding star
  star_here String.[] h = h
  star_here (String.◌∷◌ c s) h = rw h

  star_of : (t rest : String) → AllChars p t → k rest ≡ true → star p k (t ++ rest) ≡ true
  unfolding star
  star_of String.[] rest all h = rw nil-append (star_here rest h)
  star_of (String.◌∷◌ c t) rest all h = rw cons-append (ground (arith, star_of t rest all.1 h))

abbrev slash : Char
slash = "/"

slash_append : (s : String) → (String.◌∷◌ slash "") ++ s ≡ String.◌∷◌ slash s
slash_append s = cons-append slash "" s ∙ ap (String.◌∷◌ slash) (nil-append s)

eq-slash : (c : Char) → is_slash c ≡ true → c ≡ slash
eq-slash c h = Char-path c slash ((eqb_iff (code c) 47).0 h)

one_append : (c : Char) (s : String) → String.◌∷◌ c "" ++ s ≡ String.◌∷◌ c s
one_append c s = cons-append c "" s ∙ ap (String.◌∷◌ c) (nil-append s)

module _ (k : String → Bool) where
  dirs-split :
      (s : String)
      → dirs k s ≡ true
      → (u rest : String) × (s ≡ (u ++ "/") ++ rest) × AllChars is_dot u × (k rest ≡ true)
  unfolding dirs
  dirs-split String.[] h = absurd (cc)
  dirs-split (String.◌∷◌ c s) h =
      let (dot, more) = &&-true (is_dot c) ((is_slash c && k s) || dirs k s) h in
      elim (||-true (is_slash c && k s) (dirs k s) more) [
        | inl e ↦
            let (is, r) = &&-true (is_slash c) (k s) e in
            (
              "",
              s,
              ap (λ x. String.◌∷◌ x s) (eq-slash c is)
                  ∙ sym (ap (λ x. x ++ s) (nil-append "/") ∙ slash_append s),
              tt,
              r,
            )
        | inr e ↦
            let (u, rest, q, all, r) = dirs-split s e in
            (
              String.◌∷◌ c u,
              rest,
              ap (String.◌∷◌ c) q
                  ∙ sym (cons-append c (u ++ "/") rest)
                  ∙ ap (λ x. x ++ rest) (sym (cons-append c u "/")),
              (dot, all),
              r,
            )
      ]

  dirs_of :
      (u rest : String) → AllChars is_dot u → k rest ≡ true → dirs k ((u ++ "/") ++ rest) ≡ true
  unfolding dirs
  dirs_of String.[] rest all h =
      rw (ap (λ x. x ++ rest) (nil-append "/") ∙ slash_append rest) (rw h)
  dirs_of (String.◌∷◌ c u) rest all h =
      rw (ap (λ x. x ++ rest) (cons-append c u "/") ∙ cons-append c (u ++ "/") rest)
        (ground (arith, dirs_of u rest all.1 h))

full_match→Matches : (ps : List Piece) (s : String) → full_match ps s ≡ true → Matches ps s
unfolding full_match
full_match→Matches [] String.[] h = refl
full_match→Matches [] (String.◌∷◌ c s) h = absurd (cc)
full_match→Matches (any_dirs ∷ ps) s h =
    elim (||-true (full_match ps s) (dirs (full_match ps) s) h) [
      | inl e ↦ ("", s, sym (nil-append s), inl refl, full_match→Matches ps s e)
      | inr e ↦
          let (u, rest, q, all, r) = dirs-split (full_match ps) s e in
          (u ++ "/", rest, q, inr (u, refl, all), full_match→Matches ps rest r)
    ]
full_match→Matches (any_path ∷ ps) s h =
    let (t, rest, q, all, r) = star-split is_dot (full_match ps) s h in
    (t, rest, q, all, full_match→Matches ps rest r)
full_match→Matches (any_name ∷ ps) s h =
    let (t, rest, q, all, r) = star-split (λ c. not (is_slash c)) (full_match ps) s h in
    (t, rest, q, all, full_match→Matches ps rest r)
full_match→Matches (any_char ∷ ps) String.[] h = absurd (cc)
full_match→Matches (any_char ∷ ps) (String.◌∷◌ c s) h =
    let (here, later) = &&-true (not (is_slash c)) (full_match ps s) h in
    (
      String.◌∷◌ c "",
      s,
      sym (one_append c s),
      (c, refl, ground arith),
      full_match→Matches ps s later,
    )
full_match→Matches (lit d ∷ ps) String.[] h = absurd (cc)
full_match→Matches (lit d ∷ ps) (String.◌∷◌ c s) h =
    let (here, later) = &&-true (eqb (code c) (code d)) (full_match ps s) h in
    (
      String.◌∷◌ c "",
      s,
      sym (one_append c s),
      ap (λ x. String.◌∷◌ x "") (Char-path c d ((eqb_iff (code c) (code d)).0 here)),
      full_match→Matches ps s later,
    )

Matches→full_match : (ps : List Piece) (s : String) → Matches ps s → full_match ps s ≡ true
unfolding full_match
Matches→full_match [] s h = rw h
Matches→full_match (any_dirs ∷ ps) s (t, rest, q, inl empty, r) =
    rw (q ∙ ap (λ x. x ++ rest) empty ∙ nil-append rest) (rw (Matches→full_match ps rest r))
Matches→full_match (any_dirs ∷ ps) s (t, rest, q, inr (u, e, all), r) =
    rw (q ∙ ap (λ x. x ++ rest) e)
      (ground (arith, dirs_of (full_match ps) u rest all (Matches→full_match ps rest r)))
Matches→full_match (any_path ∷ ps) s (t, rest, q, all, r) =
    rw q (star_of is_dot (full_match ps) t rest all (Matches→full_match ps rest r))
Matches→full_match (any_name ∷ ps) s (t, rest, q, all, r) =
    rw q (star_of (λ c. not (is_slash c)) (full_match ps) t rest all (Matches→full_match ps rest r))
Matches→full_match (any_char ∷ ps) s (t, rest, q, (c, e, plain), r) =
    rw (q ∙ ap (λ x. x ++ rest) e ∙ one_append c rest)
      (ground (arith, Matches→full_match ps rest r))
Matches→full_match (lit d ∷ ps) s (t, rest, q, e, r) =
    rw (q ∙ ap (λ x. x ++ rest) e ∙ one_append d rest)
      (ground (arith, Matches→full_match ps rest r))

-- A path matches a pattern exactly if it is a row of parts, one for each piece of the compiled
-- pattern, each of which its piece denotes.
pub glob_match_iff :
    (path pattern : String) → (glob_match path pattern ≡ true) ↔ Matches (compile pattern) path
unfolding glob_match
glob_match_iff path pattern =
    (full_match→Matches (compile pattern) path, Matches→full_match (compile pattern) path)

-- A character that is no wildcard.
abbrev pub IsPlain : Char → Type 0
IsPlain c = (is_star c ≡ false) × (is_char b'?' c ≡ false)

pub compile-plain :
    (c : Char) (s : String) → IsPlain c → compile (String.◌∷◌ c s) ≡ lit c ∷ compile s
unfolding compile
compile-plain c String.[] h = ground arith
compile-plain c (String.◌∷◌ d String.[]) h = ground arith
compile-plain c (String.◌∷◌ d (String.◌∷◌ e s)) h = ground arith
