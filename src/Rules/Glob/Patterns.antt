-- ===== src/Rules/Glob/Patterns.antt =====
-- Two usual kinds of pattern: a plain path, and a directory with everything below it.
use Prim.Native.String.{String, ◌++◌}
use text.Mathlib.TextLemmas.{nil-append, cons-append, append-nil}
use analysis_engine_service.Prelude.{◌≡◌, refl, sym, ap, ◌∙◌, subst, ◌↔◌, true}
use analysis_engine_service.Rules.Glob.{compile, is_dot, glob_match}
use analysis_engine_service.Rules.Glob.Laws.{
  AllChars, Matches, IsPlain, compile-plain, glob_match_iff,
}

-- No character of the text is a wildcard.
abbrev pub AllPlain : String → Type 0
AllPlain String.[] = Unit
AllPlain (String.◌∷◌ c s) = IsPlain c × AllPlain s

Matches-plain :
    (p q path : String)
    → AllPlain p
    → Matches (compile (p ++ q)) path ↔ ((v : String) × (path ≡ p ++ v) × Matches (compile q) v)
Matches-plain String.[] q path h = rw nil-append (
  λ m. (path, sym (nil-append path), m),
  λ (v, e, m). subst (Matches (compile q)) (sym (e ∙ nil-append v)) m,
)
Matches-plain (String.◌∷◌ c p) q path h = rw (cons-append c p q ∙ refl) (
    rw (compile-plain c (p ++ q) h.0) (
      λ (t, rest, e, one, m).
          let (v, e', m') = (Matches-plain p q rest h.1).0 m in
          (
            v,
            e
                ∙ ap (λ x. x ++ rest) one
                ∙ one_more rest
                ∙ ap (String.◌∷◌ c) e'
                ∙ sym (cons-append c p v),
            m',
          ),
      λ (v, e, m). (
        String.◌∷◌ c "",
        p ++ v,
        e ∙ cons-append c p v ∙ sym (one_more (p ++ v)),
        refl,
        (Matches-plain p q (p ++ v) h.1).1 (v, refl, m),
      ),
    ))
  where
    one_more : (s : String) → String.◌∷◌ c "" ++ s ≡ String.◌∷◌ c s
    one_more s = cons-append c "" s ∙ ap (String.◌∷◌ c) (nil-append s)

-- A pattern without wildcards matches the path that it spells, and no other.
pub glob_match-plain : (path p : String) → AllPlain p → (glob_match path p ≡ true) ↔ (path ≡ p)
unfolding compile
glob_match-plain path p plain =
    let both = Matches-plain p "" path plain in
    (
      λ h.
          let m = (glob_match_iff path p).0 h in
          let (v, e, end) = both.0 (rw append-nil m) in e ∙ ap (λ x. p ++ x) end ∙ append-nil p,
      λ e. (glob_match_iff path p).1 (rw append-nil at (both.1 ("", e ∙ sym (append-nil p), refl))),
    )

-- `dir/**` matches the paths below `dir`, at any depth, that hold no line feed behind `dir/`.
pub glob_match-subtree :
    (path dir : String)
    → AllPlain dir
    → (glob_match path (dir ++ "/**") ≡ true)
      ↔ ((rest : String) × (path ≡ dir ++ ("/" ++ rest)) × AllChars is_dot rest)
unfolding compile
glob_match-subtree path dir plain =
    let both = Matches-plain dir "/**" path plain in
    (
      λ h.
          let (v, e, (t, rest, e', one, (u, end, e'', all, none_left))) =
            both.0 ((glob_match_iff path (dir ++ "/**")).0 h) in
          (
            u,
            e
                ∙ ap (λ x. dir ++ x)
                    (e'
                      ∙ ap (λ x. x ++ rest) one
                      ∙ ap (λ x. "/" ++ x) (e'' ∙ ap (λ x. u ++ x) none_left ∙ append-nil u)),
            all,
          ),
      λ (rest, e, all). (glob_match_iff path (dir ++ "/**")).1 (
          both.1 (
            "/" ++ rest,
            e,
            ("/", rest, refl, refl, (rest, "", sym (append-nil rest), all, refl)),
          )),
    )
