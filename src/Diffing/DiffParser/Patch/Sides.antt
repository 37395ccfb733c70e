-- ===== src/Diffing/DiffParser/Patch/Sides.antt =====
-- The header lines of a file in a patch: its kind and its two sides.
use Prim.Native.Char.{Char, code}
use analysis_engine_service.Prelude.{
  ℕ, ◌<◌, ◌≡◌, ◌≢◌, refl, ap, ◌∙◌, String, true, false, Bool-cases, inl, inr, Option, none, some,
  List, [], ◌∷◌, ◌++◌, append-nil, eqb, any, ◌==◌, eq_iff, arith, ltb, ltb→lt, &&-true, length,
  Dict, put,
}
use analysis_engine_service.Prelude.Text.{all_chars}
use analysis_engine_service.Prelude.Raises.{ok}
use analysis_engine_service.Prelude.Bytes.{Bytes, bytes}
use analysis_engine_service.Domain.ChangeSet.{added, deleted, renamed}
use analysis_engine_service.Diffing.DiffParser.Quoting.{strip_prefix, unquote}
use analysis_engine_service.Diffing.DiffParser.Quoting.RoundTrip.{name, AreBytes, unquote-name}
use analysis_engine_service.Diffing.DiffParser.Patch.{
  PatchFile, new_file, has_text, or_old, header_of, set_plus, on_header, on_line, step, read_lines,
}
use analysis_engine_service.Diffing.DiffParser.Patch.Print.{
  Kind, edit, create, delete, rename, kind_lines, side, old_side, new_side,
}
use analysis_engine_service.Diffing.DiffParser.Patch.Reading.{within}

-- `bytes.decode("utf-8", errors="replace")`: an ASCII byte is decoded to its character, and the
-- bytes behind it do not depend on it.
pub record Utf8 : Type 0 where
  pub decode : Bytes → String
  pub decode-nil : decode [] ≡ ""
  pub decode-ascii :
      (c : Char) (s : Bytes) → code c < 128 → decode (code c ∷ s) ≡ String.◌∷◌ c (decode s)

abbrev pub prepend : String → String → String
prepend String.[] s = s
prepend (String.◌∷◌ c t) s = String.◌∷◌ c (prepend t s)

abbrev first_code : String → ℕ
first_code String.[] = 0
first_code (String.◌∷◌ c s) = code c

not_null : (c : Char) (s : String) → code c ≢ 47 → (String.◌∷◌ c s == "/dev/null") ≡ false
not_null c s h = elim (Bool-cases (String.◌∷◌ c s == "/dev/null")) [
  | inl e ↦ absurd (h (ap first_code ((eq_iff (String.◌∷◌ c s) "/dev/null").0 e)))
  | inr e ↦ e
]

strip_prefix-a : (s : String) → strip_prefix (prepend "a/" s) "a/" ≡ some s
unfolding strip_prefix
strip_prefix-a s =
    rw (strip_prefix, not_null "a" (String.◌∷◌ "/" s) (λ e. absurd (omega arith))) refl

strip_prefix-b : (s : String) → strip_prefix (prepend "b/" s) "b/" ≡ some s
unfolding strip_prefix
strip_prefix-b s =
    rw (strip_prefix, not_null "b" (String.◌∷◌ "/" s) (λ e. absurd (omega arith))) refl

-- The file that the kind's lines describe.
module _ (U : Utf8) where
  open U use {decode, decode-nil, decode-ascii}

  abbrev pub titled : Bytes → Kind → PatchFile
  titled path edit = new_file
  titled path (create mode) = record new_file { status = added }
  titled path (delete mode) = record new_file { status = deleted }
  titled path (rename similarity old) = record new_file {
    status = renamed;
    old_path = some (decode old);
    path = some (decode path);
  }

  abbrev pub titled_files : Bytes → Kind → ℕ → Dict ℕ → Dict ℕ
  titled_files path edit n files = files
  titled_files path (create mode) n files = files
  titled_files path (delete mode) n files = files
  titled_files path (rename similarity old) n files = put (decode path) n files

  -- A rename's old path holds bytes.
  abbrev pub IsKind : Kind → Type 0
  IsKind edit = Unit
  IsKind (create mode) = Unit
  IsKind (delete mode) = Unit
  IsKind (rename similarity old) = AreBytes old

  pub read_lines-kind :
      (finished : List PatchFile) (files : Dict ℕ) (path : Bytes) (kind : Kind)
      → AreBytes path
      → IsKind kind
      → read_lines decode (within finished new_file none false files) (kind_lines path kind)
        ≡ ok (
            within finished
              (titled path kind)
              none
              false
              (titled_files path kind (length finished) files))
  unfolding read_lines kind_lines step on_line header_of on_header
  read_lines-kind finished files path edit w k = refl
  read_lines-kind finished files path (create mode) w k = refl
  read_lines-kind finished files path (delete mode) w k = refl
  read_lines-kind finished files path (rename similarity old) w k =
      rw ((unquote-name decode old k).0, (unquote-name decode path w).0) refl

  decode-bytes :
      (t : String) (s : Bytes)
      → all_chars (λ c. ltb c 128) t ≡ true
      → decode (bytes t ++ s) ≡ prepend t (decode s)
  decode-bytes String.[] s h = refl
  decode-bytes (String.◌∷◌ c t) s h =
      decode-ascii c (bytes t ++ s) (ltb→lt (code c) 128 (&&-true _ _ h).0)
      ∙ ap (String.◌∷◌ c) (decode-bytes t s (&&-true _ _ h).1)

  unquote-null : unquote decode (bytes "/dev/null") ≡ ok "/dev/null"
  unfolding unquote
  unquote-null = ap ok (decode-bytes "/dev/null" [] refl ∙ ap (prepend "/dev/null") decode-nil)

  unquote-side :
      (prefix : String) (path : Bytes)
      → all_chars (λ c. ltb c 128) prefix ≡ true
      → AreBytes (bytes prefix ++ path)
      → unquote decode (side (bytes prefix) path) ≡ ok (prepend prefix (decode path))
  unquote-side prefix path h w = elim (Bool-cases (any (eqb 32) path)) [
    | inl spaced ↦
        rw spaced ((unquote-name decode (bytes prefix ++ path) w).1)
        ∙ ap ok (decode-bytes prefix path h)
    | inr plain ↦
        rw (plain, append-nil (name (bytes prefix ++ path)))
          ((unquote-name decode (bytes prefix ++ path) w).0)
        ∙ ap ok (decode-bytes prefix path h)
  ]

  pub step-minus :
      (finished : List PatchFile) (file : PatchFile) (files : Dict ℕ) (n : Bytes) (old : String)
      (m : Option String)
      → unquote decode n ≡ ok old
      → strip_prefix old "a/" ≡ m
      → step decode (within finished file none false files) (bytes "--- " ++ n)
        ≡ ok (within finished file m false files)
  unfolding step on_line header_of on_header
  step-minus finished file files n old m h k = rw (h, k) refl

  set_plus-named :
      (finished : List PatchFile) (file : PatchFile) (minus : Option String) (files : Dict ℕ)
      (new p : String)
      → or_old (strip_prefix new "b/") minus ≡ some p
      → has_text (some p) ≡ true
      → set_plus new file (within finished file minus false files)
        ≡ within finished
            (record file { path = some p })
            minus
            false
            (put p (length finished) files)
  unfolding set_plus
  set_plus-named finished file minus files new p h t = rw (set_plus, h, t) refl

  pub step-plus :
      (finished : List PatchFile) (file : PatchFile) (minus : Option String) (files : Dict ℕ)
      (n : Bytes) (new p : String)
      → unquote decode n ≡ ok new
      → or_old (strip_prefix new "b/") minus ≡ some p
      → has_text (some p) ≡ true
      → step decode (within finished file minus false files) (bytes "+++ " ++ n)
        ≡ ok (
            within finished
              (record file { path = some p })
              minus
              false
              (put p (length finished) files))
  unfolding step on_line header_of on_header
  step-plus finished file minus files n new p e h t =
      rw e (ap ok (set_plus-named finished file minus files new p h t))

  -- The path of the old side.
  abbrev pub old_path_of : Bytes → Kind → Option String
  old_path_of path edit = some (decode path)
  old_path_of path (create mode) = none
  old_path_of path (delete mode) = some (decode path)
  old_path_of path (rename similarity old) = some (decode old)

  pub old_side-unquoted :
      (path : Bytes) (kind : Kind)
      → AreBytes path
      → IsKind kind
      → (old : String) × (unquote decode (old_side path kind) ≡ ok old)
        × (strip_prefix old "a/" ≡ old_path_of path kind)
  old_side-unquoted path edit w k =
      (_, unquote-side "a/" path refl (omega arith, (omega arith, w)), strip_prefix-a (decode path))
  old_side-unquoted path (create mode) w k =
      ("/dev/null", unquote-null, unfold strip_prefix in refl)
  old_side-unquoted path (delete mode) w k =
      (_, unquote-side "a/" path refl (omega arith, (omega arith, w)), strip_prefix-a (decode path))
  old_side-unquoted path (rename similarity old) w k =
      (_, unquote-side "a/" old refl (omega arith, (omega arith, k)), strip_prefix-a (decode old))

  pub new_side-unquoted :
      (path : Bytes) (kind : Kind)
      → AreBytes path
      → (new : String) × (unquote decode (new_side path kind) ≡ ok new)
        × (or_old (strip_prefix new "b/") (old_path_of path kind) ≡ some (decode path))
  new_side-unquoted path edit w = (
    _,
    unquote-side "b/" path refl (omega arith, (omega arith, w)),
    ap (λ o. or_old o (old_path_of path edit)) (strip_prefix-b (decode path)),
  )
  new_side-unquoted path (create mode) w = (
    _,
    unquote-side "b/" path refl (omega arith, (omega arith, w)),
    ap (λ o. or_old o (old_path_of path (create mode))) (strip_prefix-b (decode path)),
  )
  new_side-unquoted path (delete mode) w = ("/dev/null", unquote-null, unfold strip_prefix in refl)
  new_side-unquoted path (rename similarity old) w = (
    _,
    unquote-side "b/" path refl (omega arith, (omega arith, w)),
    ap (λ o. or_old o (old_path_of path (rename similarity old))) (strip_prefix-b (decode path)),
  )
