-- ===== src/Diffing/DiffParser/Patch/Objects.antt =====
-- The `PatchFile` objects: what `files` refers to while more of them are created.
use analysis_engine_service.Prelude.{
  ℕ, ◌-◌, ◌<◌, ◌≡◌, refl, ap, ◌∙◌, String, Bool-cases, inl, inr, List, [], ◌∷◌, ◌++◌, ◌==◌, eq_iff,
  All, arith, length, Dict, put,
}
use analysis_engine_service.Diffing.DiffParser.Patch.{PatchFile, object, resolve}

-- Every number is that of an object in the list.
abbrev pub Known : ℕ → Dict ℕ → Type 0
Known n files = All (λ (e : String × ℕ). e.1 < n) files

object-append :
    (objects : List PatchFile) (file x : PatchFile) (n : ℕ)
    → n < length objects
    → object (objects ++ file ∷ []) x n ≡ object objects x n
object-append [] file x n h = absurd (omega arith)
object-append (f ∷ fs) file x n h = ground (arith, object-append fs file x (n - 1))

object-last :
    (objects : List PatchFile) (file x : PatchFile)
    → object (objects ++ file ∷ []) x (length objects) ≡ file
object-last [] file x = refl
object-last (f ∷ fs) file x = ground (arith, object-last fs file x)

object-open :
    (objects : List PatchFile) (file x : PatchFile) (n : ℕ)
    → n < length (objects ++ file ∷ [])
    → object (objects ++ file ∷ []) x n ≡ object objects file n
object-open [] file x n h = ground arith
object-open (f ∷ fs) file x n h = ground (arith, object-open fs file x (n - 1))

resolve-append :
    (objects : List PatchFile) (file x : PatchFile) (files : Dict ℕ)
    → Known (length objects) files
    → resolve (objects ++ file ∷ []) x files ≡ resolve objects x files
unfolding resolve
resolve-append objects file x [] k = refl
resolve-append objects file x ((p, n) ∷ files) k =
    ap (λ o. (p, o) ∷ resolve (objects ++ file ∷ []) x files) (object-append objects file x n k.0)
    ∙ ap (λ d. (p, object objects x n) ∷ d) (resolve-append objects file x files k.1)

-- The last object is the current one.
pub resolve-open :
    (objects : List PatchFile) (file x : PatchFile) (files : Dict ℕ)
    → Known (length (objects ++ file ∷ [])) files
    → resolve (objects ++ file ∷ []) x files ≡ resolve objects file files
unfolding resolve
resolve-open objects file x [] k = refl
resolve-open objects file x ((p, n) ∷ files) k =
    ap (λ o. (p, o) ∷ resolve (objects ++ file ∷ []) x files) (object-open objects file x n k.0)
    ∙ ap (λ d. (p, object objects file n) ∷ d) (resolve-open objects file x files k.1)

resolve-put :
    (objects : List PatchFile) (x : PatchFile) (p : String) (n : ℕ) (files : Dict ℕ)
    → resolve objects x (put p n files) ≡ put p (object objects x n) (resolve objects x files)
unfolding resolve
resolve-put objects x p n [] = refl
resolve-put objects x p n ((q, m) ∷ files) = elim (Bool-cases (q == p)) [
  | inl same ↦ rw same refl
  | inr other ↦ rw other (ap (λ d. (q, object objects x m) ∷ d) (resolve-put objects x p n files))
]

Known-put :
    (m n : ℕ) (p : String) (files : Dict ℕ) → n < m → Known m files → Known m (put p n files)
Known-put m n p [] h k = (h, tt)
Known-put m n p ((q, i) ∷ files) h k = ground (arith, Known-put m n p files)

Known-more : (m n : ℕ) (files : Dict ℕ) → m < n → Known m files → Known n files
Known-more m n [] h k = tt
Known-more m n ((q, i) ∷ files) h k = (omega arith, Known-more m n files h k.1)

pub put-put {ℓ} : {V : Type ℓ} (k : String) (v : V) (d : Dict V) → put k v (put k v d) ≡ put k v d
put-put k v [] = ground (arith, eq_iff k k)
put-put k v ((j, w) ∷ d) = elim (Bool-cases (j == k)) [
  | inl same ↦ rw (same, same) refl
  | inr other ↦ rw (other, other) (ap (λ e. (j, w) ∷ e) (put-put k v d))
]

-- `files` refers to objects of the list, and shows `d`, whatever object is created next.
pub record Shows (objects : List PatchFile) (files : Dict ℕ) (d : Dict PatchFile) : Type 0 where
  pub known : Known (length objects) files
  pub shown : (x : PatchFile) → resolve objects x files ≡ d

longer :
    (objects : List PatchFile) (file : PatchFile) → length objects < length (objects ++ file ∷ [])
longer [] file = omega arith
longer (f ∷ fs) file = ground (arith, longer fs file)

pub Shows-put :
    (objects : List PatchFile) (files : Dict ℕ) (d : Dict PatchFile) (p : String) (file : PatchFile)
    → Shows objects files d
    → Shows (objects ++ file ∷ []) (put p (length objects) files) (put p file d)
Shows-put objects files d p file s = record {
  known = Known-put (length (objects ++ file ∷ [])) (length objects) p files (longer objects file) (
      Known-more (length objects) (length (objects ++ file ∷ [])) files (longer objects file)
        s.known);
  shown = λ x.
      resolve-put (objects ++ file ∷ []) x p (length objects) files
      ∙ ap (λ o. put p o (resolve (objects ++ file ∷ []) x files)) (object-last objects file x)
      ∙ ap (put p file) (resolve-append objects file x files s.known ∙ s.shown x);
}

-- A file that is not registered.
pub Shows-skip :
    (objects : List PatchFile) (files : Dict ℕ) (d : Dict PatchFile) (file : PatchFile)
    → Shows objects files d
    → Shows (objects ++ file ∷ []) files d
Shows-skip objects files d file s = record {
  known =
      Known-more (length objects) (length (objects ++ file ∷ [])) files (longer objects file)
        s.known;
  shown = λ x. resolve-append objects file x files s.known ∙ s.shown x;
}
