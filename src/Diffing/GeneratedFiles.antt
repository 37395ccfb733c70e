-- ===== src/Diffing/GeneratedFiles.antt =====
-- diffing/generated_files.py: the files that nobody reviews line by line.
use analysis_engine_service.Prelude.{
  String, Bool, true, not, ◌||◌, List, [], ◌∷◌, ◌==◌, if◌then◌else◌, any, filter,
}
use analysis_engine_service.Prelude.Text.{is_char, ends_with}

abbrev pub lockfiles : List String
lockfiles =
    "package-lock.json" ∷ "npm-shrinkwrap.json" ∷ "yarn.lock" ∷ "pnpm-lock.yaml" ∷ "bun.lockb"
    ∷ "poetry.lock" ∷ "Pipfile.lock" ∷ "uv.lock" ∷ "Cargo.lock" ∷ "composer.lock" ∷ "Gemfile.lock"
    ∷ "go.sum" ∷ []

abbrev pub generated_dirs : List String
generated_dirs =
    "node_modules" ∷ "dist" ∷ "build" ∷ "coverage" ∷ ".next" ∷ "out" ∷ "vendor" ∷ "__pycache__"
    ∷ ".venv" ∷ "venv" ∷ []

abbrev pub generated_suffixes : List String
generated_suffixes = ".min.js" ∷ ".min.css" ∷ ".map" ∷ ".pyc" ∷ ".snap" ∷ []

-- `path.split("/")`
abbrev pub cut_slash : String → String × List String
cut_slash String.[] = ("", [])
cut_slash (String.◌∷◌ c s) =
    let (first, rest) = cut_slash s in
    if is_char b'/' c then ("", first ∷ rest) else (String.◌∷◌ c first, rest)

-- The parts of a `PurePosixPath`, without its root: empty parts and dots are left out.
unfoldable pub path_parts : String → List String
path_parts path =
    let (first, rest) = cut_slash path in filter (λ p. not (p == "" || p == ".")) (first ∷ rest)

-- `parts[:-1]` and `name`, which is empty without parts
abbrev pub dirs_and_name : List String → List String × String
dirs_and_name [] = ([], "")
dirs_and_name (p ∷ ps) =
    let (dirs, name) = dirs_and_name ps in elim ps [ [] ↦ ([], p) | _ ∷ _ ↦ (p ∷ dirs, name) ]

abbrev pub is_one_of : List String → String → Bool
is_one_of names s = any (λ n. n == s) names

unfoldable pub is_generated : String → Bool
unfolding path_parts
is_generated path =
    let (dirs, name) = dirs_and_name (path_parts path) in
    if is_one_of lockfiles name
    then true
    else if any (is_one_of generated_dirs) dirs
    then true
    else any (λ suffix. ends_with suffix name) generated_suffixes
