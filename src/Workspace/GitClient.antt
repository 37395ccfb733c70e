-- ===== src/Workspace/GitClient.antt =====
-- workspace/git_client.py: the checks on a job's branch, and what a git command gives.
use Prim.Native.Char.{code}
use analysis_engine_service.Prelude.{
  ℕ, String, Bool, not, ◌||◌, ◌&&◌, List, ◌==◌, if◌then◌else◌, any, ltb, eqb,
}
use analysis_engine_service.Prelude.Text.{has_prefix, has_part, ends_with, all_chars}
use analysis_engine_service.Prelude.Bytes.{Bytes}

-- `_BRANCH_INVALID_CHARS`
abbrev pub is_invalid_char : ℕ → Bool
is_invalid_char c =
    ltb c 32
    || (eqb c 127
        || (eqb c b' '
            || (eqb c b'~'
                || (eqb c b'^'
                    || (eqb c b':'
                        || (eqb c b'?' || (eqb c b'*' || (eqb c b'[' || eqb c b'\\'))))))))

-- `validate_branch`: whether it raises no `WorkspaceSecurityError`
unfoldable pub validate_branch : String → Bool
validate_branch branch =
    not (branch == "")
    && (not (has_prefix branch "-")
        && (not (has_part branch "..")
            && (not (has_prefix branch "/" || (ends_with "/" branch || has_part branch "//"))
                && (not (ends_with "." branch || ends_with ".lock" branch)
                    && (not (has_part branch "@{" || branch == "@")
                        && all_chars (λ c. not (is_invalid_char c)) branch)))))

-- What the function gives, or an exception: `WorkspaceSecurityError`, or another one.
pub data Outcome {ℓ} (A : Type ℓ) : Type ℓ where
  done : A → Outcome A
  security_error crashed : Outcome A

infixl 5 ◌>>=◌
abbrev pub ◌>>=◌ {ℓ κ} : {A : Type ℓ} {B : Type κ} → Outcome A → (A → Outcome B) → Outcome B
done a >>= f = f a
security_error >>= f = security_error
crashed >>= f = crashed

-- A git process exits with a code and its output, takes too long, or cannot be started: then
-- `create_subprocess_exec` raises `OSError`.
pub data GitProcess : Type 0 where
  exits : ℕ → Bytes → GitProcess
  takes_too_long cannot_start : GitProcess

-- `run_git_output`, for the codes that are allowed
unfoldable pub run_git_output : List ℕ → GitProcess → Outcome (ℕ × Bytes)
run_git_output allowed takes_too_long = security_error
run_git_output allowed cannot_start = crashed
run_git_output allowed (exits code output) =
    if any (eqb code) allowed then done (code, output) else security_error
