-- ===== src/Metrics/Calculator/Statistics.antt =====
-- The statistics by rule and by file count every finding where it belongs.
use analysis_engine_service.Prelude.{
  ℕ, suc, ◌+◌, ◌≡◌, refl, sym, ap, ◌∙◌, String, Bool, true, not, ◌&&◌, List, [], ◌∷◌, map, length,
  count, sum_of, ltb, ◌==◌, All, All-of, map-Elem, Elem-map, Elem, arith, Dict, subst,
}
use analysis_engine_service.Prelude.Sorting.{
  insert, sorted, IsSorted, IsKeyOrder, All-sorted, sorted-IsSorted, length-sorted, Elem-sorted_of,
}
use analysis_engine_service.Domain.Finding.{Finding}
use analysis_engine_service.Metrics.Calculator.{
  RuleStatistic, FileStatistic, Bucket, is_error, has_rule, bump, tally, rule_statistic,
  file_statistic, calculate_rule_statistics, calculate_file_statistics,
}
use analysis_engine_service.Metrics.Calculator.Counts.{
  bucket_at, tally-AreDistinct, bucket_at-Elem, tally-counts,
}

abbrev pub has_path : String → Finding → Bool
has_path path f = f.file_path == path

pub record IsRuleStatistic (findings : List Finding) (s : RuleStatistic) : Type 0 where
  pub counted : s.count ≡ count (has_rule s.rule_id) findings
  pub errors_counted : s.errors ≡ count (λ f. has_rule s.rule_id f && is_error f) findings
  pub whole : s.count ≡ s.errors + s.warnings

pub record IsFileStatistic (findings : List Finding) (s : FileStatistic) : Type 0 where
  pub counted : s.issues ≡ count (has_path s.file_path) findings
  pub errors_counted : s.errors ≡ count (λ f. has_path s.file_path f && is_error f) findings
  pub whole : s.issues ≡ s.errors + s.warnings

count-split :
    (p q : Finding → Bool) (fs : List Finding)
    → count p fs ≡ count (λ f. p f && q f) fs + count (λ f. p f && not (q f)) fs
count-split p q [] = omega arith
count-split p q (f ∷ fs) = ground (arith, count-split p q fs)

count-all : (p : Finding → Bool) (fs : List Finding) → count (λ f. p f && true) fs ≡ count p fs
count-all p [] = refl
count-all p (f ∷ fs) = ground (arith, count-all p fs)

module _ (key : Finding → String) (k : String) (fs : List Finding) where
  errors-tally : (bucket_at k (tally key [] fs)).errors ≡ count (λ f. key f == k && is_error f) fs
  errors-tally = tally-counts (λ b. b.errors) is_error (λ f b. ground arith) key k fs refl

  warnings-tally :
      (bucket_at k (tally key [] fs)).warnings ≡ count (λ f. key f == k && not (is_error f)) fs
  warnings-tally =
      tally-counts (λ b. b.warnings) (λ f. not (is_error f)) (λ f b. ground arith) key k fs refl

  count-tally : (bucket_at k (tally key [] fs)).count ≡ count (λ f. key f == k) fs
  count-tally =
      tally-counts (λ b. b.count) (λ f. true) (λ f b. refl) key k fs refl
      ∙ count-all (λ f. key f == k) fs

rule_statistic-IsRuleStatistic :
    (findings : List Finding) (e : String × Bucket)
    → Elem e (tally (λ f. f.rule_id) [] findings)
    → IsRuleStatistic findings (rule_statistic e)
rule_statistic-IsRuleStatistic findings e m =
    subst (λ b. IsRuleStatistic findings (rule_statistic (e.0, b))) same
      (record {
        counted = count-tally (λ f. f.rule_id) e.0 findings;
        errors_counted = errors-tally (λ f. f.rule_id) e.0 findings;
        whole =
            count-tally (λ f. f.rule_id) e.0 findings
            ∙ count-split (has_rule e.0) is_error findings
            ∙ sym (
                ap2 (errors-tally (λ f. f.rule_id) e.0 findings)
                  (warnings-tally (λ f. f.rule_id) e.0 findings));
      })
  where
    same : bucket_at e.0 (tally (λ f. f.rule_id) [] findings) ≡ e.1
    same =
        bucket_at-Elem (tally (λ f. f.rule_id) [] findings) e
          (tally-AreDistinct (λ f. f.rule_id) [] findings tt) m

    ap2 : {a b c d : ℕ} → a ≡ b → c ≡ d → a + c ≡ b + d
    ap2 h k = omega arith

sum_of-insert :
    (before : RuleStatistic → RuleStatistic → Bool) (s : RuleStatistic) (ss : List RuleStatistic)
    → sum_of (λ (s : RuleStatistic). s.count) (insert before s ss)
      ≡ s.count + sum_of (λ (s : RuleStatistic). s.count) ss
sum_of-insert before s [] = refl
sum_of-insert before s (t ∷ ts) = ground (arith, sum_of-insert before s ts)

sum_of-sorted :
    (before : RuleStatistic → RuleStatistic → Bool) (ss : List RuleStatistic)
    → sum_of (λ (s : RuleStatistic). s.count) (sorted before ss)
      ≡ sum_of (λ (s : RuleStatistic). s.count) ss
sum_of-sorted before [] = refl
sum_of-sorted before (s ∷ ss) =
    ground (arith, sum_of-insert before s (sorted before ss), sum_of-sorted before ss)

abbrev total : Dict Bucket → ℕ
total d = sum_of (λ (s : RuleStatistic). s.count) (map rule_statistic d)

total-bump : (k : String) (f : Finding) (d : Dict Bucket) → total (bump k f d) ≡ suc (total d)
unfolding bump
total-bump k f [] = refl
total-bump k f ((j, b) ∷ d) = ground (arith, total-bump k f d)

total-tally :
    (key : Finding → String) (d : Dict Bucket) (fs : List Finding)
    → total (tally key d fs) ≡ total d + length fs
unfolding tally
total-tally key d [] = omega arith
total-tally key d (f ∷ fs) =
    omega (arith, total-tally key (bump (key f) f d) fs, total-bump (key f) f d)

abbrev more_findings : RuleStatistic → RuleStatistic → Bool
more_findings a b = ltb b.count a.count

more_findings-IsKeyOrder : IsKeyOrder more_findings
more_findings-IsKeyOrder = record {
  asym = λ x y h. ground arith;
  trans = λ x y z h k. ground arith;
}

all_counted : (fs : List Finding) → total (tally (λ f. f.rule_id) [] fs) ≡ length fs
all_counted fs = omega (arith, total-tally (λ f. f.rule_id) [] fs)

-- Each entry of the rule statistics counts the findings of its rule, and its errors and warnings make
-- up that number; together the entries count all findings, and a rule with more findings comes first.
pub calculate_rule_statistics_lem :
    (findings : List Finding)
    → All (IsRuleStatistic findings) (calculate_rule_statistics findings)
      × (sum_of (λ (s : RuleStatistic). s.count) (calculate_rule_statistics findings)
          ≡ length findings)
      × IsSorted (λ (a b : RuleStatistic). ltb b.count a.count) (calculate_rule_statistics findings)
unfolding calculate_rule_statistics
calculate_rule_statistics_lem findings =
    let entries : Dict Bucket = tally (λ f. f.rule_id) [] findings in
    (
      All-sorted more_findings (IsRuleStatistic findings) (map rule_statistic entries) (
          All-of (IsRuleStatistic findings) (map rule_statistic entries) (λ s m.
            let (e, m', q) = map-Elem rule_statistic s entries m in
            subst (IsRuleStatistic findings) q (rule_statistic-IsRuleStatistic findings e m'))),
      sum_of-sorted more_findings (map rule_statistic entries) ∙ all_counted findings,
      sorted-IsSorted more_findings more_findings-IsKeyOrder (map rule_statistic entries),
    )

file_statistic-IsFileStatistic :
    (findings : List Finding) (e : String × ℕ)
    → IsFileStatistic findings (file_statistic (tally (λ f. f.file_path) [] findings) e)
file_statistic-IsFileStatistic findings e = record {
  counted = omega (
    arith,
    errors-tally (λ f. f.file_path) e.0 findings,
    warnings-tally (λ f. f.file_path) e.0 findings,
    count-split (has_path e.0) is_error findings,
  );
  errors_counted = errors-tally (λ f. f.file_path) e.0 findings;
  whole = refl;
}

length-map {ℓ κ} :
    {A : Type ℓ} {B : Type κ} (f : A → B) (xs : List A) → length (map f xs) ≡ length xs
length-map f [] = refl
length-map f (x ∷ xs) = ap suc (length-map f xs)

-- The entry is about the file and its number of lines.
abbrev pub IsEntryOf : FileStatistic → String × ℕ → Type 0
IsEntryOf s file = (s.file_path ≡ file.0) × (s.loc ≡ file.1)

-- The file statistics are one entry for each analyzed file, with its path and its number of lines:
-- each of them is about a file, each file has one, and there are as many of them as files. An entry
-- counts the findings of its file, and its errors among them.
pub calculate_file_statistics_lem :
    (findings : List Finding) (file_lines : Dict ℕ)
    → All (IsFileStatistic findings) (calculate_file_statistics findings file_lines)
      × All
          (λ s. (file : String × ℕ) × Elem file file_lines × IsEntryOf s file)
          (calculate_file_statistics findings file_lines)
      × All
          (λ file.
            (s : FileStatistic) × Elem s (calculate_file_statistics findings file_lines)
            × IsEntryOf s file)
          file_lines
      × (length (calculate_file_statistics findings file_lines) ≡ length file_lines)
unfolding calculate_file_statistics
calculate_file_statistics_lem findings file_lines =
    let counts : Dict Bucket = tally (λ f. f.file_path) [] findings in
    let made = map (file_statistic counts) file_lines in
    (
      All-sorted _ (IsFileStatistic findings) made (
          All-of (IsFileStatistic findings) made (λ s m.
            let (e, m', q) = map-Elem (file_statistic counts) s file_lines m in
            subst (IsFileStatistic findings) q (file_statistic-IsFileStatistic findings e))),
      All-sorted _ (λ s. (file : String × ℕ) × Elem file file_lines × IsEntryOf s file) made
          (All-of (λ s. (file : String × ℕ) × Elem file file_lines × IsEntryOf s file) made
            (λ s m.
              let (e, m', q) = map-Elem (file_statistic counts) s file_lines m in
              (e, m', subst (λ t. IsEntryOf t e) q (refl, refl)))),
      All-of _ file_lines (λ file m. (
        file_statistic counts file,
        Elem-sorted_of _ (file_statistic counts file) made
            (Elem-map (file_statistic counts) file file_lines m),
        (refl, refl),
      )),
      length-sorted _ made ∙ length-map (file_statistic counts) file_lines,
    )
