-- ===== src/Lib.antt =====
-- Verification of the analysis engine service: the code that turns the findings of analyzers and the
-- answers of language models into the result and the review of a pull request.
--
-- The program has two stages. In the first (src/analysis_engine/application/), analyzers run on a
-- checkout; their findings get fingerprints, lose duplicates, and are marked where they stand on
-- lines that the pull request changes. In the second (src/analysis_engine/review/), a Reviewer
-- model proposes issues with evidence in a loop of model and tool calls; each issue is checked
-- against the repository, then by a Verifier model, filtered by the developers' feedback, merged,
-- ranked and capped, and the repository's business rules get their outcomes.
--
-- The modules, with the files of src/analysis_engine/ that they model:
--   Prelude: shared helpers; lists, Python's dict, sorted, str methods, floats and exceptions.
--   Domain: domain/finding.py, change_set.py, code_index.py, business_rule.py, agent_review.py; the
--     index with its derived tables, built by `model_post_init`, and its queries.
--   Indexing: indexing/indexer.py with languages.py: the walk over a tree of tree-sitter, the loop
--     over the files (Indexer) and `_resolve_edge_targets` (Resolver).
--   Diffing: diffing/change_mapper.py (ChangeMapper), diff_parser.py (DiffParser), generated_files.py
--     and diff_extractor.py (DiffExtractor). Printers of what git writes stand beside the parsers.
--   Workspace.GitClient: validate_branch and run_git_output of workspace/git_client.py.
--   Metrics.Calculator: metrics/calculator.py with domain/metrics.py.
--   Application: application/finding_normalizer.py, and _collect_results and _build_result of
--     application/orchestrator.py (Orchestrator), and its run with the callbacks (Pipeline).
--   Consumers.PrQueueConsumer: consumers/pr_queue_consumer.py.
--   Evaluation: the score of a case in evaluation/scoring.py, with the records of evaluation/case.py;
--     a set of indices is a list of flags.
--   Rules: rules/rule_set.py with the rules file, the path patterns of domain/business_rule.py, and
--     `_validate` of rules/mining.py; YAML and the construction of a rule are parameters.
--   Retrieval.Refs: retrieval/refs.py.
--   Agents.Reviewer: agents/reviewer/schema.py and validation.py: a reference to a place (Location),
--     a quote in a file (Quote), one piece of evidence (Evidence), the whole answer (Validation).
--   Agents.Runtime: agents/runtime/provider.py, pricing.py and agent_loop.py: `play` is one round of
--     `_loop`, whose variables are the fields of `LoopState`.
--   Review: review/reporter.py, verification.py and review_orchestrator.py.
--   Tests: the theorems at concrete inputs.
--
-- Parameters stand for what is not the program's own: floats with a strict order (Prelude.Floats),
-- the Unicode database (Prelude.Text), SHA-256 (`digest`), the files of the workspace (`files`, a
-- path that is not allowed or not readable has no lines), the order in which Python runs through a
-- set (`elements`), the model's replies (`reply`), the tools (`execute`), the validation of JSON
-- (`read`), the moment of a timeout (`slow`, and the reply `timed_out`), the decoding of UTF-8
-- (`decode`, with its law for ASCII in `Utf8`), the processes of git (`git`), and for the run of a job
-- what its other components do (`Job`, `ReviewStage`). An exception that the code does not catch is
-- the result `value_error` or `crashed`, or no value. `int` reads digits only; the counts of git and
-- the matches of the regular expressions hold nothing else.
--
-- Fuel: `run_agent` gives its loop max_rounds + 2 rounds, and `run_agent-Sends` shows that they are
-- enough, since a round either uses one of the rounds left or uses up the only repair. The line
-- numbers of a quote are taken off with one more unit than the text has characters, and each step
-- takes off a character. The digits of a number take one unit more than the number.
--
-- Not modelled: input and output (HTTP, queue, database, git, subprocesses), prompts and the vendor's
-- client, the analyzers, the Python metrics, the context pack, the tools, and the cases and the runner
-- of the evaluation; of the modelled parts, times, logging and the statistics of a review.
pub mod Prelude
pub mod Domain
pub mod Evaluation
pub mod Indexing
pub mod Diffing
pub mod Review
pub mod Rules
pub mod Agents
pub mod Retrieval
pub mod Application
pub mod Workspace
pub mod Metrics
pub mod Consumers
pub mod Tests
