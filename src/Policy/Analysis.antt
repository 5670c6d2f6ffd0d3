-- ===== src/Policy/Analysis.antt =====
-- internal/milter/analysis.go: the evaluation of a message. The extraction and the analyzer are parameters.
use milter_guard.Prelude.{ℕ, Bool, true, false, ◌&&◌, ◌||◌, not, none, some, [], ◌∷◌, if◌then◌else◌}
use milter_guard.Prelude.Bytes.{Bytes, codes, bytes_eq}
use milter_guard.Policy.State.{
  Action, action_accept, action_reject, action_tempfail, Decision, AnalysisRun, Policy, enforces,
  select_action_for_mode,
}
use milter_guard.Policy.Headers.{EvaluationResult, is_blank}

abbrev pub resource_limit_reject_message : Bytes
resource_limit_reject_message =
    codes "Message rejected because content processing exceeded server resource limits"

abbrev pub incomplete_inspection_reject_message : Bytes
incomplete_inspection_reject_message =
    codes "Message rejected because its content could not be fully inspected"

-- `HTMLResourceLimitAction`, by default "reject"
abbrev pub html_action : Policy → Bytes
html_action c =
    if is_blank c.html_resource_limit_action then codes "reject" else c.html_resource_limit_action

abbrev pub run_exceeded : AnalysisRun → Bool
run_exceeded run = run.cpu_exceeded || run.memory_exceeded

unfoldable pub apply_policy : Policy → Decision → Action
apply_policy c d =
    if bytes_eq d.classification (codes "unwanted") && not (c.score_less d.score c.reject_score)
    then action_reject
    else action_accept

unfoldable pub failure_action : Policy → Action
failure_action c =
    if enforces c && bytes_eq c.ai_error_action (codes "tempfail")
    then action_tempfail
    else action_accept

unfoldable pub analysis_failure : Policy → EvaluationResult
analysis_failure c = record {
  incomplete_inspection = false;
  proposed = failure_action c;
  selected = failure_action c;
  classification = [];
  score = 0;
  reasons = [];
  html_exceeded = false;
  html_cpu_action = [];
  reject_message = [];
  failed = true;
}

-- What the deferred function adds once the message is prepared.
abbrev pub with_usage : Policy → AnalysisRun → EvaluationResult → EvaluationResult
with_usage c run r = record r { html_exceeded = run_exceeded run; html_cpu_action = html_action c }

abbrev pub limit_reason : AnalysisRun → Bytes
limit_reason run =
    if run.memory_exceeded
    then codes "Message content processing exceeded the configured memory limit"
    else codes "Message content processing exceeded the configured CPU-time limit"

-- The bits of the float 1.
abbrev pub score_one : ℕ
score_one = 0x3FF0000000000000

abbrev pub limit_result : Policy → AnalysisRun → EvaluationResult
limit_result c run =
    let dos = bytes_eq (html_action c) (codes "dos-reject") in
    record {
      incomplete_inspection = false;
      proposed = action_reject;
      selected = select_action_for_mode action_reject c;
      classification = if dos then codes "unwanted" else [];
      score = if dos then score_one else 0;
      reasons = limit_reason run ∷ [];
      html_exceeded = false;
      html_cpu_action = [];
      reject_message = resource_limit_reject_message;
      failed = false;
    }

abbrev pub incomplete_result : Policy → EvaluationResult
incomplete_result c = record {
  incomplete_inspection = true;
  proposed = action_reject;
  selected = select_action_for_mode action_reject c;
  classification = [];
  score = 0;
  reasons = codes "message body extraction was incomplete" ∷ [];
  html_exceeded = false;
  html_cpu_action = [];
  reject_message = incomplete_inspection_reject_message;
  failed = false;
}

abbrev pub decided_result : Policy → Decision → EvaluationResult
decided_result c d = record {
  incomplete_inspection = false;
  proposed = apply_policy c d;
  selected = select_action_for_mode (apply_policy c d) c;
  classification = d.classification;
  score = d.score;
  reasons = d.reasons;
  html_exceeded = false;
  html_cpu_action = [];
  reject_message = [];
  failed = false;
}

abbrev pub prepared_result : Policy → AnalysisRun → EvaluationResult
prepared_result c run =
    if run.timed_out
    then analysis_failure c
    else if run_exceeded run && not (bytes_eq (html_action c) (codes "fallback"))
    then limit_result c run
    else if bytes_eq c.incomplete_body_action (codes "reject") && run.body_incomplete
    then incomplete_result c
    else elim run.decided [ none ↦ analysis_failure c | some d ↦ decided_result c d ]

unfoldable pub evaluate : Policy → AnalysisRun → EvaluationResult
evaluate c run =
    if run.panicked || not run.has_slot
    then analysis_failure c
    else with_usage c run (prepared_result c run)
