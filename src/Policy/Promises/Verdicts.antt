-- ===== src/Policy/Promises/Verdicts.antt =====
-- internal/milter/analysis.go: when the analysis refuses a message.
use milter_guard.Prelude.{
  Bool, false, ◌&&◌, ◌||◌, not, Option, none, some, ◌≡◌, arith, inl, inr, Bool-cases, if-cases,
  elim-cases,
}
use milter_guard.Prelude.Bytes.{codes, bytes_eq}
use milter_guard.Policy.State.{
  action_reject, is_reject, Decision, AnalysisRun, Policy, enforces, select_action_for_mode,
}
use milter_guard.Policy.Headers.{EvaluationResult}
use milter_guard.Policy.Analysis.{
  html_action, run_exceeded, apply_policy, failure_action, analysis_failure, prepared_result,
  evaluate,
}

-- The decision is that the message is unwanted, with a score that is not less than the limit.
abbrev condemned : Policy → Option Decision → Bool
condemned c none = false
condemned c (some d) =
    bytes_eq d.classification (codes "unwanted") && not (c.score_less d.score c.reject_score)

-- The grounds for a refusal, apart from the order in which the code looks at them.
abbrev pub has_grounds : Policy → AnalysisRun → Bool
has_grounds c run =
    (run_exceeded run && not (bytes_eq (html_action c) (codes "fallback")))
    || (bytes_eq c.incomplete_body_action (codes "reject") && run.body_incomplete)
    || condemned c run.decided

failure_keeps : (c : Policy) → is_reject (failure_action c) ≡ false
unfolding failure_action
failure_keeps c = ground arith

decided_rejects :
    (c : Policy) (d : Decision)
    → is_reject (select_action_for_mode (apply_policy c d) c) ≡ (enforces c && condemned c (some d))
unfolding select_action_for_mode apply_policy
decided_rejects c d = ground arith

abbrev IsRight : Policy → AnalysisRun → EvaluationResult → Type 0
IsRight c run r = is_reject r.selected ≡ (enforces c && not run.timed_out && has_grounds c run)

selected_rejects : (c : Policy) → is_reject (select_action_for_mode action_reject c) ≡ enforces c
unfolding select_action_for_mode
selected_rejects c = ground arith

prepared_result-rejects :
    (c : Policy) (run : AnalysisRun)
    → is_reject (prepared_result c run).selected
      ≡ (enforces c && not run.timed_out && has_grounds c run)
unfolding analysis_failure
prepared_result-rejects c run =
    if-cases (IsRight c run) run.timed_out (λ e. ground (arith, e, failure_keeps c))
      (λ e.
        if-cases (IsRight c run)
          (run_exceeded run && not (bytes_eq (html_action c) (codes "fallback")))
          (λ l. ground (arith, e, l, selected_rejects c))
          (λ l.
            if-cases (IsRight c run)
              (bytes_eq c.incomplete_body_action (codes "reject") && run.body_incomplete)
              (λ b. ground (arith, e, l, b, selected_rejects c))
              (λ b.
                elim-cases (IsRight c run) run.decided
                  (λ d. ground (arith, e, l, b, d, failure_keeps c))
                  (λ d f. ground (arith, e, l, b, f, decided_rejects c d)))))

-- The analysis refuses a message exactly in enforce mode, when it was prepared in time and there are grounds: a resource limit
-- without fallback, an incomplete body where that is refused, or an unwanted classification with a sufficient score.
pub evaluate-rejects :
    (c : Policy) (run : AnalysisRun)
    → is_reject (evaluate c run).selected
      ≡ (not run.panicked && run.has_slot && (enforces c && not run.timed_out && has_grounds c run))
unfolding evaluate analysis_failure
evaluate-rejects c run = elim (Bool-cases (run.panicked || not run.has_slot)) [
  | inl e ↦ ground (arith, e, failure_keeps c)
  | inr e ↦ ground (arith, e, prepared_result-rejects c run)
]
