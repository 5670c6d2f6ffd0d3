-- ===== src/Policy/Story/Commands.antt =====
-- internal/milter/email_commands.go: the command messages, against the account.
use milter_guard.Prelude.{
  Bool, true, ◌&&◌, ◌||◌, not, Option, none, some, List, [], ◌∷◌, ◌++◌, ◌≡◌, refl, arith, if-cases,
}
use milter_guard.Prelude.Bytes.{Bytes, codes}
use milter_guard.Session.State.{Session}
use milter_guard.Policy.State.{
  AdminCommand, discarded, rejected, executed, queued_reply, Lines, read_lines, failed_lines,
  invalid_lines, Ending, Policy, note,
}
use milter_guard.Policy.Commands.{
  no_commands, Collected, collected, invalid_command, collect_commands, reject_email_command,
  discard_email_command, queue_reply, complete_email_command, execute_all, run_collected, run_lines,
  is_command_administrator, command_refusal, to_commands, command_answer, handle_email_command,
}
use milter_guard.Policy.Story.{is_none, may_command, allowed_answer, allowed_command, prepares}
use milter_guard.Policy.Story.Answers.{Ready}
use milter_guard.Policy.Story.Stages.{Concludes, Goes, emit-Concludes}

module _ (c : Policy) (s : Session) where
  execute_all-Ready :
      (admin : Bool) (reply_to : Bytes) (commands : List AdminCommand) (m : Ending)
      → may_command c s ≡ true
      → Ready c s m
      → Ready c s (execute_all c s admin reply_to commands m)
  unfolding execute_all allowed_command
  execute_all-Ready admin reply_to [] m a ready = ready
  execute_all-Ready admin reply_to (x ∷ xs) m a (story, p) =
      execute_all-Ready admin reply_to xs (note (executed admin reply_to x) m) a
        (prepares (executed admin reply_to x) a story, p)

  queue_reply-Ready :
      (reply_to : Bytes) (m : Ending)
      → may_command c s ≡ true
      → Ready c s m
      → Ready c s (queue_reply c s reply_to m)
  unfolding queue_reply allowed_command
  queue_reply-Ready reply_to m a (story, p) =
      if-cases (Ready c s) (not c.send_replies || not c.has_reply_slot) (λ e. (story, p))
        (λ e. (prepares (queued_reply reply_to) (ground (arith, a, e)) story, p))

  discard-Concludes :
      (m : Ending)
      → may_command c s ≡ true
      → Ready c s m
      → Concludes c s (discard_email_command c s m)
  unfolding discard_email_command allowed_answer
  discard-Concludes m a ready = emit-Concludes c s discarded m a ready

  complete-Concludes :
      (reply_to : Bytes) (m : Ending)
      → may_command c s ≡ true
      → Ready c s m
      → Concludes c s (complete_email_command c s reply_to m)
  complete-Concludes reply_to m a ready =
      discard-Concludes (queue_reply c s reply_to m) a (queue_reply-Ready reply_to m a ready)

  run_collected-Concludes :
      (admin : Bool) (reply_to : Bytes) (found : Collected) (m : Ending)
      → may_command c s ≡ true
      → Ready c s m
      → Concludes c s (run_collected c s admin reply_to found m)
  unfolding run_collected
  run_collected-Concludes admin reply_to (invalid_command error) m a ready =
      complete-Concludes reply_to m a ready
  run_collected-Concludes admin reply_to (collected commands) m a ready =
      if-cases (Concludes c s) (no_commands commands) (λ e. complete-Concludes reply_to m a ready)
        (λ e.
          complete-Concludes reply_to (execute_all c s admin reply_to commands m) a
            (execute_all-Ready admin reply_to commands m a ready))

  run_lines-Concludes :
      (admin : Bool) (reply_to : Bytes) (text : Lines) (m : Ending)
      → may_command c s ≡ true
      → Ready c s m
      → Concludes c s (run_lines c s admin reply_to text m)
  unfolding run_lines
  run_lines-Concludes admin reply_to (failed_lines reason) m a ready =
      complete-Concludes reply_to m a ready
  run_lines-Concludes admin reply_to (invalid_lines reason) m a ready =
      complete-Concludes reply_to m a ready
  run_lines-Concludes admin reply_to (read_lines lines) m a ready =
      run_collected-Concludes admin reply_to
        (collect_commands (c.parse_failure admin reply_to) c.recognized_line [] lines) m a ready

  command_answer-Concludes :
      (refusal : Option Bytes) (m : Ending)
      → (to_commands c s && is_none refusal) ≡ may_command c s
      → to_commands c s ≡ true
      → Ready c s m
      → Concludes c s (command_answer c s refusal m)
  unfolding reject_email_command allowed_answer
  command_answer-Concludes (some reason) m e t ready =
      emit-Concludes c s (rejected (codes "MilterGuard command rejected: " ++ reason)) m
        (ground (arith, t)) ready
  command_answer-Concludes none m e t ready =
      run_lines-Concludes
        (is_command_administrator c s (c.host.trim_space s.authentication.identity)
          c.administrators)
        (c.normalize s.envelope_sender) (c.command_lines s.message) m (ground (arith, e, t)) ready

  pub handle_email_command-Goes : (m : Ending) → Ready c s m → Goes c s (handle_email_command c s m)
  unfolding handle_email_command may_command
  handle_email_command-Goes m ready =
      if-cases (Goes c s) (to_commands c s)
        (λ t. command_answer-Concludes (command_refusal c s) m refl t ready) (λ e. ready)
