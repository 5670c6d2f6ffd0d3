-- ===== src/Policy/Commands.antt =====
-- internal/milter/email_commands.go: the commands that a message to the command address holds. The body's text, the
-- parser and the rendering of replies are parameters.
use milter_guard.Prelude.{
  ℕ, Bool, true, false, ◌&&◌, ◌||◌, not, Option, none, some, List, [], ◌∷◌, ◌++◌, ◌==◌, length,
  if◌then◌else◌,
}
use milter_guard.Prelude.Bytes.{Bytes, codes, bytes_eq}
use milter_guard.Session.State.{Session}
use milter_guard.Policy.State.{
  rejected, discarded, AdminCommand, command_line, parse_error, executed, queued_reply, Lines,
  read_lines, failed_lines, invalid_lines, Ending, Policy, note, emit,
}
use milter_guard.Policy.Headers.{is_blank}

abbrev pub internal_message_header : Bytes
internal_message_header = codes "X-MilterGuard-Internal"

abbrev pub max_commands_per_message : ℕ
max_commands_per_message = 100

abbrev pub no_commands : List AdminCommand → Bool
no_commands [] = true
no_commands (x ∷ xs) = false

-- The commands before the first line that is not parsed, or that line's error.
pub data Collected : Type 0 where
  collected : List AdminCommand → Collected
  invalid_command : Bytes → Collected

-- The loop over the lines; `commands` are the ones before.
unfoldable pub collect_commands :
    (Bytes → Option Bytes) → (Bytes → Bool) → List AdminCommand → List Bytes → Collected
collect_commands failure recognized commands [] = collected commands
collect_commands failure recognized commands (line ∷ lines) =
    let more = commands ++ command_line line ∷ [] in
    let rest = collect_commands failure recognized more lines in
    elim (failure line) [
      | none ↦ if length more == max_commands_per_message then collected more else rest
      | some error ↦
          if no_commands commands
          then invalid_command error
          else if recognized line
          then collected (commands ++ parse_error line error ∷ [])
          else collected commands
    ]

module _ (c : Policy) (s : Session) where
  unfoldable pub is_internal_message : Bool
  is_internal_message =
      let marker = c.host.trim_space (c.retained_header s.message internal_message_header) in
      not (is_blank marker)
      && (bytes_eq marker c.internal_token && elim s.peer_ip [
        | none ↦ true
        | some addr ↦ c.address_loopback addr || not (c.address_routable addr)
      ])

  unfoldable pub has_command_recipient : List Bytes → Bool
  has_command_recipient [] = false
  has_command_recipient (r ∷ rs) =
      bytes_eq (c.normalize r) c.command_recipient || has_command_recipient rs

  unfoldable pub is_command_administrator : Bytes → List Bytes → Bool
  is_command_administrator identity [] = false
  is_command_administrator identity (configured ∷ rest) =
      c.equal_fold_unicode (c.host.trim_space configured) (c.host.trim_space identity)
      || is_command_administrator identity rest

  unfoldable pub reject_email_command : Bytes → Ending → Ending × Bool
  reject_email_command reason m =
      emit (rejected (codes "MilterGuard command rejected: " ++ reason)) m

  unfoldable pub discard_email_command : Ending → Ending × Bool
  discard_email_command m = emit discarded m

  -- `queueReplyContentFunc`: the reply is rendered and sent by a worker.
  unfoldable pub queue_reply : Bytes → Ending → Ending
  queue_reply reply_to m =
      if not c.send_replies || not c.has_reply_slot then m else note (queued_reply reply_to) m

  -- `completeInvalidEmailCommand` and `completeFailedEmailCommand`
  abbrev pub complete_email_command : Bytes → Ending → Ending × Bool
  complete_email_command reply_to m = discard_email_command (queue_reply reply_to m)

  unfoldable pub execute_all : Bool → Bytes → List AdminCommand → Ending → Ending
  execute_all admin reply_to [] m = m
  execute_all admin reply_to (x ∷ xs) m =
      execute_all admin reply_to xs (note (executed admin reply_to x) m)

  unfoldable pub run_collected : Bool → Bytes → Collected → Ending → Ending × Bool
  run_collected admin reply_to (invalid_command error) m = complete_email_command reply_to m
  run_collected admin reply_to (collected commands) m =
      if no_commands commands
      then complete_email_command reply_to m
      else discard_email_command (queue_reply reply_to (execute_all admin reply_to commands m))

  unfoldable pub run_lines : Bool → Bytes → Lines → Ending → Ending × Bool
  run_lines admin reply_to (failed_lines reason) m = complete_email_command reply_to m
  run_lines admin reply_to (invalid_lines reason) m = complete_email_command reply_to m
  run_lines admin reply_to (read_lines lines) m =
      run_collected admin reply_to
        (collect_commands (c.parse_failure admin reply_to) c.recognized_line [] lines) m

  -- Why the sender may not give commands; none for one who may.
  unfoldable pub command_refusal : Option Bytes
  command_refusal =
      let identity = c.host.trim_space s.authentication.identity in
      let admin = is_command_administrator identity c.administrators in
      if not (length s.envelope_recipients == 1) || s.envelope_recipients_truncated
      then some (codes "command address must be the sole recipient")
      else if not s.authentication.authenticated
      then some (codes "authentication required")
      else if not admin && not c.allow_authenticated_users
      then some (codes "authenticated user is not authorized")
      else if not admin
          && c.verify_sender_via_aliases
          && not (c.owned_via_aliases s.envelope_sender identity)
      then some (codes "envelope sender is not owned by the authenticated user")
      else if is_blank (c.normalize s.envelope_sender)
      then some (codes "authenticated envelope sender is invalid")
      else none

  abbrev pub to_commands : Bool
  to_commands = c.commands_enabled && has_command_recipient s.envelope_recipients

  abbrev pub command_answer : Option Bytes → Ending → Ending × Bool
  command_answer (some reason) m = reject_email_command reason m
  command_answer none m =
      run_lines
        (is_command_administrator (c.host.trim_space s.authentication.identity) c.administrators)
        (c.normalize s.envelope_sender) (c.command_lines s.message) m

  unfoldable pub handle_email_command : Ending → Ending × Option Bool
  handle_email_command m =
      let (m', kept) = command_answer command_refusal m in
      if to_commands then (m', some kept) else (m, none)
