-- ===== src/Policy/Promises/Senders.antt =====
-- internal/milter: whom the end of a message judges, and who may give commands.
use milter_guard.Prelude.{
  Bool, true, false, ◌&&◌, ◌||◌, not, none, some, List, [], ◌∷◌, ◌≡◌, refl, arith, if◌then◌else◌,
  length, ◌==◌,
}
use milter_guard.Prelude.Bytes.{Bytes, codes}
use milter_guard.Wire.Frame.{Writer}
use milter_guard.Session.State.{Session}
use milter_guard.Policy.State.{
  Event, responded, noted, recorded_rejection, struck, credited, learned, touched, classified,
  executed, queued_reply, Policy,
}
use milter_guard.Policy.Headers.{is_blank}
use milter_guard.Policy.Commands.{has_command_recipient, is_command_administrator, command_refusal}
use milter_guard.Policy.Finish.{finish_message}
use milter_guard.Policy.Story.{is_none, may_command, allowed_command, allowed_update}
use milter_guard.Policy.Story.Updates.{command-quiet}
use milter_guard.Policy.Promises.{all_events, all_events-Story, finish_message-told}

abbrev pub is_executed : Event → Bool
is_executed (executed admin reply_to command) = true
is_executed _ = false

-- A strike or a credit of the sending address, or what teaches about the sender.
abbrev pub judges_sender : Event → Bool
judges_sender (struck addr) = true
judges_sender (credited addr) = true
judges_sender (classified x y z w v) = true
judges_sender _ = false

module _ (c : Policy) (s : Session) where
  update_judges :
      (es : List Event) (e : Event)
      → s.authentication.authenticated ≡ true
      → allowed_update c s es e ≡ true
      → judges_sender e ≡ false
  unfolding allowed_update
  update_judges es (recorded_rejection x y z w v) u a = refl
  update_judges es (struck x) u a = absurd (ground (arith, a, u))
  update_judges es (credited x) u a = absurd (ground (arith, a, u))
  update_judges es (learned x y) u a = refl
  update_judges es (touched x y) u a = refl
  update_judges es (classified x y z w v) u a = absurd (ground (arith, a, u))
  update_judges es (executed admin reply_to command) u a = refl
  update_judges es (queued_reply reply_to) u a = refl
  update_judges es (responded r sent) u a = refl
  update_judges es (noted k o n) u a = refl

  command_judges : (e : Event) → allowed_command c s e ≡ true → judges_sender e ≡ false
  unfolding allowed_command
  command_judges (executed admin reply_to command) a = refl
  command_judges (queued_reply reply_to) a = refl
  command_judges (responded r sent) a = refl
  command_judges (noted k o n) a = refl
  command_judges (recorded_rejection x y z w v) a = refl
  command_judges (struck x) a = absurd (cc)
  command_judges (credited x) a = absurd (cc)
  command_judges (learned x y) a = refl
  command_judges (touched x y) a = refl
  command_judges (classified x y z w v) a = absurd (cc)

  -- The message of an authenticated sender never counts for or against its address, nor as an inbound classification.
  pub finish_message-authenticated :
      (conn : Writer)
      → s.authentication.authenticated ≡ true
      → all_events (λ e. not (judges_sender e)) (finish_message c s conn).0.events ≡ true
  finish_message-authenticated conn u =
      all_events-Story c s (λ e. not (judges_sender e)) (λ sent. refl) (λ r sent a. refl)
        (λ name value sent o. refl) (λ e a. ground (arith, command_judges e a)) (λ r sent a. refl)
        (λ es e a. ground (arith, update_judges es e u a)) (λ k o n. refl)
        (finish_message-told c s conn).1

  update-not_executed :
      (es : List Event) (e : Event) → allowed_update c s es e ≡ true → is_executed e ≡ false
  unfolding allowed_update
  update-not_executed es (executed admin reply_to command) a = absurd (cc)
  update-not_executed es (recorded_rejection x y z w v) a = refl
  update-not_executed es (struck x) a = refl
  update-not_executed es (credited x) a = refl
  update-not_executed es (learned x y) a = refl
  update-not_executed es (touched x y) a = refl
  update-not_executed es (classified x y z w v) a = refl
  update-not_executed es (queued_reply reply_to) a = refl
  update-not_executed es (responded r sent) a = refl
  update-not_executed es (noted k o n) a = refl

  executed_by :
      (es : List Event)
      → all_events (λ e. not (is_executed e) || may_command c s) es ≡ true
      → all_events (λ e. not (is_executed e)) es ≡ false
      → may_command c s ≡ true
  unfolding all_events
  executed_by [] a h = absurd (cc)
  executed_by (e ∷ es) a h = ground (arith, a, h, executed_by es)

  no_refusal :
      (a b d e f : Bool) (v w x y z : Bytes)
      → is_none (
          if a
          then some v
          else if b
          then some w
          else if d
          then some x
          else if e
          then some y
          else if f
          then some z
          else none)
        ≡ true
      → (a ≡ false) × (b ≡ false) × (d ≡ false)
  no_refusal a b d e f v w x y z h = ground (arith, h)

  may_command-sender :
      may_command c s ≡ true
      → (s.authentication.authenticated ≡ true)
        × ((length s.envelope_recipients == 1) ≡ true)
        × (s.envelope_recipients_truncated ≡ false)
        × (has_command_recipient c s s.envelope_recipients ≡ true)
        × ((is_command_administrator c s
                (c.host.trim_space s.authentication.identity)
                c.administrators
              || c.allow_authenticated_users)
            ≡ true)
  unfolding may_command command_refusal
  may_command-sender a =
      let unrefused : is_none (command_refusal c s) ≡ true = ground (arith, a) in
      let identity = c.host.trim_space s.authentication.identity in
      let admin = is_command_administrator c s identity c.administrators in
      let (alone, known, entitled) =
        no_refusal (not (length s.envelope_recipients == 1) || s.envelope_recipients_truncated)
          (not s.authentication.authenticated) (not admin && not c.allow_authenticated_users)
          (not admin
            && c.verify_sender_via_aliases
            && not (c.owned_via_aliases s.envelope_sender identity))
          (is_blank (c.normalize s.envelope_sender))
          (codes "command address must be the sole recipient") (codes "authentication required")
          (codes "authenticated user is not authorized")
          (codes "envelope sender is not owned by the authenticated user")
          (codes "authenticated envelope sender is invalid") unrefused in
      (
        ground (arith, known),
        ground (arith, alone),
        ground (arith, alone),
        ground (arith, a),
        ground (arith, entitled),
      )

  -- When a command is executed, the sender is authenticated and an administrator or an allowed user, and the command address is
  -- the only recipient.
  pub finish_message-executed :
      (conn : Writer)
      → all_events (λ e. not (is_executed e)) (finish_message c s conn).0.events ≡ false
      → (s.authentication.authenticated ≡ true)
        × ((length s.envelope_recipients == 1) ≡ true)
        × (s.envelope_recipients_truncated ≡ false)
        × (has_command_recipient c s s.envelope_recipients ≡ true)
        × ((is_command_administrator c s
                (c.host.trim_space s.authentication.identity)
                c.administrators
              || c.allow_authenticated_users)
            ≡ true)
  finish_message-executed conn h = may_command-sender (
      executed_by (finish_message c s conn).0.events
        (all_events-Story c s (λ e. not (is_executed e) || may_command c s) (λ sent. refl)
          (λ r sent a. refl) (λ name value sent o. refl)
          (λ e a. ground (arith, (command-quiet c s e a).1)) (λ r sent a. refl)
          (λ es e a. ground (arith, update-not_executed es e a)) (λ k o n. refl)
          (finish_message-told c s conn).1)
        h)
