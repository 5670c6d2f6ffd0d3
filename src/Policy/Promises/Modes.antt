-- ===== src/Policy/Promises/Modes.antt =====
-- internal/milter: what the mode, the negotiation and the authentication rule out.
use milter_guard.Prelude.{Bool, true, false, ◌≡◌, refl, arith}
use milter_guard.Wire.Frame.{Writer}
use milter_guard.Session.State.{Session}
use milter_guard.Policy.State.{
  Response, progress, accepted, tempfailed, discarded, rejected, deleted_header, added_header,
  deleted_recipient, Event, responded, noted, recorded_rejection, struck, credited, learned,
  touched, classified, executed, queued_reply, Policy, enforces,
}
use milter_guard.Policy.Commands.{is_internal_message, to_commands}
use milter_guard.Policy.Finish.{finish_message}
use milter_guard.Policy.Story.{may_command, allowed_change, allowed_answer}
use milter_guard.Policy.Story.Updates.{quiet, command-quiet, update-quiet}
use milter_guard.Policy.Promises.{all_events, negotiated, all_events-Story, finish_message-told}

-- Progress, marks in the header, the acceptance and the activity log.
abbrev pub harmless : Event → Bool
harmless (responded progress sent) = true
harmless (responded accepted sent) = true
harmless (responded (deleted_header name) sent) = true
harmless (responded (added_header name value) sent) = true
harmless (noted k o n) = true
harmless _ = false

quiet_is_negotiated : (s : Session) (e : Event) → quiet e ≡ true → negotiated s e ≡ true
quiet_is_negotiated s (responded r sent) q = absurd (cc)
quiet_is_negotiated s (executed admin reply_to command) q = refl
quiet_is_negotiated s (queued_reply reply_to) q = refl
quiet_is_negotiated s (noted k o n) q = refl
quiet_is_negotiated s (recorded_rejection x y z w v) q = refl
quiet_is_negotiated s (struck x) q = refl
quiet_is_negotiated s (credited x) q = refl
quiet_is_negotiated s (learned x y) q = refl
quiet_is_negotiated s (touched x y) q = refl
quiet_is_negotiated s (classified x y z w v) q = refl

module _ (c : Policy) (s : Session) where
  change_negotiated :
      (r : Response) (sent : Bool)
      → allowed_change c s r ≡ true
      → negotiated s (responded r sent) ≡ true
  unfolding allowed_change
  change_negotiated (deleted_header name) sent a = a
  change_negotiated (added_header name value) sent a = absurd (cc)
  change_negotiated (deleted_recipient address) sent a = ground (arith, a)
  change_negotiated progress sent a = refl
  change_negotiated accepted sent a = refl
  change_negotiated tempfailed sent a = refl
  change_negotiated discarded sent a = refl
  change_negotiated (rejected message) sent a = refl

  answer_negotiated :
      (r : Response) (sent : Bool)
      → allowed_answer c s r ≡ true
      → negotiated s (responded r sent) ≡ true
  unfolding allowed_answer
  answer_negotiated progress sent a = refl
  answer_negotiated accepted sent a = refl
  answer_negotiated tempfailed sent a = refl
  answer_negotiated discarded sent a = refl
  answer_negotiated (rejected message) sent a = refl
  answer_negotiated (deleted_header name) sent a = absurd (cc)
  answer_negotiated (added_header name value) sent a = absurd (cc)
  answer_negotiated (deleted_recipient address) sent a = absurd (cc)

  -- Every header and recipient that is changed is changed by an action that the MTA granted.
  pub finish_message-negotiated :
      (conn : Writer) → all_events (negotiated s) (finish_message c s conn).0.events ≡ true
  finish_message-negotiated conn =
      all_events-Story c s (negotiated s) (λ sent. refl) change_negotiated (λ name value sent o. o)
        (λ e a. quiet_is_negotiated s e (command-quiet c s e a).0) answer_negotiated
        (λ es e a. quiet_is_negotiated s e (update-quiet c s es e a).0) (λ k o n. refl)
        (finish_message-told c s conn).1

  change_harmless :
      (r : Response) (sent : Bool)
      → enforces c ≡ false
      → allowed_change c s r ≡ true
      → harmless (responded r sent) ≡ true
  unfolding allowed_change
  change_harmless (deleted_header name) sent f a = refl
  change_harmless (added_header name value) sent f a = absurd (cc)
  change_harmless (deleted_recipient address) sent f a = absurd (ground (arith, a, f))
  change_harmless progress sent f a = refl
  change_harmless accepted sent f a = refl
  change_harmless tempfailed sent f a = absurd (cc)
  change_harmless discarded sent f a = absurd (cc)
  change_harmless (rejected message) sent f a = absurd (cc)

  no_command : to_commands c s ≡ false → may_command c s ≡ false
  unfolding may_command
  no_command n = ground (arith, n)

  answer_harmless :
      (r : Response) (sent : Bool)
      → enforces c ≡ false
      → is_internal_message c s ≡ false
      → to_commands c s ≡ false
      → allowed_answer c s r ≡ true
      → harmless (responded r sent) ≡ true
  unfolding allowed_answer
  answer_harmless accepted sent f i n a = refl
  answer_harmless tempfailed sent f i n a = absurd (ground (arith, a, f, i))
  answer_harmless discarded sent f i n a = absurd (ground (arith, a, no_command n))
  answer_harmless (rejected message) sent f i n a = absurd (ground (arith, a, f, n))
  answer_harmless progress sent f i n a = absurd (cc)
  answer_harmless (deleted_header name) sent f i n a = absurd (cc)
  answer_harmless (added_header name value) sent f i n a = absurd (cc)
  answer_harmless (deleted_recipient address) sent f i n a = absurd (cc)

  -- Outside enforce mode, a message that is neither internal nor to the command address is answered by an acceptance alone: it
  -- is not refused, deferred or discarded, no recipient is removed, and no reputation or correspondent is updated.
  pub finish_message-harmless :
      (conn : Writer)
      → enforces c ≡ false
      → is_internal_message c s ≡ false
      → to_commands c s ≡ false
      → all_events harmless (finish_message c s conn).0.events ≡ true
  finish_message-harmless conn f i n =
      all_events-Story c s harmless (λ sent. refl) (λ r sent a. change_harmless r sent f a)
        (λ name value sent o. refl)
        (λ e a. absurd (ground (arith, (command-quiet c s e a).1, no_command n)))
        (λ r sent a. answer_harmless r sent f i n a)
        (λ es e a. absurd (ground (arith, (update-quiet c s es e a).1, f))) (λ k o n'. refl)
        (finish_message-told c s conn).1
