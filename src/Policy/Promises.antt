-- ===== src/Policy/Promises.antt =====
-- internal/milter: what the end of a message promises, whatever the configuration, the message and the connection.
pub mod Modes
pub mod Marks
pub mod Senders
pub mod Verdicts
pub mod Lines
use milter_guard.Prelude.{
  ℕ, zero, suc, ◌+◌, Bool, true, false, ◌&&◌, ◌||◌, not, Option, none, some, List, [], ◌∷◌, ◌≡◌,
  refl, arith, if◌then◌else◌, length, ◌==◌,
}
use milter_guard.Prelude.Bytes.{Bytes}
use milter_guard.Wire.Command.{action_add_headers, action_change_headers, action_delete_recipient}
use milter_guard.Wire.Frame.{Writer}
use milter_guard.Session.State.{Session}
use milter_guard.Policy.State.{
  ActivityEvent, ActivityOutcome, Response, progress, accepted, tempfailed, discarded, rejected,
  deleted_header, added_header, deleted_recipient, Event, responded, noted, recorded_rejection,
  struck, credited, learned, touched, classified, executed, queued_reply, Ending, Policy, offers,
}
use milter_guard.Policy.Finish.{finish_message}
use milter_guard.Policy.Story.{
  Status, unanswered, answered, cut_off, allowed_change, allowed_mark, allowed_answer,
  allowed_command, allowed_update, Story, begins, ticks, changes, marks, prepares, answers, updates,
  reports,
}
use milter_guard.Policy.Story.Updates.{quiet, command-quiet, update-quiet}
use milter_guard.Policy.Story.Stages.{Concludes}
use milter_guard.Policy.Story.Results.{finish_message-Story}

unfoldable pub all_events : (Event → Bool) → List Event → Bool
all_events p [] = true
all_events p (e ∷ es) = p e && all_events p es

-- The answers that were sent.
abbrev answers_of : Event → ℕ
answers_of (responded accepted true) = 1
answers_of (responded tempfailed true) = 1
answers_of (responded discarded true) = 1
answers_of (responded (rejected message) true) = 1
answers_of _ = 0

unfoldable pub sent_answers : List Event → ℕ
sent_answers [] = 0
sent_answers (e ∷ es) = answers_of e + sent_answers es

abbrev answers_in : Status → ℕ
answers_in unanswered = 0
answers_in answered = 1
answers_in cut_off = 0

-- A modification of the message is one that the MTA offered.
abbrev pub negotiated : Session → Event → Bool
negotiated s (responded (deleted_header name) sent) = offers action_change_headers s
negotiated s (responded (added_header name value) sent) = offers action_add_headers s
negotiated s (responded (deleted_recipient address) sent) = offers action_delete_recipient s
negotiated s _ = true

quiet_is_no_answer : (e : Event) → quiet e ≡ true → answers_of e ≡ 0
quiet_is_no_answer (responded r sent) q = absurd (cc)
quiet_is_no_answer (executed admin reply_to command) q = refl
quiet_is_no_answer (queued_reply reply_to) q = refl
quiet_is_no_answer (noted k o n) q = refl
quiet_is_no_answer (recorded_rejection x y z w v) q = refl
quiet_is_no_answer (struck x) q = refl
quiet_is_no_answer (credited x) q = refl
quiet_is_no_answer (learned x y) q = refl
quiet_is_no_answer (touched x y) q = refl
quiet_is_no_answer (classified x y z w v) q = refl

module _ (c : Policy) (s : Session) where
  change_is_no_answer :
      (r : Response) (sent : Bool) → allowed_change c s r ≡ true → answers_of (responded r sent) ≡ 0
  unfolding allowed_change
  change_is_no_answer (deleted_header name) sent a = refl
  change_is_no_answer (added_header name value) sent a = absurd (cc)
  change_is_no_answer (deleted_recipient address) sent a = refl
  change_is_no_answer progress sent a = absurd (cc)
  change_is_no_answer accepted sent a = absurd (cc)
  change_is_no_answer tempfailed sent a = absurd (cc)
  change_is_no_answer discarded sent a = absurd (cc)
  change_is_no_answer (rejected message) sent a = absurd (cc)

  unsent_is_no_answer : (r : Response) → answers_of (responded r false) ≡ 0
  unsent_is_no_answer progress = refl
  unsent_is_no_answer accepted = refl
  unsent_is_no_answer tempfailed = refl
  unsent_is_no_answer discarded = refl
  unsent_is_no_answer (rejected message) = refl
  unsent_is_no_answer (deleted_header name) = refl
  unsent_is_no_answer (added_header name value) = refl
  unsent_is_no_answer (deleted_recipient address) = refl

  answer_is_one : (r : Response) → allowed_answer c s r ≡ true → answers_of (responded r true) ≡ 1
  unfolding allowed_answer
  answer_is_one accepted a = refl
  answer_is_one tempfailed a = refl
  answer_is_one discarded a = refl
  answer_is_one (rejected message) a = refl
  answer_is_one progress a = absurd (cc)
  answer_is_one (deleted_header name) a = absurd (cc)
  answer_is_one (added_header name value) a = absurd (cc)
  answer_is_one (deleted_recipient address) a = absurd (cc)

  sent_answers-Story :
      {t : Status} {es : List Event} → Story c s t es → sent_answers es ≡ answers_in t
  unfolding sent_answers
  sent_answers-Story begins = refl
  sent_answers-Story (ticks sent story) = ground (arith, sent_answers-Story story)
  sent_answers-Story (changes r true a story) =
      omega (arith, change_is_no_answer r true a, sent_answers-Story story)
  sent_answers-Story (changes r false a story) =
      omega (arith, change_is_no_answer r false a, sent_answers-Story story)
  sent_answers-Story (marks name value true a story) = omega (arith, sent_answers-Story story)
  sent_answers-Story (marks name value false a story) = omega (arith, sent_answers-Story story)
  sent_answers-Story (prepares e a story) =
      omega (arith, quiet_is_no_answer e (command-quiet c s e a).0, sent_answers-Story story)
  sent_answers-Story (answers r true a story) =
      omega (arith, answer_is_one r a, sent_answers-Story story)
  sent_answers-Story (answers r false a story) =
      omega (arith, unsent_is_no_answer r, sent_answers-Story story)
  sent_answers-Story (updates e {es} a story) =
      omega (arith, quiet_is_no_answer e (update-quiet c s es e a).0, sent_answers-Story story)
  sent_answers-Story (reports k o n story) = omega (arith, sent_answers-Story story)

  -- Of each kind of event that the account has, all are of the kind `p`.
  pub all_events-Story :
      (p : Event → Bool)
      → ((sent : Bool) → p (responded progress sent) ≡ true)
      → ((r : Response) (sent : Bool) → allowed_change c s r ≡ true → p (responded r sent) ≡ true)
      → ((name value : Bytes) (sent : Bool)
          → offers action_add_headers s ≡ true
          → p (responded (added_header name value) sent) ≡ true)
      → ((e : Event) → allowed_command c s e ≡ true → p e ≡ true)
      → ((r : Response) (sent : Bool) → allowed_answer c s r ≡ true → p (responded r sent) ≡ true)
      → ((es : List Event) (e : Event) → allowed_update c s es e ≡ true → p e ≡ true)
      → ((k : ActivityEvent) (o : ActivityOutcome) (n : ℕ) → p (noted k o n) ≡ true)
      → {t : Status} {es : List Event} → Story c s t es
      → all_events p es ≡ true
  unfolding all_events allowed_mark
  all_events-Story p f g l h i j k begins = refl
  all_events-Story p f g l h i j k (ticks sent story) =
      ground (arith, f sent, all_events-Story p f g l h i j k story)
  all_events-Story p f g l h i j k (changes r sent a story) =
      ground (arith, g r sent a, all_events-Story p f g l h i j k story)
  all_events-Story p f g l h i j k (marks name value sent a story) =
      ground (arith, l name value sent (ground (arith, a)), all_events-Story p f g l h i j k story)
  all_events-Story p f g l h i j k (prepares e a story) =
      ground (arith, h e a, all_events-Story p f g l h i j k story)
  all_events-Story p f g l h i j k (answers r sent a story) =
      ground (arith, i r sent a, all_events-Story p f g l h i j k story)
  all_events-Story p f g l h i j k (updates e {es} a story) =
      ground (arith, j es e a, all_events-Story p f g l h i j k story)
  all_events-Story p f g l h i j k (reports q o n story) =
      ground (arith, k q o n, all_events-Story p f g l h i j k story)

  told : (o : Ending × Bool) → Concludes c s o → (t : Status) × Story c s t o.0.events
  told (m, true) story = (answered, story)
  told (m, false) stopped = stopped

  pub finish_message-told :
      (conn : Writer) → (t : Status) × Story c s t (finish_message c s conn).0.events
  finish_message-told conn = told (finish_message c s conn) (finish_message-Story c s conn)

  answered_when_kept :
      (o : Ending × Bool) → Concludes c s o → o.1 ≡ true → Story c s answered o.0.events
  answered_when_kept (m, true) story e = story
  answered_when_kept (m, false) stopped e = absurd (cc)

  -- When the connection is kept, exactly one answer was sent.
  pub finish_message-sent_answers :
      (conn : Writer)
      → (finish_message c s conn).1 ≡ true
      → sent_answers (finish_message c s conn).0.events ≡ 1
  finish_message-sent_answers conn kept =
      sent_answers-Story
        (answered_when_kept (finish_message c s conn) (finish_message-Story c s conn) kept)
