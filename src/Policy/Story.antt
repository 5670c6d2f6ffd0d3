-- ===== src/Policy/Story.antt =====
-- internal/milter: an account of the end of a message that does not follow the code. It says which events may come when, on
-- the conditions of the configuration and the session alone.
pub mod Answers
pub mod Replies
pub mod Clearing
pub mod Marks
pub mod Updates
pub mod Decisions
pub mod Stages
pub mod Policies
pub mod Attachments
pub mod Commands
pub mod Endings
pub mod Results
use milter_guard.Prelude.{
  ℕ, ◌+◌, leb, Bool, true, false, ◌&&◌, ◌||◌, not, Option, none, some, List, [], ◌∷◌, ◌≡◌,
  if◌then◌else◌,
}
use milter_guard.Prelude.Bytes.{Bytes, bytes_eq}
use milter_guard.Wire.Command.{action_add_headers, action_change_headers, action_delete_recipient}
use milter_guard.Session.State.{Session}
use milter_guard.Policy.State.{
  ActivityEvent, ActivityOutcome, Response, progress, accepted, tempfailed, discarded, rejected,
  deleted_header, added_header, deleted_recipient, Event, responded, noted, recorded_rejection,
  struck, credited, learned, touched, classified, executed, queued_reply, Policy, enforces, offers,
}
use milter_guard.Policy.Headers.{result_header_names, header_occurrences}
use milter_guard.Policy.Updates.{domain_allowed}
use milter_guard.Policy.Commands.{is_internal_message, to_commands, command_refusal}

-- Before the answer, after it, and after a modification or an answer that could not be sent.
pub data Status : Type 0 where
  unanswered answered cut_off : Status

abbrev pub after_change : Bool → Status
after_change true = unanswered
after_change false = cut_off

abbrev pub after_answer : Bool → Status
after_answer true = answered
after_answer false = cut_off

-- What the newest answer was.
unfoldable pub refused : List Event → Bool
refused [] = false
refused (responded (rejected message) true ∷ es) = true
refused (_ ∷ es) = refused es

unfoldable pub was_accepted : List Event → Bool
was_accepted [] = false
was_accepted (responded accepted true ∷ es) = true
was_accepted (_ ∷ es) = was_accepted es

abbrev pub deletes : Bytes → Event → Bool
deletes x (responded (deleted_recipient y) true) = bytes_eq x y
deletes x _ = false

unfoldable pub deleted : Bytes → List Event → Bool
deleted x [] = false
deleted x (e ∷ es) = deletes x e || deleted x es

unfoldable pub all_deleted : List Bytes → List Event → Bool
all_deleted [] es = true
all_deleted (x ∷ xs) es = deleted x es && all_deleted xs es

-- How many headers of a name were removed.
abbrev pub clears : Bytes → Event → ℕ
clears name (responded (deleted_header other) true) = if bytes_eq name other then 1 else 0
clears name _ = 0

unfoldable pub cleared_headers : Bytes → List Event → ℕ
cleared_headers name [] = 0
cleared_headers name (e ∷ es) = clears name e + cleared_headers name es

abbrev pub is_none : Option Bytes → Bool
is_none none = true
is_none (some reason) = false

module _ (c : Policy) (s : Session) where
  -- A sender who may give commands, on a message to the command address.
  unfoldable pub may_command : Bool
  may_command = to_commands c s && is_none (command_refusal c s)

  unfoldable pub allowed_change : Response → Bool
  allowed_change (deleted_header name) = offers action_change_headers s
  allowed_change (deleted_recipient address) = offers action_delete_recipient s && enforces c
  allowed_change _ = false

  -- As many headers of each name were removed as the message has.
  unfoldable pub all_cleared : List Bytes → List Event → Bool
  all_cleared [] es = true
  all_cleared (name ∷ names) es =
      leb (header_occurrences c.host s.message name) (cleared_headers name es)
      && all_cleared names es

  -- A result header is added where no other one of the message can be left.
  unfoldable pub allowed_mark : List Event → Bool
  allowed_mark es =
      offers action_add_headers s && c.add_email_headers && all_cleared result_header_names es

  unfoldable pub allowed_answer : Response → Bool
  allowed_answer accepted = true
  allowed_answer tempfailed = enforces c || is_internal_message c s
  allowed_answer discarded = may_command
  allowed_answer (rejected message) = enforces c || to_commands c s
  allowed_answer _ = false

  unfoldable pub allowed_command : Event → Bool
  allowed_command (executed admin reply_to command) = may_command
  allowed_command (queued_reply reply_to) = may_command && c.send_replies
  allowed_command _ = false

  -- After the events `es`, the answer among them.
  unfoldable pub allowed_update : List Event → Event → Bool
  allowed_update es (recorded_rejection sender envelope_sender recipients reasons source) =
      enforces c && (refused es || was_accepted es && all_deleted recipients es)
  allowed_update es (struck addr) =
      enforces c
      && (refused es
          && (not s.authentication.authenticated
              && (c.reputation_enabled && (not (c.ip_allowed addr) && not (domain_allowed c s)))))
  allowed_update es (credited addr) =
      enforces c && (not s.authentication.authenticated && c.reputation_enabled)
  allowed_update es (learned sender recipients) =
      enforces c && (s.authentication.authenticated && was_accepted es)
  allowed_update es (touched sender recipients) = enforces c && was_accepted es
  allowed_update es (classified sender recipients classification score satisfied) =
      enforces c && not s.authentication.authenticated
  allowed_update es _ = false

  -- The events up to a point, the newest first.
  pub data Story : Status → List Event → Type 0 where
    begins : Story unanswered []
    ticks :
        (sent : Bool) {es : List Event}
        → Story unanswered es
        → Story unanswered (responded progress sent ∷ es)
    changes :
        (r : Response) (sent : Bool) {es : List Event}
        → allowed_change r ≡ true
        → Story unanswered es
        → Story (after_change sent) (responded r sent ∷ es)
    marks :
        (name value : Bytes) (sent : Bool) {es : List Event}
        → allowed_mark es ≡ true
        → Story unanswered es
        → Story (after_change sent) (responded (added_header name value) sent ∷ es)
    prepares :
        (e : Event) {es : List Event}
        → allowed_command e ≡ true
        → Story unanswered es
        → Story unanswered (e ∷ es)
    answers :
        (r : Response) (sent : Bool) {es : List Event}
        → allowed_answer r ≡ true
        → Story unanswered es
        → Story (after_answer sent) (responded r sent ∷ es)
    updates :
        (e : Event) {es : List Event}
        → allowed_update es e ≡ true
        → Story answered es
        → Story answered (e ∷ es)
    reports :
        (a : ActivityEvent) (o : ActivityOutcome) (n : ℕ) {t : Status} {es : List Event}
        → Story t es
        → Story t (noted a o n ∷ es)
