-- ===== src/Policy/Promises/Marks.antt =====
-- internal/milter/result_headers.go: result headers and their counterfeits.
use milter_guard.Prelude.{Bool, true, false, ◌||◌, not, List, [], ◌∷◌, ◌≡◌, refl, arith}
use milter_guard.Wire.Frame.{Writer}
use milter_guard.Session.State.{Session}
use milter_guard.Policy.State.{
  Response, progress, accepted, tempfailed, discarded, rejected, deleted_header, added_header,
  deleted_recipient, Event, responded, noted, recorded_rejection, struck, credited, learned,
  touched, classified, executed, queued_reply, Policy,
}
use milter_guard.Policy.Headers.{result_header_names}
use milter_guard.Policy.Finish.{finish_message}
use milter_guard.Policy.Story.{
  Status, all_cleared, allowed_change, allowed_mark, allowed_answer, Story, begins, ticks, changes,
  marks, prepares, answers, updates, reports,
}
use milter_guard.Policy.Story.Clearing.{all_cleared-cons}
use milter_guard.Policy.Story.Updates.{quiet, command-quiet, update-quiet}
use milter_guard.Policy.Promises.{finish_message-told}

abbrev adds : Event → Bool
adds (responded (added_header name value) sent) = true
adds _ = false

-- Whether a header was added.
unfoldable pub adds_header : List Event → Bool
adds_header [] = false
adds_header (e ∷ es) = adds e || adds_header es

quiet-adds : (e : Event) → quiet e ≡ true → adds e ≡ false
quiet-adds (responded r sent) q = absurd (cc)
quiet-adds (executed admin reply_to command) q = refl
quiet-adds (queued_reply reply_to) q = refl
quiet-adds (noted k o n) q = refl
quiet-adds (recorded_rejection x y z w v) q = refl
quiet-adds (struck x) q = refl
quiet-adds (credited x) q = refl
quiet-adds (learned x y) q = refl
quiet-adds (touched x y) q = refl
quiet-adds (classified x y z w v) q = refl

module _ (c : Policy) (s : Session) where
  change-adds :
      (r : Response) (sent : Bool) → allowed_change c s r ≡ true → adds (responded r sent) ≡ false
  unfolding allowed_change
  change-adds (deleted_header name) sent a = refl
  change-adds (deleted_recipient address) sent a = refl
  change-adds (added_header name value) sent a = absurd (cc)
  change-adds progress sent a = refl
  change-adds accepted sent a = refl
  change-adds tempfailed sent a = refl
  change-adds discarded sent a = refl
  change-adds (rejected message) sent a = refl

  answer-adds :
      (r : Response) (sent : Bool) → allowed_answer c s r ≡ true → adds (responded r sent) ≡ false
  unfolding allowed_answer
  answer-adds (added_header name value) sent a = absurd (cc)
  answer-adds (deleted_header name) sent a = refl
  answer-adds (deleted_recipient address) sent a = refl
  answer-adds progress sent a = refl
  answer-adds accepted sent a = refl
  answer-adds tempfailed sent a = refl
  answer-adds discarded sent a = refl
  answer-adds (rejected message) sent a = refl

  passed_over :
      (e : Event) (es : List Event)
      → adds e ≡ false
      → (not (adds_header es) || all_cleared c s result_header_names es) ≡ true
      → (not (adds_header (e ∷ es)) || all_cleared c s result_header_names (e ∷ es)) ≡ true
  unfolding adds_header
  passed_over e es a h = ground (arith, a, h, all_cleared-cons c s result_header_names e es)

  genuine :
      {t : Status} {es : List Event}
      → Story c s t es
      → (not (adds_header es) || all_cleared c s result_header_names es) ≡ true
  unfolding adds_header allowed_mark
  genuine begins = refl
  genuine (ticks sent {es} story) = passed_over (responded progress sent) es refl (genuine story)
  genuine (changes r sent {es} a story) =
      passed_over (responded r sent) es (change-adds r sent a) (genuine story)
  genuine (marks name value sent {es} a story) = ground (
    arith,
    all_cleared-cons c s result_header_names (responded (added_header name value) sent) es
        (ground (arith, a)),
  )
  genuine (prepares e {es} a story) =
      passed_over e es (quiet-adds e (command-quiet c s e a).0) (genuine story)
  genuine (answers r sent {es} a story) =
      passed_over (responded r sent) es (answer-adds r sent a) (genuine story)
  genuine (updates e {es} a story) =
      passed_over e es (quiet-adds e (update-quiet c s es e a).0) (genuine story)
  genuine (reports k o n {t} {es} story) = passed_over (noted k o n) es refl (genuine story)

  -- When a result header is added to a message, then for each name of a result header as many headers were removed as the
  -- message came with: a counterfeit is never left beside the genuine result.
  pub finish_message-adds_header :
      (conn : Writer)
      → adds_header (finish_message c s conn).0.events ≡ true
      → all_cleared c s result_header_names (finish_message c s conn).0.events ≡ true
  finish_message-adds_header conn a = ground (arith, a, genuine (finish_message-told c s conn).1)
