-- ===== src/Policy/Story/Replies.antt =====
-- internal/milter: an answer and the removals that come before it, against the account.
use milter_guard.Prelude.{
  Bool, true, false, ◌&&◌, Option, none, some, List, [], ◌∷◌, ◌≡◌, refl, arith, if◌then◌else◌,
}
use milter_guard.Prelude.Bytes.{Bytes, bytes_eq_iff}
use milter_guard.Wire.Command.{action_delete_recipient}
use milter_guard.Wire.Frame.{Writer, write_frame}
use milter_guard.Session.State.{Session}
use milter_guard.Policy.State.{
  Action, action_accept, action_reject, action_tempfail, deleted_recipient, Event, responded,
  PendingSenderBlocklist, Ending, Policy, enforces, offers, frame_of, emit, emit_all, on_success,
  response_for_action,
}
use milter_guard.Policy.Senders.{deleted_recipients, write_policy_response}
use milter_guard.Policy.Story.{
  cut_off, refused, was_accepted, deleted, all_deleted, allowed_change, allowed_answer, Story,
  changes, answers,
}
use milter_guard.Policy.Story.Answers.{
  deleted-emit_all, all_deleted-cons, PendingSafe, PendingDone, Ready, GivenAs, Answered,
}

module _ (c : Policy) (s : Session) where
  -- What an answer needs before it.
  abbrev Before : Action → Ending → Type 0
  Before action_accept m = PendingDone c s m.pending_sender_blocks m.events
  Before action_reject m = Unit {0}
  Before action_tempfail m = Unit {0}

  pub pending-cons :
      (p : Option PendingSenderBlocklist) (e : Event) (es : List Event)
      → PendingDone c s p es
      → PendingDone c s p (e ∷ es)
  pending-cons none e es d = tt
  pending-cons (some pending) e es d =
      ground (arith, d, all_deleted-cons pending.blocked_recipients e es)

  answered_as :
      (selected : Action) (message : Bytes) (m : Ending) (w : Writer) (sent : Bool)
      → allowed_answer c s (response_for_action selected message) ≡ true
      → Ready c s m
      → Before selected m
      → GivenAs c s selected sent (record m {
        conn = w;
        events = responded (response_for_action selected message) sent ∷ m.events;
      })
  unfolding response_for_action was_accepted refused
  answered_as action_accept message m w true a (story, p) d =
      (answers _ true a story, (refl, pending-cons m.pending_sender_blocks _ m.events d))
  answered_as action_accept message m w false a (story, p) d = answers _ false a story
  answered_as action_reject message m w true a (story, p) d = (answers _ true a story, refl)
  answered_as action_reject message m w false a (story, p) d = answers _ false a story
  answered_as action_tempfail message m w true a (story, p) d = (answers _ true a story, tt)
  answered_as action_tempfail message m w false a (story, p) d = answers _ false a story

  pub emit-Answered :
      (selected : Action) (message : Bytes) (m : Ending)
      → allowed_answer c s (response_for_action selected message) ≡ true
      → Ready c s m
      → Before selected m
      → Answered c s selected (emit (response_for_action selected message) m)
  unfolding emit
  emit-Answered selected message m a ready d =
      answered_as selected message m
        (write_frame m.conn (frame_of (response_for_action selected message))).0
        (write_frame m.conn (frame_of (response_for_action selected message))).1 a ready d

  -- After the deletions of the recipients that wait for it.
  abbrev DeletedAs : PendingSenderBlocklist → List Bytes → Bool → Ending → Type 0
  DeletedAs pending xs true m =
      Ready c s m × (all_deleted xs m.events ≡ true) × (m.pending_sender_blocks ≡ some pending)
  DeletedAs pending xs false m = Story c s cut_off m.events

  abbrev Deleted : PendingSenderBlocklist → List Bytes → Ending × Bool → Type 0
  Deleted pending xs (m, sent) = DeletedAs pending xs sent m

  and_deleted :
      (pending : PendingSenderBlocklist) (x : Bytes) (xs : List Bytes) (sent : Bool) (m : Ending)
      → deleted x m.events ≡ true
      → DeletedAs pending xs sent m
      → DeletedAs pending (x ∷ xs) sent m
  unfolding all_deleted
  and_deleted pending x xs true m d (ready, all, p) = (ready, ground (arith, d, all), p)
  and_deleted pending x xs false m d story = story

  deleted_as :
      (pending : PendingSenderBlocklist) (x : Bytes) (m : Ending) (w : Writer) (sent : Bool)
      → allowed_change c s (deleted_recipient x) ≡ true
      → Ready c s m
      → m.pending_sender_blocks ≡ some pending
      → DeletedAs pending
          (x ∷ [])
          sent
          (record m { conn = w; events = responded (deleted_recipient x) sent ∷ m.events })
  unfolding all_deleted deleted
  deleted_as pending x m w true a (story, p) e =
      ((changes _ true a story, p), ground (arith, (bytes_eq_iff x x).1 refl), e)
  deleted_as pending x m w false a (story, p) e = changes _ false a story

  go_on_deleting :
      (pending : PendingSenderBlocklist) (x : Bytes) (xs : List Bytes) (sent : Bool) (m : Ending)
      → DeletedAs pending (x ∷ []) sent m
      → ((m' : Ending)
          → Ready c s m'
          → m'.pending_sender_blocks ≡ some pending
          → Deleted pending xs (emit_all (deleted_recipients xs) m'))
      → Deleted pending (x ∷ xs) (if sent then emit_all (deleted_recipients xs) m else (m, false))
  unfolding all_deleted
  go_on_deleting pending x xs true m (ready, d, e) f =
      let o = emit_all (deleted_recipients xs) m in
      and_deleted pending x xs o.1 o.0
        (deleted-emit_all x (deleted_recipients xs) m (ground (arith, d))) (f m ready e)
  go_on_deleting pending x xs false m story f = story

  emit_all-Deleted :
      (pending : PendingSenderBlocklist) (xs : List Bytes) (m : Ending)
      → (offers action_delete_recipient s && enforces c) ≡ true
      → Ready c s m
      → m.pending_sender_blocks ≡ some pending
      → Deleted pending xs (emit_all (deleted_recipients xs) m)
  unfolding emit_all emit deleted_recipients all_deleted allowed_change
  emit_all-Deleted pending [] m a ready e = (ready, refl, e)
  emit_all-Deleted pending (x ∷ xs) m a ready e =
      go_on_deleting pending x xs (write_frame m.conn (frame_of (deleted_recipient x))).1
        (emit (deleted_recipient x) m).0
        (deleted_as pending x m (write_frame m.conn (frame_of (deleted_recipient x))).0
          (write_frame m.conn (frame_of (deleted_recipient x))).1 a ready e)
        (λ m' ready' e'. emit_all-Deleted pending xs m' a ready' e')

  pub accepts-allowed :
      (message : Bytes) → allowed_answer c s (response_for_action action_accept message) ≡ true
  unfolding allowed_answer response_for_action
  accepts-allowed message = refl

  answer_after_removal :
      (pending : PendingSenderBlocklist) (message : Bytes) (o : Ending × Bool)
      → enforces c ≡ true
      → Deleted pending pending.blocked_recipients o
      → Answered c s action_accept (on_success o (emit (response_for_action action_accept message)))
  answer_after_removal pending message (m, true) f (ready, all, e) =
      emit-Answered action_accept message m (accepts-allowed message) ready
        (rw (e) (ground (arith, f, all)))
  answer_after_removal pending message (m, false) f story = story

  answer_pending :
      (message : Bytes) (m : Ending) (p : Option PendingSenderBlocklist)
      → m.pending_sender_blocks ≡ p
      → Ready c s m
      → PendingSafe c s p
      → Answered c s action_accept (elim p [
        | none ↦ emit (response_for_action action_accept message) m
        | some pending ↦
            on_success
              (emit_all (deleted_recipients pending.blocked_recipients) m)
              (emit (response_for_action action_accept message))
      ])
  answer_pending message m none e ready safe =
      emit-Answered action_accept message m (accepts-allowed message) ready (rw (e) tt)
  answer_pending message m (some pending) e ready safe =
      answer_after_removal pending message
        (emit_all (deleted_recipients pending.blocked_recipients) m) (ground (arith, safe))
        (emit_all-Deleted pending pending.blocked_recipients m safe ready e)

  pub write_policy_response-Answered :
      (selected : Action) (message : Bytes) (m : Ending)
      → allowed_answer c s (response_for_action selected message) ≡ true
      → Ready c s m
      → Answered c s selected (write_policy_response c s selected message m)
  unfolding write_policy_response
  write_policy_response-Answered action_accept message m a ready =
      answer_pending message m m.pending_sender_blocks refl ready ready.1
  write_policy_response-Answered action_reject message m a ready =
      emit-Answered action_reject message m a ready tt
  write_policy_response-Answered action_tempfail message m a ready =
      emit-Answered action_tempfail message m a ready tt
