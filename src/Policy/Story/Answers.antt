-- ===== src/Policy/Story/Answers.antt =====
-- internal/milter: responses, against the account.
use milter_guard.Prelude.{
  Bool, true, false, ◌&&◌, Option, none, some, List, [], ◌∷◌, ◌≡◌, inl, inr, refl, arith,
  if◌then◌else◌, Bool-cases,
}
use milter_guard.Prelude.Bytes.{Bytes}
use milter_guard.Wire.Command.{action_delete_recipient}
use milter_guard.Wire.Frame.{Writer, write_frame}
use milter_guard.Session.State.{Session}
use milter_guard.Policy.State.{
  added_header, Action, action_accept, action_reject, action_tempfail, Response, progress, Event,
  responded, PendingSenderBlocklist, Ending, Policy, enforces, offers, frame_of, emit, emit_all,
  on_success,
}
use milter_guard.Policy.Story.{
  unanswered, answered, cut_off, refused, was_accepted, deleted, all_deleted, allowed_change,
  allowed_mark, Story, ticks, changes, marks,
}

deleted-cons :
    (x : Bytes) (e : Event) (es : List Event) → deleted x es ≡ true → deleted x (e ∷ es) ≡ true
unfolding deleted
deleted-cons x e es h = ground (arith, h)

pub all_deleted-cons :
    (xs : List Bytes) (e : Event) (es : List Event)
    → all_deleted xs es ≡ true
    → all_deleted xs (e ∷ es) ≡ true
unfolding all_deleted
all_deleted-cons [] e es h = refl
all_deleted-cons (x ∷ xs) e es h = ground (arith, h, deleted-cons x e es, all_deleted-cons xs e es)

deleted-emit :
    (x : Bytes) (r : Response) (m : Ending)
    → deleted x m.events ≡ true
    → deleted x (emit r m).0.events ≡ true
unfolding emit
deleted-emit x r m h = deleted-cons x (responded r (write_frame m.conn (frame_of r)).1) m.events h

pub deleted-emit_all :
    (x : Bytes) (rs : List Response) (m : Ending)
    → deleted x m.events ≡ true
    → deleted x (emit_all rs m).0.events ≡ true
unfolding emit_all
deleted-emit_all x [] m h = h
deleted-emit_all x (r ∷ rs) m h = elim (Bool-cases (emit r m).1) [
  | inl e ↦ rw (e) (deleted-emit_all x rs (emit r m).0 (deleted-emit x r m h))
  | inr e ↦ rw (e) (deleted-emit x r m h)
]

module _ (c : Policy) (s : Session) where
  -- Recipients wait for their removal only where it may happen.
  abbrev pub PendingSafe : Option PendingSenderBlocklist → Type 0
  PendingSafe none = Unit {0}
  PendingSafe (some pending) = (offers action_delete_recipient s && enforces c) ≡ true

  abbrev pub PendingDone : Option PendingSenderBlocklist → List Event → Type 0
  PendingDone none es = Unit {0}
  PendingDone (some pending) es = (enforces c && all_deleted pending.blocked_recipients es) ≡ true

  -- Ready for an answer.
  abbrev pub Ready : Ending → Type 0
  Ready m = Story c s unanswered m.events × PendingSafe m.pending_sender_blocks

  abbrev pub SentAs : Bool → Ending → Type 0
  SentAs true m = Ready m
  SentAs false m = Story c s cut_off m.events

  abbrev pub Sent : Ending × Bool → Type 0
  Sent (m, sent) = SentAs sent m

  -- What is known after an answer.
  abbrev pub Given : Action → Ending → Type 0
  Given action_accept m =
      (was_accepted m.events ≡ true) × PendingDone m.pending_sender_blocks m.events
  Given action_reject m = refused m.events ≡ true
  Given action_tempfail m = Unit {0}

  abbrev pub GivenAs : Action → Bool → Ending → Type 0
  GivenAs selected true m = Story c s answered m.events × Given selected m
  GivenAs selected false m = Story c s cut_off m.events

  abbrev pub Answered : Action → Ending × Bool → Type 0
  Answered selected (m, sent) = GivenAs selected sent m

  sent_as :
      (r : Response) (m : Ending) (w : Writer) (sent : Bool)
      → allowed_change c s r ≡ true
      → Ready m
      → SentAs sent (record m { conn = w; events = responded r sent ∷ m.events })
  sent_as r m w true a (story, p) = (changes r true a story, p)
  sent_as r m w false a (story, p) = changes r false a story

  pub emit-Sent :
      (r : Response) (m : Ending) → allowed_change c s r ≡ true → Ready m → Sent (emit r m)
  unfolding emit
  emit-Sent r m a ready =
      sent_as r m (write_frame m.conn (frame_of r)).0 (write_frame m.conn (frame_of r)).1 a ready

  marked_as :
      (name value : Bytes) (m : Ending) (w : Writer) (sent : Bool)
      → allowed_mark c s m.events ≡ true
      → Ready m
      → SentAs sent
          (record m { conn = w; events = responded (added_header name value) sent ∷ m.events })
  marked_as name value m w true a (story, p) = (marks name value true a story, p)
  marked_as name value m w false a (story, p) = marks name value false a story

  pub emit-mark-Sent :
      (name value : Bytes) (m : Ending)
      → allowed_mark c s m.events ≡ true
      → Ready m
      → Sent (emit (added_header name value) m)
  unfolding emit
  emit-mark-Sent name value m a ready =
      marked_as name value m (write_frame m.conn (frame_of (added_header name value))).0
        (write_frame m.conn (frame_of (added_header name value))).1 a ready

  pub emit-progress-Ready : (m : Ending) → Ready m → Ready (emit progress m).0
  unfolding emit
  emit-progress-Ready m (story, p) = (ticks (write_frame m.conn (frame_of progress)).1 story, p)

  -- The next step is taken only after a success.
  pub on_success-Answered :
      (selected : Action) (o : Ending × Bool) (next : Ending → Ending × Bool)
      → Sent o
      → ((m : Ending) → Ready m → Answered selected (next m))
      → Answered selected (on_success o next)
  on_success-Answered selected (m, true) next ready f = f m ready
  on_success-Answered selected (m, false) next story f = story

  -- Up to the first response that is not sent.
  go_on :
      (sent : Bool) (m : Ending) (rs : List Response)
      → SentAs sent m
      → ((m' : Ending) → Ready m' → Sent (emit_all rs m'))
      → Sent (if sent then emit_all rs m else (m, false))
  go_on true m rs ready f = f m ready
  go_on false m rs story f = story

  unfoldable pub AllAllowed : List Response → Type 0
  AllAllowed [] = Unit {0}
  AllAllowed (r ∷ rs) = (allowed_change c s r ≡ true) × AllAllowed rs

  pub emit_all-Sent :
      (rs : List Response) (m : Ending) → AllAllowed rs → Ready m → Sent (emit_all rs m)
  unfolding emit_all AllAllowed
  emit_all-Sent [] m a ready = ready
  emit_all-Sent (r ∷ rs) m (a, all) ready =
      go_on (emit r m).1 (emit r m).0 rs (emit-Sent r m a ready)
        (λ m' ready'. emit_all-Sent rs m' all ready')
