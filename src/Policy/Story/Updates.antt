-- ===== src/Policy/Story/Updates.antt =====
-- internal/milter: the updates after an answer, against the account.
use milter_guard.Prelude.{
  ℕ, Bool, true, false, ◌||◌, not, some, List, [], ◌∷◌, ◌≡◌, refl, subst, arith, if-cases,
  elim-cases, length,
}
use milter_guard.Prelude.Bytes.{Bytes, codes}
use milter_guard.Session.Address.{canonical_ip}
use milter_guard.Session.State.{Session}
use milter_guard.Policy.State.{
  Action, action_accept, action_reject, action_tempfail, ActivityEvent, ActivityOutcome,
  event_sender_blocklist, outcome_accepted, Event, responded, noted, recorded_rejection, struck,
  credited, learned, touched, classified, executed, queued_reply, PendingSenderBlocklist, Ending,
  Policy, enforces, note,
}
use milter_guard.Policy.Updates.{
  sender_blocklist_reason, domain_allowed, reputation_add, record_legitimate_ip,
  complete_sender_blocklist_removal,
}
use milter_guard.Policy.Story.{
  answered, refused, was_accepted, may_command, allowed_command, allowed_update, Story, updates,
  reports,
}
use milter_guard.Policy.Story.Answers.{Given, PendingDone}
use milter_guard.Policy.Story.Replies.{pending-cons}

abbrev pub quiet : Event → Bool
quiet (responded r sent) = false
quiet _ = true

refused-cons :
    (e : Event) (es : List Event) → quiet e ≡ true → refused es ≡ true → refused (e ∷ es) ≡ true
unfolding refused
refused-cons (responded r sent) es q h = absurd (cc)
refused-cons (noted a o n) es q h = h
refused-cons (recorded_rejection a b d f g) es q h = h
refused-cons (struck a) es q h = h
refused-cons (credited a) es q h = h
refused-cons (learned a b) es q h = h
refused-cons (touched a b) es q h = h
refused-cons (classified a b d f g) es q h = h
refused-cons (executed a b d) es q h = h
refused-cons (queued_reply a) es q h = h

was_accepted-cons :
    (e : Event) (es : List Event)
    → quiet e ≡ true
    → was_accepted es ≡ true
    → was_accepted (e ∷ es) ≡ true
unfolding was_accepted
was_accepted-cons (responded r sent) es q h = absurd (cc)
was_accepted-cons (noted a o n) es q h = h
was_accepted-cons (recorded_rejection a b d f g) es q h = h
was_accepted-cons (struck a) es q h = h
was_accepted-cons (credited a) es q h = h
was_accepted-cons (learned a b) es q h = h
was_accepted-cons (touched a b) es q h = h
was_accepted-cons (classified a b d f g) es q h = h
was_accepted-cons (executed a b d) es q h = h
was_accepted-cons (queued_reply a) es q h = h

module _ (c : Policy) (s : Session) where
  -- A command comes from a sender who may give it, and an update comes in enforce mode.
  pub command-quiet :
      (e : Event) → allowed_command c s e ≡ true → (quiet e ≡ true) × (may_command c s ≡ true)
  unfolding allowed_command
  command-quiet (executed admin reply_to command) a = (refl, a)
  command-quiet (queued_reply reply_to) a = (refl, ground (arith, a))
  command-quiet (responded r sent) a = absurd (cc)
  command-quiet (noted k o n) a = absurd (cc)
  command-quiet (recorded_rejection x y z w v) a = absurd (cc)
  command-quiet (struck x) a = absurd (cc)
  command-quiet (credited x) a = absurd (cc)
  command-quiet (learned x y) a = absurd (cc)
  command-quiet (touched x y) a = absurd (cc)
  command-quiet (classified x y z w v) a = absurd (cc)

  pub update-quiet :
      (es : List Event) (e : Event)
      → allowed_update c s es e ≡ true
      → (quiet e ≡ true) × (enforces c ≡ true)
  unfolding allowed_update
  update-quiet es (recorded_rejection x y z w v) a = (refl, ground (arith, a))
  update-quiet es (struck x) a = (refl, ground (arith, a))
  update-quiet es (credited x) a = (refl, ground (arith, a))
  update-quiet es (learned x y) a = (refl, ground (arith, a))
  update-quiet es (touched x y) a = (refl, ground (arith, a))
  update-quiet es (classified x y z w v) a = (refl, ground (arith, a))
  update-quiet es (executed admin reply_to command) a = absurd (cc)
  update-quiet es (queued_reply reply_to) a = absurd (cc)
  update-quiet es (responded r sent) a = absurd (cc)
  update-quiet es (noted k o n) a = absurd (cc)

  -- After an answer.
  abbrev pub Settled : Action → Ending → Type 0
  Settled selected m = Story c s answered m.events × Given c s selected m

  Given-cons :
      (selected : Action) (e : Event) (m : Ending)
      → quiet e ≡ true
      → Given c s selected m
      → Given c s selected (note e m)
  Given-cons action_accept e m q (a, d) =
      (was_accepted-cons e m.events q a, pending-cons c s m.pending_sender_blocks e m.events d)
  Given-cons action_reject e m q g = refused-cons e m.events q g
  Given-cons action_tempfail e m q g = tt

  pub note-Settled :
      (selected : Action) (e : Event) (m : Ending)
      → quiet e ≡ true
      → allowed_update c s m.events e ≡ true
      → Settled selected m
      → Settled selected (note e m)
  note-Settled selected e m q a (story, g) = (updates e a story, Given-cons selected e m q g)

  pub noted-Settled :
      (selected : Action) (a : ActivityEvent) (o : ActivityOutcome) (n : ℕ) (m : Ending)
      → Settled selected m
      → Settled selected (note (noted a o n) m)
  noted-Settled selected a o n m (story, g) =
      (reports a o n story, Given-cons selected (noted a o n) m refl g)

  pub reputation_add-Settled :
      (m : Ending)
      → enforces c ≡ true
      → s.authentication.authenticated ≡ false
      → Settled action_reject m
      → Settled action_reject (reputation_add c s m)
  unfolding reputation_add allowed_update
  reputation_add-Settled m f u (story, g) =
      elim-cases (Settled action_reject) s.peer_ip (λ e. (story, g))
        (λ addr e.
          if-cases (Settled action_reject)
            (not c.reputation_enabled || c.ip_allowed (canonical_ip addr) || domain_allowed c s)
            (λ out. (story, g))
            (λ on.
              note-Settled action_reject (struck (canonical_ip addr)) m refl
                (ground (arith, f, u, g, on)) (story, g)))

  pub record_legitimate_ip-Settled :
      (selected : Action) (m : Ending)
      → enforces c ≡ true
      → s.authentication.authenticated ≡ false
      → Settled selected m
      → Settled selected (record_legitimate_ip c s m)
  unfolding record_legitimate_ip allowed_update
  record_legitimate_ip-Settled selected m f u settled =
      elim-cases (Settled selected) s.peer_ip (λ e. settled)
        (λ addr e.
          if-cases (Settled selected) (not c.reputation_enabled) (λ out. settled)
            (λ on.
              note-Settled selected (credited (canonical_ip addr)) m refl (ground (arith, f, u, on))
                settled))

  -- A rejection is recorded after a rejection.
  pub rejection-Settled :
      (m : Ending) (sender envelope_sender : Bytes) (recipients reasons : List Bytes)
      (source : Bytes)
      → enforces c ≡ true
      → Settled action_reject m
      → Settled action_reject
          (note (recorded_rejection sender envelope_sender recipients reasons source) m)
  unfolding allowed_update
  rejection-Settled m sender envelope_sender recipients reasons source f (story, g) =
      note-Settled action_reject _ m refl (ground (arith, f, g)) (story, g)

  -- What waited for its removal was removed.
  removal_recorded :
      (m : Ending) (pending : PendingSenderBlocklist)
      → m.pending_sender_blocks ≡ some pending
      → Settled action_accept m
      → allowed_update c s m.events (
          recorded_rejection pending.matched_sender s.envelope_sender pending.blocked_recipients
            (sender_blocklist_reason ∷ [])
            (codes "sender_blocklist"))
        ≡ true
  unfolding allowed_update
  removal_recorded m pending e (story, (a, d)) =
      let done : PendingDone c s (some pending) m.events =
        subst (λ p. PendingDone c s p m.events) e d in
      ground (arith, done, a)

  pub complete_sender_blocklist_removal-Settled :
      (m : Ending)
      → Settled action_accept m
      → Settled action_accept (complete_sender_blocklist_removal c s m)
  unfolding complete_sender_blocklist_removal
  complete_sender_blocklist_removal-Settled m settled =
      elim-cases (Settled action_accept) m.pending_sender_blocks (λ e. settled)
        (λ pending e.
          noted-Settled action_accept event_sender_blocklist outcome_accepted
            (length pending.blocked_recipients)
            (note
              (recorded_rejection pending.matched_sender s.envelope_sender
                pending.blocked_recipients (sender_blocklist_reason ∷ [])
                (codes "sender_blocklist"))
              m)
            (note-Settled action_accept _ m refl (removal_recorded m pending e settled) settled))
