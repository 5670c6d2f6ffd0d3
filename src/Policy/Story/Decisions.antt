-- ===== src/Policy/Story/Decisions.antt =====
-- internal/milter/message_policy.go: the updates after an analysis, against the account.
use milter_guard.Prelude.{Bool, true, ◌&&◌, ◌||◌, not, ◌≡◌, refl, arith, if◌then◌else◌, if-cases}
use milter_guard.Prelude.Bytes.{Bytes, codes, bytes_eq}
use milter_guard.Session.State.{Session}
use milter_guard.Policy.State.{
  Action, action_accept, action_reject, action_tempfail, is_reject, is_accept, recorded_rejection,
  learned, classified, Ending, Policy, enforces, note,
}
use milter_guard.Policy.Headers.{EvaluationResult, is_blank, incomplete_inspection_policy}
use milter_guard.Policy.Updates.{
  limited_by_html, policy_envelope_recipients, record_inbound_classification, rejection_updates,
  legitimate_updates, learning_updates, correspondent_updates, apply_post_decision_updates,
}
use milter_guard.Policy.Story.{allowed_update}
use milter_guard.Policy.Story.Updates.{
  Settled, note-Settled, reputation_add-Settled, record_legitimate_ip-Settled, rejection-Settled,
}

module _ (c : Policy) (s : Session) where
  rejection_updates-Settled :
      (selected : Action) (sender : Bytes) (r : EvaluationResult) (m : Ending)
      → enforces c ≡ true
      → r.selected ≡ selected
      → Settled c s selected m
      → Settled c s selected (rejection_updates c s sender r m)
  rejection_updates-Settled action_accept sender r m f e settled =
      if-cases (Settled c s action_accept) (not (is_reject r.selected)) (λ out. settled)
        (λ on. absurd (ground (arith, on, e)))
  rejection_updates-Settled action_tempfail sender r m f e settled =
      if-cases (Settled c s action_tempfail) (not (is_reject r.selected)) (λ out. settled)
        (λ on. absurd (ground (arith, on, e)))
  rejection_updates-Settled action_reject sender r m f e settled =
      let recorded =
        rejection-Settled c s m sender s.envelope_sender s.envelope_recipients r.reasons
          (codes "ai") f settled in
      if-cases (Settled c s action_reject) (not (is_reject r.selected)) (λ out. settled)
        (λ on.
          if-cases (Settled c s action_reject)
            (not s.authentication.authenticated && not (limited_by_html r))
            (λ strikes. reputation_add-Settled c s _ f (ground (arith, strikes)) recorded)
            (λ spares. recorded))

  legitimate_updates-Settled :
      (selected : Action) (r : EvaluationResult) (m : Ending)
      → enforces c ≡ true
      → Settled c s selected m
      → Settled c s selected (legitimate_updates c s r m)
  legitimate_updates-Settled selected r m f settled =
      if-cases (Settled c s selected)
        (not s.authentication.authenticated
          && not r.failed
          && bytes_eq r.classification (codes "legitimate"))
        (λ on. record_legitimate_ip-Settled c s selected m f (ground (arith, on)) settled)
        (λ out. settled)

  learning_updates-Settled :
      (selected : Action) (r : EvaluationResult) (m : Ending)
      → enforces c ≡ true
      → r.selected ≡ selected
      → Settled c s selected m
      → Settled c s selected (learning_updates c s r m)
  unfolding allowed_update
  learning_updates-Settled action_accept r m f e (story, (a, d)) =
      if-cases (Settled c s action_accept) (is_accept r.selected && s.authentication.authenticated)
        (λ on.
          note-Settled c s action_accept
            (learned s.envelope_sender (policy_envelope_recipients c s m)) m refl
            (ground (arith, f, on, a)) (story, (a, d)))
        (λ out. (story, (a, d)))
  learning_updates-Settled action_reject r m f e settled =
      if-cases (Settled c s action_reject) (is_accept r.selected && s.authentication.authenticated)
        (λ on. absurd (ground (arith, on, e))) (λ out. settled)
  learning_updates-Settled action_tempfail r m f e settled =
      if-cases (Settled c s action_tempfail)
        (is_accept r.selected && s.authentication.authenticated)
        (λ on. absurd (ground (arith, on, e))) (λ out. settled)

  correspondent_updates-Settled :
      (selected : Action) (sender : Bytes) (r : EvaluationResult) (trusted : Bool) (m : Ending)
      → enforces c ≡ true
      → Settled c s selected m
      → Settled c s selected (correspondent_updates c s sender r trusted m)
  unfolding record_inbound_classification allowed_update
  correspondent_updates-Settled selected sender r trusted m f settled =
      if-cases (Settled c s selected)
        (not s.authentication.authenticated
          && not r.failed
          && not (is_blank sender)
          && not (limited_by_html r))
        (λ on.
          if-cases (Settled c s selected)
            (bytes_eq r.classification (codes "legitimate")
              || bytes_eq r.classification (codes "unwanted"))
            (λ known.
              note-Settled c s selected
                (classified sender
                  (if is_reject r.selected
                    then s.envelope_recipients
                    else policy_envelope_recipients c s m)
                  r.classification r.score trusted)
                m refl (ground (arith, f, on)) settled)
            (λ unknown. settled))
        (λ out. settled)

  incomplete-Settled :
      (selected : Action) (sender : Bytes) (r : EvaluationResult) (m : Ending)
      → enforces c ≡ true
      → r.selected ≡ selected
      → Settled c s selected m
      → Settled c s selected (
          if is_reject r.selected
          then note
              (recorded_rejection sender s.envelope_sender s.envelope_recipients r.reasons
                incomplete_inspection_policy)
              m
          else m)
  incomplete-Settled action_reject sender r m f e settled =
      if-cases (Settled c s action_reject) (is_reject r.selected)
        (λ on.
          rejection-Settled c s m sender s.envelope_sender s.envelope_recipients r.reasons
            incomplete_inspection_policy f settled)
        (λ out. settled)
  incomplete-Settled action_accept sender r m f e settled =
      if-cases (Settled c s action_accept) (is_reject r.selected)
        (λ on. absurd (ground (arith, on, e))) (λ out. settled)
  incomplete-Settled action_tempfail sender r m f e settled =
      if-cases (Settled c s action_tempfail) (is_reject r.selected)
        (λ on. absurd (ground (arith, on, e))) (λ out. settled)

  pub apply_post_decision_updates-Settled :
      (sender : Bytes) (r : EvaluationResult) (trusted : Bool) (m : Ending)
      → Settled c s r.selected m
      → Settled c s r.selected (apply_post_decision_updates c s sender r trusted m)
  unfolding apply_post_decision_updates
  apply_post_decision_updates-Settled sender r trusted m settled =
      if-cases (Settled c s r.selected) (not (enforces c)) (λ out. settled)
        (λ on.
          let f : enforces c ≡ true = ground (arith, on) in
          if-cases (Settled c s r.selected) r.incomplete_inspection
            (λ i. incomplete-Settled r.selected sender r m f refl settled)
            (λ i. correspondent_updates-Settled r.selected sender r trusted _ f (
              learning_updates-Settled r.selected r _ f refl (
                legitimate_updates-Settled r.selected r _ f
                  (rejection_updates-Settled r.selected sender r m f refl settled)))))
