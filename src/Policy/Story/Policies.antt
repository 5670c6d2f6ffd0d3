-- ===== src/Policy/Story/Policies.antt =====
-- internal/milter: the policies on senders, against the account.
use milter_guard.Prelude.{
  Bool, true, false, ◌||◌, not, some, List, [], ◌∷◌, ◌≡◌, arith, if◌then◌else◌, if-cases,
  elim-cases,
}
use milter_guard.Prelude.Bytes.{Bytes, codes}
use milter_guard.Wire.Command.{action_delete_recipient}
use milter_guard.Session.State.{Session}
use milter_guard.Policy.State.{
  action_accept, action_reject, event_protected_sender_domain_rejection, event_sender_blocklist,
  outcome_rejected, noted, recorded_rejection, Ending, Policy, enforces, offers, note, emit,
  on_success, activity_outcome, response_for_action, record_deterministic,
}
use milter_guard.Policy.Headers.{accept_mode_action, is_blank}
use milter_guard.Policy.Updates.{sender_blocklist_reason, recipient_set_complete}
use milter_guard.Policy.Senders.{
  authenticated_only_sender_domain_source, domain_reason, no_strings, without,
  normalized_recipients, domain_headers, domain_answered, finish_authenticated_only_sender_domain,
  apply_authenticated_only_sender_domain, reject_blocked, block_recipients, apply_sender_blocklist,
}
use milter_guard.Policy.Story.{cut_off, reports}
use milter_guard.Policy.Story.Answers.{Ready, Sent, Answered}
use milter_guard.Policy.Story.Replies.{emit-Answered, accepts-allowed}
use milter_guard.Policy.Story.Marks.{
  write_classification_headers-Sent, write_accepted_bypass_headers-Sent,
}
use milter_guard.Policy.Story.Updates.{noted-Settled, reputation_add-Settled, rejection-Settled}
use milter_guard.Policy.Story.Stages.{
  Concludes, Goes, on_success-Concludes, emit-Concludes, enforced-allowed,
  select_action_for_mode-cases,
}

module _ (c : Policy) (s : Session) where
  domain_headers-Sent : (m : Ending) → Ready c s m → Sent c s (domain_headers c s action_accept m)
  domain_headers-Sent m ready =
      if-cases (Sent c s) c.add_email_headers
        (λ e. write_classification_headers-Sent c s (codes "unwanted") accept_mode_action m e ready)
        (λ e. write_accepted_bypass_headers-Sent c s m ready)

  domain_accepted :
      (sender : Bytes) (o : Ending × Bool)
      → Concludes c s o
      → Concludes c s (domain_answered c s sender action_accept o)
  domain_accepted sender (m, true) ends = ends
  domain_accepted sender (m, false) ends = ends

  domain_rejected :
      (sender : Bytes) (o : Ending × Bool)
      → enforces c ≡ true
      → s.authentication.authenticated ≡ false
      → Answered c s action_reject o
      → Concludes c s (domain_answered c s sender action_reject o)
  unfolding record_deterministic activity_outcome
  domain_rejected sender (m, true) f u settled =
      let noted_m =
        record_deterministic event_protected_sender_domain_rejection action_reject true m in
      let recorded =
        rejection-Settled c s noted_m sender s.envelope_sender s.envelope_recipients
          (domain_reason s.protected_sender_domain ∷ []) authenticated_only_sender_domain_source f
          (noted-Settled c s action_reject event_protected_sender_domain_rejection outcome_rejected
            0 m settled) in
      (reputation_add-Settled c s
        (note
          (recorded_rejection sender s.envelope_sender s.envelope_recipients
            (domain_reason s.protected_sender_domain ∷ []) authenticated_only_sender_domain_source)
          noted_m)
        f u recorded).0
  domain_rejected sender (m, false) f u story = (cut_off, reports _ _ _ story)

  pub apply_authenticated_only_sender_domain-Goes :
      (sender : Bytes) (m : Ending)
      → Ready c s m
      → Goes c s (apply_authenticated_only_sender_domain c s sender m)
  unfolding apply_authenticated_only_sender_domain finish_authenticated_only_sender_domain
  apply_authenticated_only_sender_domain-Goes sender m ready =
      if-cases (Goes c s) (s.authentication.authenticated || is_blank s.protected_sender_domain)
        (λ out. ready)
        (λ on.
          select_action_for_mode-cases c s
            (λ selected. Concludes c s (
              domain_answered c s sender selected (
                on_success (domain_headers c s selected m)
                  (emit (response_for_action selected c.reject_message)))))
            action_reject
            (domain_accepted sender _ (
              on_success-Concludes c s (domain_headers c s action_accept m) _
                (domain_headers-Sent m ready)
                (λ m' ready'.
                  emit-Concludes c s _ m' (accepts-allowed c s c.reject_message) ready')))
            (λ f. domain_rejected sender _ f (ground (arith, on)) (
              emit-Answered c s action_reject c.reject_message m
                (enforced-allowed c s action_reject c.reject_message f) ready tt)))

  blocked_as :
      (blocked : List Bytes) (sender : Bytes) (o : Ending × Bool)
      → enforces c ≡ true
      → Answered c s action_reject o
      → Goes c s (
          if not o.1 then (o.0, some false) else (
            note (noted event_sender_blocklist outcome_rejected 1) (
                note
                  (recorded_rejection sender s.envelope_sender blocked
                    (sender_blocklist_reason ∷ [])
                    (codes "sender_blocklist"))
                  o.0),
            some true,
          ))
  blocked_as blocked sender (m, true) f settled =
      let recorded =
        rejection-Settled c s m sender s.envelope_sender blocked (sender_blocklist_reason ∷ [])
          (codes "sender_blocklist") f settled in
      reports event_sender_blocklist outcome_rejected 1 recorded.0
  blocked_as blocked sender (m, false) f story = (cut_off, story)

  reject_blocked-Goes :
      (blocked : List Bytes) (sender : Bytes) (m : Ending)
      → enforces c ≡ true
      → Ready c s m
      → Goes c s (reject_blocked c s blocked sender m)
  unfolding reject_blocked
  reject_blocked-Goes blocked sender m f ready =
      blocked_as blocked sender
        (emit (response_for_action action_reject c.sender_blocklist_reject_message) m) f
        (emit-Answered c s action_reject c.sender_blocklist_reject_message m
          (enforced-allowed c s action_reject c.sender_blocklist_reject_message f) ready tt)

  block_recipients-Goes :
      (blocked : List Bytes) (sender : Bytes) (remaining : List Bytes) (m : Ending)
      → Ready c s m
      → Goes c s (block_recipients c s blocked sender remaining m)
  block_recipients-Goes blocked sender remaining m (story, p) =
      if-cases (Goes c s) (no_strings blocked) (λ e. (story, p))
        (λ e.
          if-cases (Goes c s) (not (enforces c)) (λ e₁. (story, p))
            (λ f.
              if-cases (Goes c s) (no_strings remaining)
                (λ e₂. reject_blocked-Goes blocked sender m (ground (arith, f)) (story, p))
                (λ e₂.
                  if-cases (Goes c s) (not (offers action_delete_recipient s)) (λ e₃. (story, p))
                    (λ o. (story, ground (arith, f, o))))))

  pub apply_sender_blocklist-Goes :
      (m : Ending) → Ready c s m → Goes c s (apply_sender_blocklist c s m)
  unfolding apply_sender_blocklist
  apply_sender_blocklist-Goes m ready =
      if-cases (Goes c s) (s.authentication.authenticated || not c.has_sender_blocklist)
        (λ e. ready)
        (λ e.
          if-cases (Goes c s)
            (no_strings (normalized_recipients c s s.sender_blocklist_from)
              || s.sender_blocklist_from_truncated
              || not (recipient_set_complete c s))
            (λ e₁. ready)
            (λ e₁.
              elim-cases (Goes c s)
                (c.match_sender_blocks (normalized_recipients c s s.sender_blocklist_from)
                  (normalized_recipients c s s.envelope_recipients))
                (λ e₂. ready)
                (λ (blocked, sender) e₂.
                  block_recipients-Goes blocked sender
                    (without blocked (normalized_recipients c s s.envelope_recipients)) m ready)))
