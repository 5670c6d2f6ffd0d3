-- ===== src/Policy/Story/Endings.antt =====
-- internal/milter/session.go: the end of a message, against the account.
use milter_guard.Prelude.{
  Bool, true, false, ◌&&◌, not, ◌≡◌, refl, arith, if◌then◌else◌, if-cases, replicate, ℕ, zero, suc,
}
use milter_guard.Wire.Command.{action_change_headers}
use milter_guard.Session.State.{Session}
use milter_guard.Policy.State.{
  action_accept, progress, tempfailed, deleted_header, learned, touched, Ending, Policy, enforces,
  offers, note, emit, emit_all, record_deterministic, activity_outcome,
}
use milter_guard.Policy.Headers.{header_occurrences, write_accepted_bypass_headers}
use milter_guard.Policy.Updates.{
  policy_envelope_recipients, record_legitimate_ip, complete_sender_blocklist_removal,
}
use milter_guard.Policy.Senders.{write_policy_response}
use milter_guard.Policy.Commands.{internal_message_header, is_internal_message}
use milter_guard.Policy.Finish.{
  Source, internal_command_reply, authenticated_connection, sender_domain_allowlisted,
  known_correspondent, is_trusted_source, record_bypass, sender, bypass_updates, bypass_answered,
  finish_bypassed_message, internal_deletions, finish_internal_message,
}
use milter_guard.Policy.Story.{
  cut_off, allowed_answer, allowed_change, allowed_update, Story, reports,
}
use milter_guard.Policy.Story.Answers.{
  Ready, Answered, on_success-Answered, emit_all-Sent, emit-progress-Ready,
}
use milter_guard.Policy.Story.Replies.{accepts-allowed, write_policy_response-Answered}
use milter_guard.Policy.Story.Marks.{AllAllowed-replicate, write_accepted_bypass_headers-Sent}
use milter_guard.Policy.Story.Updates.{
  Settled, note-Settled, noted-Settled, record_legitimate_ip-Settled,
  complete_sender_blocklist_removal-Settled,
}
use milter_guard.Policy.Story.Stages.{Concludes, on_success-Concludes, emit-Concludes}

module _ (c : Policy) (s : Session) where
  -- Only an authenticated sender's recipients are learned.
  bypass_updates-Settled :
      (source : Source) (learn touch_inbound : Bool) (m : Ending)
      → enforces c ≡ true
      → (learn && not s.authentication.authenticated) ≡ false
      → Settled c s action_accept m
      → Settled c s action_accept (bypass_updates c s source learn touch_inbound m)
  unfolding allowed_update
  bypass_updates-Settled source learn touch_inbound m f l settled =
      let credited_m : Ending =
        if not s.authentication.authenticated && is_trusted_source source
        then record_legitimate_ip c s m
        else m in
      let credits : Settled c s action_accept credited_m =
        if-cases (Settled c s action_accept)
          (not s.authentication.authenticated && is_trusted_source source)
          (λ e. record_legitimate_ip-Settled c s action_accept m f (ground (arith, e)) settled)
          (λ e. settled) in
      let learned_m : Ending =
        if learn
        then note (learned s.envelope_sender (policy_envelope_recipients c s credited_m)) credited_m
        else credited_m in
      let learns : Settled c s action_accept learned_m =
        if-cases (Settled c s action_accept) learn
          (λ e.
            note-Settled c s action_accept
              (learned s.envelope_sender (policy_envelope_recipients c s credited_m)) credited_m
              refl (ground (arith, f, l, e, credits.1.0)) credits)
          (λ e. credits) in
      if-cases (Settled c s action_accept) touch_inbound
        (λ e.
          note-Settled c s action_accept
            (touched (sender c s) (policy_envelope_recipients c s learned_m)) learned_m refl
            (ground (arith, f, learns.1.0)) learns)
        (λ e. learns)

  record_bypass-Settled :
      (source : Source) (m : Ending)
      → Settled c s action_accept m
      → Settled c s action_accept (record_bypass source true m)
  unfolding record_bypass record_deterministic activity_outcome
  record_bypass-Settled internal_command_reply m settled = settled
  record_bypass-Settled authenticated_connection m settled = settled
  record_bypass-Settled sender_domain_allowlisted m settled =
      noted-Settled c s action_accept _ _ _ m settled
  record_bypass-Settled known_correspondent m settled =
      noted-Settled c s action_accept _ _ _ m settled

  record_bypass-Story :
      (source : Source) (m : Ending)
      → Story c s cut_off m.events
      → Story c s cut_off (record_bypass source false m).events
  unfolding record_bypass record_deterministic activity_outcome
  record_bypass-Story internal_command_reply m story = story
  record_bypass-Story authenticated_connection m story = story
  record_bypass-Story sender_domain_allowlisted m story = reports _ _ _ story
  record_bypass-Story known_correspondent m story = reports _ _ _ story

  bypass_answered-Concludes :
      (source : Source) (learn touch_inbound : Bool) (o : Ending × Bool)
      → (learn && not s.authentication.authenticated) ≡ false
      → Answered c s action_accept o
      → Concludes c s (bypass_answered c s source learn touch_inbound o)
  bypass_answered-Concludes source learn touch_inbound (m, true) l settled =
      let completed = complete_sender_blocklist_removal c s (record_bypass source true m) in
      let done : Settled c s action_accept completed =
        complete_sender_blocklist_removal-Settled c s (record_bypass source true m)
          (record_bypass-Settled source m settled) in
      (if-cases (Settled c s action_accept) (enforces c)
        (λ f. bypass_updates-Settled source learn touch_inbound completed f l done) (λ e. done)).0
  bypass_answered-Concludes source learn touch_inbound (m, false) l story =
      (cut_off, record_bypass-Story source m story)

  pub finish_bypassed_message-Concludes :
      (source : Source) (learn touch_inbound : Bool) (m : Ending)
      → (learn && not s.authentication.authenticated) ≡ false
      → Ready c s m
      → Concludes c s (finish_bypassed_message c s source learn touch_inbound m)
  unfolding finish_bypassed_message
  finish_bypassed_message-Concludes source learn touch_inbound m l ready =
      bypass_answered-Concludes source learn touch_inbound _ l (
        on_success-Answered c s action_accept (write_accepted_bypass_headers c s m)
          (write_policy_response c s action_accept c.reject_message)
          (write_accepted_bypass_headers-Sent c s m ready)
          (λ m' ready'.
            write_policy_response-Answered c s action_accept c.reject_message m'
              (accepts-allowed c s c.reject_message) ready'))

  pub finish_internal_message-Concludes :
      (m : Ending)
      → is_internal_message c s ≡ true
      → Ready c s m
      → Concludes c s (finish_internal_message c s m)
  unfolding finish_internal_message allowed_answer allowed_change
  finish_internal_message-Concludes m i ready =
      if-cases (Concludes c s) (not (offers action_change_headers s))
        (λ e. emit-Concludes c s tempfailed m (ground (arith, i)) ready)
        (λ e.
          on_success-Concludes c s (emit_all (internal_deletions c s) m) _
            (emit_all-Sent c s (internal_deletions c s) m
              (AllAllowed-replicate c s
                (header_occurrences c.host s.message internal_message_header)
                (deleted_header internal_message_header) (ground (arith, e)))
              ready)
            (λ m' ready'.
              finish_bypassed_message-Concludes internal_command_reply false false m' refl ready'))

  -- Progress may fail: the code goes on, or ends the session.
  pub ticks-Ready :
      (n : ℕ) (m : Ending) → Ready c s m → Ready c s (emit_all (replicate n progress) m).0
  unfolding emit_all
  ticks-Ready zero m ready = ready
  ticks-Ready (suc n) m ready =
      if-cases (λ (o : Ending × Bool). Ready c s o.0) (emit progress m).1
        (λ e. ticks-Ready n (emit progress m).0 (emit-progress-Ready c s m ready))
        (λ e. emit-progress-Ready c s m ready)
