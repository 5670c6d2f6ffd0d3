-- ===== src/Policy/Liveness.antt =====
-- internal/milter: the end of a message on a connection that takes every write.
pub mod Stages
pub mod Attachments
pub mod Endings
use milter_guard.Prelude.{
  ℕ, zero, suc, Bool, true, false, ◌&&◌, ◌||◌, not, Option, none, some, List, [], ◌∷◌, ◌++◌, ◌≡◌,
  refl, sym, subst, arith, if◌then◌else◌, if-cases, elim-cases, Bool-cases, inl, inr,
}
use milter_guard.Prelude.Bytes.{Bytes, codes, bytes_eq}
use milter_guard.Wire.Command.{action_add_headers, action_change_headers, put_u32}
use milter_guard.Wire.Frame.{Writer, write_all, write_frame}
use milter_guard.Session.Address.{canonical_ip}
use milter_guard.Session.State.{Session}
use milter_guard.Policy.State.{
  Action, action_accept, is_reject, is_accept, Response, Ending, Policy, enforces, offers, frame_of,
  emit, emit_all, on_success, unless_handled, response_for_action,
}
use milter_guard.Policy.Headers.{
  EvaluationResult, result_header_names, deletions, additions, add_headers, added_after,
  none_received, replace_result_headers, write_classification_headers,
  write_accepted_bypass_headers, accepted_result_headers, write_accepted_result_headers, is_blank,
}
use milter_guard.Policy.Updates.{
  domain_allowed, reputation_add, record_legitimate_ip, complete_sender_blocklist_removal,
  record_inbound_classification, limited_by_html, rejection_updates, legitimate_updates,
  learning_updates, correspondent_updates, apply_post_decision_updates,
}
use milter_guard.Policy.Senders.{deleted_recipients, write_policy_response}

-- The connection takes every write to come.
abbrev pub Open : Ending → Type 0
Open m = m.conn.script ≡ []

abbrev pub Done : Ending × Bool → Type 0
Done (m, sent) = (sent ≡ true) × Open m

write_all-open :
    (sent payload : Bytes)
    → ((write_all [] sent payload).1 ≡ true) × ((write_all [] sent payload).0.script ≡ [])
unfolding write_all
write_all-open sent [] = (refl, refl)
write_all-open sent (x ∷ xs) = (refl, refl)

write_frame-open :
    (sent payload : Bytes)
    → ((write_frame (record { sent = sent; script = [] }) payload).1 ≡ true)
      × ((write_frame (record { sent = sent; script = [] }) payload).0.script ≡ [])
unfolding write_frame write_all put_u32
write_frame-open sent payload = write_all-open _ payload

module _ (c : Policy) (s : Session) where
  pub emit-Done : (r : Response) (m : Ending) → Open m → Done (emit r m)
  unfolding emit
  emit-Done r m o =
      subst
        (λ script.
          ((write_frame (record { sent = m.conn.sent; script = script }) (frame_of r)).1 ≡ true)
          × ((write_frame (record { sent = m.conn.sent; script = script }) (frame_of r)).0.script
              ≡ []))
        (sym o) (write_frame-open m.conn.sent (frame_of r))

  pub on_success-Done :
      (o : Ending × Bool) (next : Ending → Ending × Bool)
      → Done o
      → ((m : Ending) → Open m → Done (next m))
      → Done (on_success o next)
  on_success-Done (m, true) next (t, o) f = f m o
  on_success-Done (m, false) next (t, o) f = absurd (cc)

  go_on :
      (o : Ending × Bool) (rs : List Response)
      → Done o
      → ((m : Ending) → Open m → Done (emit_all rs m))
      → Done (if o.1 then emit_all rs o.0 else (o.0, false))
  go_on (m, true) rs (t, o) f = f m o
  go_on (m, false) rs (t, o) f = absurd (cc)

  pub emit_all-Done : (rs : List Response) (m : Ending) → Open m → Done (emit_all rs m)
  unfolding emit_all
  emit_all-Done [] m o = (refl, o)
  emit_all-Done (r ∷ rs) m o =
      go_on (emit r m) rs (emit-Done r m o) (λ m' o'. emit_all-Done rs m' o')

  add_headers-Done :
      (headers : List (Bytes × Bytes)) (m : Ending) → Open m → Done (add_headers c s headers m)
  add_headers-Done headers m o =
      if-cases Done (offers action_add_headers s) (λ e. emit_all-Done (additions c s headers) m o)
        (λ e. (refl, o))

  added_after-Done :
      (headers : List (Bytes × Bytes)) (o : Ending × Bool)
      → Done o
      → Done (added_after c s headers o)
  added_after-Done headers (m, true) (t, o) = add_headers-Done headers m o
  added_after-Done headers (m, false) (t, o) = absurd (cc)

  pub replace_result_headers-Done :
      (headers : List (Bytes × Bytes)) (m : Ending)
      → Open m
      → Done (replace_result_headers c s headers m)
  unfolding replace_result_headers
  replace_result_headers-Done headers m o =
      if-cases Done (offers action_change_headers s)
        (λ e. added_after-Done headers _ (emit_all-Done (deletions c s result_header_names) m o))
        (λ e.
          if-cases Done (none_received c s (deletions c s result_header_names))
            (λ n. add_headers-Done headers m o) (λ n. (refl, o)))

  pub write_classification_headers-Done :
      (classification action : Bytes) (m : Ending)
      → Open m
      → Done (write_classification_headers c s classification action m)
  unfolding write_classification_headers
  write_classification_headers-Done classification action m o = replace_result_headers-Done _ m o

  pub write_accepted_bypass_headers-Done :
      (m : Ending) → Open m → Done (write_accepted_bypass_headers c s m)
  unfolding write_accepted_bypass_headers
  write_accepted_bypass_headers-Done m o =
      if-cases Done (not c.add_email_headers) (λ e. replace_result_headers-Done [] m o)
        (λ e. write_classification_headers-Done _ _ m o)

  pub write_accepted_result_headers-Done :
      (r : EvaluationResult) (m : Ending) → Open m → Done (write_accepted_result_headers c s r m)
  unfolding write_accepted_result_headers
  write_accepted_result_headers-Done r m o =
      if-cases Done (not c.add_email_headers) (λ e. replace_result_headers-Done [] m o)
        (λ e. replace_result_headers-Done (accepted_result_headers c s r) m o)

  pub write_policy_response-Done :
      (selected : Action) (message : Bytes) (m : Ending)
      → Open m
      → Done (write_policy_response c s selected message m)
  unfolding write_policy_response
  write_policy_response-Done selected message m o =
      if-cases Done (not (is_accept selected))
        (λ e. emit-Done (response_for_action selected message) m o)
        (λ e.
          elim-cases Done m.pending_sender_blocks
            (λ e₁. emit-Done (response_for_action selected message) m o)
            (λ pending e₁.
              on_success-Done (emit_all (deleted_recipients pending.blocked_recipients) m)
                (emit (response_for_action selected message))
                (emit_all-Done (deleted_recipients pending.blocked_recipients) m o)
                (λ m' o'. emit-Done (response_for_action selected message) m' o')))

  -- The updates leave the connection as it is.
  pub reputation_add-Open : (m : Ending) → Open m → Open (reputation_add c s m)
  unfolding reputation_add
  reputation_add-Open m o =
      elim-cases Open s.peer_ip (λ e. o)
        (λ addr e.
          if-cases Open
            (not c.reputation_enabled || c.ip_allowed (canonical_ip addr) || domain_allowed c s)
            (λ e₁. o) (λ e₁. o))

  pub record_legitimate_ip-Open : (m : Ending) → Open m → Open (record_legitimate_ip c s m)
  unfolding record_legitimate_ip
  record_legitimate_ip-Open m o =
      elim-cases Open s.peer_ip (λ e. o)
        (λ addr e. if-cases Open (not c.reputation_enabled) (λ e₁. o) (λ e₁. o))

  pub removal-Open : (m : Ending) → Open m → Open (complete_sender_blocklist_removal c s m)
  unfolding complete_sender_blocklist_removal
  removal-Open m o = elim-cases Open m.pending_sender_blocks (λ e. o) (λ pending e. o)

  -- The updates after an analysis.
  rejection_updates-Open :
      (sender : Bytes) (r : EvaluationResult) (m : Ending)
      → Open m
      → Open (rejection_updates c s sender r m)
  rejection_updates-Open sender r m o =
      if-cases Open (not (is_reject r.selected)) (λ e. o)
        (λ e.
          if-cases Open (not s.authentication.authenticated && not (limited_by_html r))
            (λ e₁. reputation_add-Open _ o) (λ e₁. o))

  legitimate_updates-Open :
      (r : EvaluationResult) (m : Ending) → Open m → Open (legitimate_updates c s r m)
  legitimate_updates-Open r m o =
      if-cases Open
        (not s.authentication.authenticated
          && not r.failed
          && bytes_eq r.classification (codes "legitimate"))
        (λ e. record_legitimate_ip-Open m o) (λ e. o)

  learning_updates-Open :
      (r : EvaluationResult) (m : Ending) → Open m → Open (learning_updates c s r m)
  learning_updates-Open r m o =
      if-cases Open (is_accept r.selected && s.authentication.authenticated) (λ e. o) (λ e. o)

  correspondent_updates-Open :
      (sender : Bytes) (r : EvaluationResult) (trusted : Bool) (m : Ending)
      → Open m
      → Open (correspondent_updates c s sender r trusted m)
  unfolding record_inbound_classification
  correspondent_updates-Open sender r trusted m o =
      if-cases Open
        (not s.authentication.authenticated
          && not r.failed
          && not (is_blank sender)
          && not (limited_by_html r))
        (λ e.
          if-cases Open
            (bytes_eq r.classification (codes "legitimate")
              || bytes_eq r.classification (codes "unwanted"))
            (λ e₁. o) (λ e₁. o))
        (λ e. o)

  pub apply_post_decision_updates-Open :
      (sender : Bytes) (r : EvaluationResult) (trusted : Bool) (m : Ending)
      → Open m
      → Open (apply_post_decision_updates c s sender r trusted m)
  unfolding apply_post_decision_updates
  apply_post_decision_updates-Open sender r trusted m o =
      if-cases Open (not (enforces c)) (λ e. o)
        (λ e.
          if-cases Open r.incomplete_inspection
            (λ e₁. if-cases Open (is_reject r.selected) (λ e₂. o) (λ e₂. o))
            (λ e₁. correspondent_updates-Open sender r trusted _ (
              learning_updates-Open r _
                (legitimate_updates-Open r _ (rejection_updates-Open sender r m o)))))
