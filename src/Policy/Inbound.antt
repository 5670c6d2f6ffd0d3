-- ===== src/Policy/Inbound.antt =====
-- internal/milter/message_policy.go and authentication_results.go: what speaks for an inbound message. What the
-- evidence holds only for the prompt and the log is left out.
use milter_guard.Prelude.{Bool, false, ◌&&◌, ◌||◌, not, List, [], ◌∷◌, ltb, if◌then◌else◌}
use milter_guard.Prelude.Bytes.{Bytes, codes, bytes_eq}
use milter_guard.Session.State.{Session}
use milter_guard.Policy.State.{Evidence, Ending, Policy}
use milter_guard.Policy.Headers.{is_blank, from_header_count}
use milter_guard.Policy.Updates.{domain_matches, policy_envelope_recipients}

pub record InboundEvidence : Type 0 where
  pub recipients_complete : Bool
  pub trust_requirement_met : Bool
  pub known_correspondent : Bool
  pub bypass_ai : Bool
  pub allowed_sender_domain : Bytes

abbrev pub no_evidence : Evidence
no_evidence = record { dkim_aligned = false; spf_aligned = false; dmarc_aligned = false }

unfoldable pub meets_trust_requirement : Evidence → Bytes → Bool
meets_trust_requirement e requirement =
    if bytes_eq requirement (codes "spf")
    then e.spf_aligned
    else if bytes_eq requirement (codes "either")
    then e.dkim_aligned || e.spf_aligned
    else if bytes_eq requirement (codes "both")
    then e.dkim_aligned && e.spf_aligned
    else e.dkim_aligned

abbrev some_matches : Policy → Bytes → List Bytes → Bool
some_matches c domain [] = false
some_matches c domain (allowed ∷ rest) =
    domain_matches domain (c.dns_hostname allowed) || some_matches c domain rest

unfoldable pub allowed_sender_domain : Policy → Bytes → List Bytes → Bytes
allowed_sender_domain c from_domain domains =
    let domain = c.dns_hostname from_domain in
    if is_blank domain then [] else if some_matches c domain domains then domain else []

abbrev pub only_complete : Bool → InboundEvidence
only_complete complete = record {
  recipients_complete = complete;
  trust_requirement_met = false;
  known_correspondent = false;
  bypass_ai = false;
  allowed_sender_domain = [];
}

abbrev is_known : Policy → Bool → Bool × Bool → Bool
is_known c complete (known, all_matched) =
    if bytes_eq c.scope (codes "per_sender") && bytes_eq c.recipient_match (codes "all")
    then complete && all_matched
    else known

module _ (c : Policy) (s : Session) where
  abbrev trusted_domain : Bytes → Bool → Bytes
  trusted_domain sender_domain trusted =
      if not c.sender_domain_allowlist_require_authentication || trusted
      then allowed_sender_domain c sender_domain c.sender_domain_allowlist
      else []

  -- The last step, with the correspondents.
  abbrev with_correspondent : Bytes → Bool → Bool → Bytes → Ending → InboundEvidence
  with_correspondent sender complete trusted domain m =
      let known =
        is_known c complete (c.match_correspondent sender (policy_envelope_recipients c s m)) in
      record {
        recipients_complete = complete;
        trust_requirement_met = trusted;
        known_correspondent = c.use_allowlist && known;
        bypass_ai =
            c.use_allowlist
            && (c.bypass_ai
                && (complete && (known && (not c.require_authentication_for_bypass || trusted))));
        allowed_sender_domain = domain;
      }

  unfoldable pub prepare_inbound_evidence :
      Bytes → Bytes → Bool → Evidence → Ending → InboundEvidence
  prepare_inbound_evidence sender sender_domain complete e m =
      if s.authentication.authenticated || ltb 1 (from_header_count c.host s.message)
      then only_complete complete
      else let trusted = meets_trust_requirement e c.trust_requirement in
        with_correspondent sender complete trusted (trusted_domain sender_domain trusted) m
