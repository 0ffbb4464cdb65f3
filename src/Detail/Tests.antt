-- ===== src/Detail/Tests.antt =====
-- The page of one mitigation on small runs.
use prefixd.Base.{◌∷◌, [], ℕ, none, some, ◌≡◌, refl}
use prefixd.Base.Text.{Text, codes}
use prefixd.Base.Decimal.{to_decimal}
use prefixd.Rates.{format_bps, format_bits}
use prefixd.Detail.Rule.{
  RuleShown, timeline, creation, update, withdrawal, ahead, event_hrefs, linked_events, ports_text,
  join_ports, update_text, rule_action,
}
use prefixd.Detail.{fire_due, mount, copy_to_clipboard, pass, withdrawn, protocol_name}

-- The second field was copied at 1500, and its mark goes at 2000.
early :
    (pass 2000
      (copy_to_clipboard 1500 (codes "id") (copy_to_clipboard 0 (codes "rule") mount))).copied
    ≡ none
unfolding copy_to_clipboard fire_due
early = refl

-- A dialog that was closed keeps the error of the failed withdrawal.
kept_error : (withdrawn (some (codes "HTTP 500")) mount).withdraw_error ≡ some (codes "HTTP 500")
unfolding withdrawn
kept_error = refl

protocols :
    (protocol_name none ≡ codes "any")
    × (protocol_name (some 17) ≡ codes "UDP")
    × (protocol_name (some 47) ≡ codes "47")
unfolding protocol_name
protocols = (refl, refl, refl)

-- What the daemon stores for a mitigation that has expired, and for one that is still active.
abbrev expired_rule : RuleShown
expired_rule = record {
  victim_ip = codes "203.0.113.10";
  vector = codes "udp_flood";
  action_type = codes "police";
  rate_bps = some 5000000;
  dst_ports = 53 ∷ 443 ∷ [];
  created_at = codes "1";
  updated_at = codes "3";
  expires_at = codes "2";
  withdrawn_at = some (codes "3");
  triggering_event_id = codes "e1";
  last_event_id = codes "e2";
}

abbrev first_code : Text → ℕ
first_code [] = 0
first_code (c ∷ t) = c

shown_as_withdrawn :
    timeline first_code 100 expired_rule
    ≡ (creation, codes "1") ∷ (update, codes "3") ∷ (withdrawal, codes "3") ∷ []
unfolding timeline
shown_as_withdrawn = refl

shown_as_active :
    timeline first_code 49 (record expired_rule { withdrawn_at = none; updated_at = codes "1" })
    ≡ (creation, codes "1") ∷ (ahead, codes "2") ∷ []
unfolding timeline
shown_as_active = refl

two_events : event_hrefs (λ t. t) expired_rule ≡ codes "/events?id=e1" ∷ codes "/events?id=e2" ∷ []
unfolding linked_events
two_events = refl

ports_and_action :
    (ports_text expired_rule.dst_ports ≡ codes "53, 443")
    × (ports_text [] ≡ codes "Any")
    × (update_text (λ d n k. codes "5.0") expired_rule ≡ codes "Rule updated to police (5.0 Mbps)")
    × (rule_action (λ d n k. codes "5.0") expired_rule ≡ codes "rate-limit 5.0 Mbps")
unfolding ports_text join_ports update_text rule_action format_bps format_bits to_decimal
ports_and_action = (refl, refl, refl, refl)
