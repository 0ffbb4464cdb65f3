-- ===== src/Overview/Tests.antt =====
-- The numbers of one mitigation that is active.
use prefixd.Base.{◌+◌, ◌≤◌, false, none, some, [], ◌∷◌, inl, ◌≡◌, refl, arith}
use prefixd.Base.Text.{codes}
use prefixd.Base.Decimal.{to_decimal}
use prefixd.Table.Mitigations.{Mitigation}
use prefixd.Overview.{
  police_actions, discard_actions, active_shown, actions_lem, bgp_text, other_texts,
}

abbrev mitigation : Mitigation
mitigation = record {
  mitigation_id = codes "m1";
  status = codes "active";
  customer_id = none;
  pop = codes "iad1";
  victim_ip = codes "192.0.2.1";
  vector = codes "udp_flood";
  action_type = codes "police";
  created_at = codes "2026-01-01T00:00:00Z";
  expires_at = codes "2026-01-01T00:02:00Z";
}

actions_lem_test :
    (police_actions (some (mitigation ∷ [])) + discard_actions (some (mitigation ∷ []))
      ≡ active_shown none (some (mitigation ∷ [])))
    × (police_actions (some (mitigation ∷ [])) + discard_actions (some (mitigation ∷ [])) ≤ 50)
    × (active_shown (some 120) (some (mitigation ∷ [])) ≡ 120)
actions_lem_test = actions_lem (mitigation ∷ []) 120 (inl refl, tt) (omega arith)

-- Nothing has arrived yet.
down_at_first : bgp_text none false ≡ codes "DOWN"
unfolding bgp_text
down_at_first = refl

two_pops : other_texts none (some 2) ≡ codes "2 POPs" ∷ []
unfolding other_texts to_decimal
two_pops = refl
