-- ===== src/Keys/Sharing.antt =====
-- Hooks of frontend/hooks/use-api.ts that share a key of the cache ask for the same.
use prefixd.Base.{Option, none, some, [], ◌∷◌, if◌then◌else◌, ◌≡◌, refl, sym, ap, ◌∙◌}
use prefixd.Base.Text.{Text, codes, same}
use prefixd.Api.Params.{MitigationParams, PageParams}
use prefixd.Keys.{Key, name, array, key_of}
use prefixd.Keys.Requests.{
  Call, health, health_detail, stats, safelist, pops, dashboard, operators, config_settings,
  config_inventory, config_playbooks, alerting_config, mitigations, events, audit_log, mitigation,
  ip_history, timeseries, hook_of, requests_of, filled,
}

module _ (form_encode encode_uri_component : Text → Text) (stringify : MitigationParams → Text)
    (stringify_page : PageParams → Text) (parse : Text → MitigationParams)
    (parse_page : Text → PageParams) where
  -- The hook that a key of one name belongs to.
  named : Text → Call
  named t =
      if same t (codes "health")
      then health
      else if same t (codes "health-detail")
      then health_detail
      else if same t (codes "stats")
      then stats
      else if same t (codes "safelist")
      then safelist
      else if same t (codes "pops")
      then pops
      else if same t (codes "dashboard")
      then dashboard
      else if same t (codes "operators")
      then operators
      else if same t (codes "config-settings")
      then config_settings
      else if same t (codes "config-inventory")
      then config_inventory
      else if same t (codes "config-playbooks")
      then config_playbooks
      else if same t (codes "alerting-config")
      then alerting_config
      else if same t (codes "mitigations")
      then mitigations none
      else if same t (codes "events")
      then events none
      else audit_log none

  -- The hook that a key of a family and a parameter belongs to.
  of_family : Text → Text → Call
  of_family family param =
      if same family (codes "mitigations")
      then mitigations (some (parse param))
      else if same family (codes "events")
      then events (some (parse_page param))
      else if same family (codes "audit")
      then audit_log (some (parse_page param))
      else if same family (codes "mitigation")
      then mitigation (some param)
      else ip_history (some param)

  -- What is asked for under a key.
  call_under : Option Key → Call
  call_under none = mitigation none
  call_under (some (name t)) = named t
  call_under (some (array (family ∷ param ∷ []))) = of_family family param
  call_under (some (array (family ∷ metric ∷ range ∷ bucket ∷ []))) =
      timeseries (record { metric = some metric; range = some range; bucket = some bucket })
  call_under (some (array l)) = mitigation none

  -- JSON.parse gives back the parameters of the call that JSON.stringify was given.
  abbrev pub IsReadBack : Call → Type 0
  IsReadBack (mitigations (some p)) = parse (stringify p) ≡ p
  IsReadBack (events (some p)) = parse_page (stringify_page p) ≡ p
  IsReadBack (audit_log (some p)) = parse_page (stringify_page p) ≡ p
  IsReadBack _ = Unit

  asked :
      (c : Call)
      → IsReadBack c
      → requests_of form_encode encode_uri_component (filled c)
        ≡ requests_of form_encode encode_uri_component
            (call_under (key_of (hook_of stringify stringify_page c)))
  unfolding key_of requests_of call_under named of_family
  asked health back = refl
  asked health_detail back = refl
  asked stats back = refl
  asked safelist back = refl
  asked pops back = refl
  asked dashboard back = refl
  asked operators back = refl
  asked config_settings back = refl
  asked config_inventory back = refl
  asked config_playbooks back = refl
  asked alerting_config back = refl
  asked (mitigations none) back = refl
  asked (mitigations (some p)) back = rw back refl
  asked (events none) back = refl
  asked (events (some p)) back = rw back refl
  asked (audit_log none) back = refl
  asked (audit_log (some p)) back = rw back refl
  asked (mitigation none) back = refl
  asked (mitigation (some [])) back = refl
  asked (mitigation (some (x ∷ id))) back = refl
  asked (ip_history none) back = refl
  asked (ip_history (some [])) back = refl
  asked (ip_history (some (x ∷ ip))) back = refl
  asked (timeseries p) back = refl

  -- Two hooks that have the same key of the cache, or none, ask the daemon for the same, the time series
  -- with the values that its key has for what is missing, if JSON.parse gives back the parameters that
  -- JSON.stringify was given in both calls.
  pub requests_of-key_of :
      (c d : Call)
      → IsReadBack c
      → IsReadBack d
      → key_of (hook_of stringify stringify_page c) ≡ key_of (hook_of stringify stringify_page d)
      → requests_of form_encode encode_uri_component (filled c)
        ≡ requests_of form_encode encode_uri_component (filled d)
  requests_of-key_of c d back_c back_d same_key =
      asked c back_c
      ∙ ap (λ k. requests_of form_encode encode_uri_component (call_under k)) same_key
      ∙ sym (asked d back_d)
