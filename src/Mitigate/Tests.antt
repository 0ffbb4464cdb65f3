-- ===== src/Mitigate/Tests.antt =====
-- The dialog on small forms.
use prefixd.Base.{ap, ℕ, true, false, none, some, [], ◌≡◌, ◌↔◌, ◌⊎◌, refl}
use prefixd.Base.Text.{Text, codes}
use prefixd.Base.Decimal.{to_decimal, value_from, value_from-to_decimal}
use prefixd.Base.Numbers.{Number}
use prefixd.Api.Types.{IngestEventRequest}
use prefixd.Api.Endpoints.{ingest_event}
use prefixd.Mitigate.{
  MitigateDialog, closed, is_valid_ipv4, is_valid, click_submit, cancel, open_change,
}
use prefixd.Mitigate.Addresses.{IsAddress, is_valid_ipv4_iff}
use prefixd.Mitigate.Ports.{natural}
use prefixd.Mitigate.Submission.{IsAcceptable, click_submit_lem}

-- A reader of texts of digits.
abbrev reads : Text → Number
unfolding value_from
reads text = natural (value_from 0 text)

leading_zeros : is_valid_ipv4 (codes "010.0.0.1") ≡ true
unfolding is_valid_ipv4
leading_zeros = refl

too_large : is_valid_ipv4 (codes "192.0.2.256") ≡ false
unfolding is_valid_ipv4
too_large = refl

is_valid_ipv4_iff_example :
    (is_valid_ipv4 (codes "192.0.2.1") ≡ true) ↔ IsAddress (codes "192.0.2.1")
is_valid_ipv4_iff_example = is_valid_ipv4_iff (codes "192.0.2.1")

read_back : (n : ℕ) → reads (to_decimal n) ≡ natural n
unfolding reads
read_back n = ap natural (value_from-to_decimal n)

abbrev filled_in : MitigateDialog
filled_in = record closed {
  is_open = true;
  victim_ip = codes "192.0.2.1";
  vector = codes "udp_flood";
  ports = codes "53, 123";
  confidence = codes "1";
}

click_submit_lem_example :
    (((is_valid reads filled_in ≡ false) ⊎ (filled_in.is_submitting ≡ true))
      × (click_submit reads (codes "now") filled_in ≡ (filled_in, none)))
    ⊎ ((filled_in.is_submitting ≡ false)
        × (e : IngestEventRequest) × IsAcceptable e
        × (e.victim_ip ≡ filled_in.victim_ip)
        × (click_submit reads (codes "now") filled_in
            ≡ (record filled_in { is_submitting = true; error = none }, some (ingest_event e))))
click_submit_lem_example = click_submit_lem reads (codes "now") filled_in

-- A second click, while the first event is being submitted.
second_click :
    click_submit reads (codes "now") (record filled_in { is_submitting = true })
    ≡ (record filled_in { is_submitting = true }, none)
unfolding click_submit is_valid reads
second_click = refl

-- The form is valid.
filled_in_valid : is_valid reads filled_in ≡ true
unfolding is_valid reads
filled_in_valid = refl

-- Cancelling keeps the fields, and closing the dialog in another way empties them.
cancelled : (cancel filled_in).victim_ip ≡ codes "192.0.2.1"
unfolding cancel
cancelled = refl

escaped : (open_change false filled_in).victim_ip ≡ []
unfolding open_change
escaped = refl
