-- ===== src/Keys/Tests.antt =====
-- Two time series, one of them with what the other leaves out.
use prefixd.Base.{none, some, ◌≡◌, refl}
use prefixd.Base.Text.{Text, codes}
use prefixd.Api.Params.{MitigationParams, PageParams}
use prefixd.Keys.{key_of}
use prefixd.Keys.Requests.{Call, timeseries, events, hook_of, requests_of, filled}
use prefixd.Keys.Sharing.{requests_of-key_of}

abbrev plain : Text → Text
plain t = t

abbrev no_filter : MitigationParams
no_filter = record { status = none; customer_id = none; pop = none; limit = none; offset = none }

abbrev ten : PageParams
ten = record { limit = some 10; offset = none }

-- Texts for the parameters that are used here.
abbrev stringify : MitigationParams → Text
stringify p = codes "{}"

abbrev stringify_page : PageParams → Text
stringify_page p = codes "{\"limit\":10}"

abbrev parse : Text → MitigationParams
parse t = no_filter

abbrev parse_page : Text → PageParams
parse_page t = ten

abbrev bare : Call
bare = timeseries (record { metric = none; range = none; bucket = some (codes "1h") })

abbrev full : Call
full =
    timeseries
      (record { metric = some (codes "mitigations"); range = some (codes "24h"); bucket = none })

one_key :
    key_of (hook_of stringify stringify_page bare) ≡ key_of (hook_of stringify stringify_page full)
unfolding key_of
one_key = refl

requests_of-key_of_example :
    requests_of plain plain (filled bare) ≡ requests_of plain plain (filled full)
requests_of-key_of_example =
    requests_of-key_of plain plain stringify stringify_page parse parse_page bare full tt tt one_key

-- Two pages of events with the same limit.
ten_events :
    requests_of plain plain (filled (events (some ten)))
    ≡ requests_of plain plain (filled (events (some ten)))
ten_events =
    requests_of-key_of plain plain stringify stringify_page parse parse_page (events (some ten))
      (events (some ten)) refl refl refl
