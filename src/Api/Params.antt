-- ===== src/Api/Params.antt =====
-- The search parameters of the requests in frontend/lib/api.ts.
use prefixd.Base.{ℕ, Option, none, some, List, [], ◌∷◌, if◌then◌else◌, ◌==◌}
use prefixd.Base.Text.{Text, codes}
use prefixd.Base.Decimal.{to_decimal}
use prefixd.Base.Split.{join}
use prefixd.Api.Query.{Entry, entry_if}

-- A number as a parameter, where it is not 0.
abbrev pub shown : Option ℕ → Option Text
shown none = none
shown (some n) = if n == 0 then none else some (to_decimal n)

pub record MitigationParams : Type 0 where
  pub status : Option (List Text)
  pub customer_id : Option Text
  pub pop : Option Text
  pub limit : Option ℕ
  pub offset : Option ℕ

pub record PageParams : Type 0 where
  pub limit : Option ℕ
  pub offset : Option ℕ

pub record TimeseriesParams : Type 0 where
  pub metric : Option Text
  pub range : Option Text
  pub bucket : Option Text

unfoldable pub status_entry : Option (List Text) → List Entry → List Entry
status_entry none rest = rest
status_entry (some []) rest = rest
status_entry (some (s ∷ l)) rest = (codes "status", join b',' (s ∷ l)) ∷ rest

unfoldable pub mitigation_entries : MitigationParams → List Entry
unfolding join entry_if status_entry
mitigation_entries p = status_entry p.status (
    entry_if (codes "customer_id") p.customer_id (
      entry_if (codes "pop") p.pop
        (entry_if (codes "limit") (shown p.limit) (entry_if (codes "offset") (shown p.offset) []))))

unfoldable pub page_entries : PageParams → List Entry
unfolding entry_if
page_entries p =
    entry_if (codes "limit") (shown p.limit) (entry_if (codes "offset") (shown p.offset) [])

unfoldable pub timeseries_entries : TimeseriesParams → List Entry
unfolding entry_if
timeseries_entries p =
    entry_if (codes "metric") p.metric
      (entry_if (codes "range") p.range (entry_if (codes "bucket") p.bucket []))
