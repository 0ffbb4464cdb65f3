-- ===== src/Charts.antt =====
-- The data of the charts: frontend/components/dashboard/vector-breakdown-chart.tsx and
-- frontend/components/dashboard/mitigation-activity-chart.tsx. An object of counts and a `Map` are
-- lists of entries in the order of their insertion.
pub mod Laws
mod Tests
use prefixd.Base.{
  ℕ, suc, ◌+◌, Bool, true, false, Option, none, some, List, [], ◌∷◌, if◌then◌else◌, or_else,
}
use prefixd.Base.Text.{Text, codes, same, truthy}
use prefixd.Table.{Sign, sign_of, sort}

-- `counts[vector] = (counts[vector] || 0) + 1`.
unfoldable pub bump : Text → List (Text × ℕ) → List (Text × ℕ)
bump vector [] = (vector, 1) ∷ []
bump vector ((v, n) ∷ l) =
    let rest = bump vector l in if same v vector then (v, suc n) ∷ l else (v, n) ∷ rest

-- `m.vector || "unknown"`.
abbrev pub vector_or : Text → Text
vector_or vector = if truthy vector then vector else codes "unknown"

-- The loop over the vectors of the mitigations.
unfoldable pub count_vectors : List (Text × ℕ) → List Text → List (Text × ℕ)
unfolding bump
count_vectors counts [] = counts
count_vectors counts (v ∷ l) = count_vectors (bump (vector_or v) counts) l

-- The numbers at one bucket of the activity.
pub record Point : Type 0 where
  pub mitigations : ℕ
  pub events : ℕ

abbrev pub BucketMap : Type 0
BucketMap = List (Text × Point)

-- `bucketMap.get(bucket)`.
abbrev pub get : Text → BucketMap → Option Point
get bucket [] = none
get bucket ((b, p) ∷ l) = if same b bucket then some p else get bucket l

-- `bucketMap.set(bucket, point)`.
unfoldable pub set : Text → Point → BucketMap → BucketMap
set bucket p [] = (bucket, p) ∷ []
set bucket p ((b, q) ∷ l) =
    let rest = set bucket p l in if same b bucket then (b, p) ∷ l else (b, q) ∷ rest

abbrev pub events_of : Option Point → ℕ
events_of none = 0
events_of (some p) = p.events

abbrev pub mitigations_of : Option Point → ℕ
mitigations_of none = 0
mitigations_of (some p) = p.mitigations

-- The loop over the buckets of the mitigations, and the one over those of the events.
unfoldable pub add_mitigations : List (Text × ℕ) → BucketMap → BucketMap
unfolding set
add_mitigations [] m = m
add_mitigations ((b, count) ∷ l) m =
    add_mitigations l (set b (record { mitigations = count; events = events_of (get b m) }) m)

unfoldable pub add_events : List (Text × ℕ) → BucketMap → BucketMap
unfolding set
add_events [] m = m
add_events ((b, count) ∷ l) m =
    add_events l (set b (record { mitigations = mitigations_of (get b m); events = count }) m)

-- The buckets of both, the oldest one first; `none` is the data that has not arrived.
unfoldable pub chart_data :
    (time_of : Text → ℕ) → Option (List (Text × ℕ)) → Option (List (Text × ℕ)) → BucketMap
unfolding add_mitigations add_events sort
chart_data time_of mitigation_data event_data =
    sort (λ a b. sign_of (time_of a.0) (time_of b.0))
      (add_events (or_else event_data []) (add_mitigations (or_else mitigation_data []) []))
