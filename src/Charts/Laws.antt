-- ===== src/Charts/Laws.antt =====
-- What the charts show.
use prefixd.Base.{
  ℕ, suc, ◌+◌, Bool, true, false, Option, none, some, List, [], ◌∷◌, if◌then◌else◌, keep, length,
  arith, ◌≡◌, refl, ap, ◌∙◌,
}
use prefixd.Base.Text.{Text, same, same_iff}
use prefixd.Charts.{
  bump, vector_or, count_vectors, Point, BucketMap, get, set, events_of, mitigations_of,
  add_mitigations, add_events,
}

-- The count of a vector.
abbrev pub count_of : Text → List (Text × ℕ) → ℕ
count_of v [] = 0
count_of v ((w, n) ∷ l) = if same w v then n else count_of v l

abbrev pub total : List (Text × ℕ) → ℕ
total [] = 0
total ((w, n) ∷ l) = n + total l

same_left : (a b c : Text) → same a b ≡ true → same a c ≡ same b c
same_left a b c e = ap (λ t. same t c) ((same_iff a b).0 e)

same_right : (a b c : Text) → same b c ≡ true → same a b ≡ same a c
same_right a b c e = ap (λ t. same a t) ((same_iff b c).0 e)

count_of-bump :
    (v w : Text) (l : List (Text × ℕ))
    → count_of v (bump w l) ≡ (if same w v then suc (count_of v l) else count_of v l)
unfolding bump
count_of-bump v w [] = ground arith
count_of-bump v w ((u, n) ∷ l) =
    ground (arith, count_of-bump v w l, same_left u w v, same_right u w v)

total-bump : (w : Text) (l : List (Text × ℕ)) → total (bump w l) ≡ suc (total l)
unfolding bump
total-bump w [] = ground arith
total-bump w ((u, n) ∷ l) = ground (arith, total-bump w l)

-- The vectors of the mitigations that are counted under a name.
abbrev pub under : Text → List Text → List Text
under v l = keep (λ w. same (vector_or w) v) l

count_vectors_from :
    (v : Text) (counts : List (Text × ℕ)) (l : List Text)
    → (count_of v (count_vectors counts l) ≡ count_of v counts + length (under v l))
      × (total (count_vectors counts l) ≡ total counts + length l)
unfolding count_vectors
count_vectors_from v counts [] = (omega arith, omega arith)
count_vectors_from v counts (w ∷ l) =
    let (counted, summed) = count_vectors_from v (bump (vector_or w) counts) l in
    (
      ground (arith, counted, count_of-bump v (vector_or w) counts),
      omega (arith, summed, total-bump (vector_or w) counts),
    )

-- The chart counts each mitigation once: the count of a vector is the number of mitigations with that
-- vector, those without one under "unknown", and the counts add up to the number of mitigations.
pub count_vectors_lem :
    (v : Text) (l : List Text)
    → (count_of v (count_vectors [] l) ≡ length (under v l))
      × (total (count_vectors [] l) ≡ length l)
count_vectors_lem v l =
    let (counted, summed) = count_vectors_from v [] l in
    (omega (arith, counted), omega (arith, summed))

-- What was found later, or else the number, if it fits.
abbrev pub later : Option ℕ → Bool → ℕ → Option ℕ
later (some k) fits n = some k
later none fits n = if fits then some n else none

-- The last count of a bucket.
abbrev pub last_count : Text → List (Text × ℕ) → Option ℕ
last_count b [] = none
last_count b ((c, n) ∷ l) = later (last_count b l) (same c b) n

get-set :
    (b c : Text) (p : Point) (m : BucketMap)
    → get b (set c p m) ≡ (if same c b then some p else get b m)
unfolding set
get-set b c p [] = ground arith
get-set b c p ((d, q) ∷ m) = ground (arith, get-set b c p m, same_left d c b, same_right d c b)

with_mitigations : Option ℕ → Option Point → Option Point
with_mitigations none o = o
with_mitigations (some n) o = some (record { mitigations = n; events = events_of o })

with_events : Option ℕ → Option Point → Option Point
with_events none o = o
with_events (some n) o = some (record { mitigations = mitigations_of o; events = n })

step_mitigations :
    (o : Option ℕ) (fits : Bool) (n : ℕ) (old p : Option Point)
    → (fits ≡ true → old ≡ p)
    → with_mitigations o
        (if fits then some (record { mitigations = n; events = events_of old }) else p)
      ≡ with_mitigations (later o fits n) p
unfolding with_mitigations
step_mitigations none true n old p h =
    ap (λ q. some (record { mitigations = n; events = events_of q })) (h refl)
step_mitigations none false n old p h = refl
step_mitigations (some k) true n old p h =
    ap (λ q. some (record { mitigations = k; events = events_of q })) (h refl)
step_mitigations (some k) false n old p h = refl

step_events :
    (o : Option ℕ) (fits : Bool) (n : ℕ) (old p : Option Point)
    → (fits ≡ true → old ≡ p)
    → with_events o
        (if fits then some (record { mitigations = mitigations_of old; events = n }) else p)
      ≡ with_events (later o fits n) p
unfolding with_events
step_events none true n old p h =
    ap (λ q. some (record { mitigations = mitigations_of q; events = n })) (h refl)
step_events none false n old p h = refl
step_events (some k) true n old p h =
    ap (λ q. some (record { mitigations = mitigations_of q; events = k })) (h refl)
step_events (some k) false n old p h = refl

get-same : (b c : Text) (m : BucketMap) → same c b ≡ true → get c m ≡ get b m
get-same b c m e = ap (λ t. get t m) ((same_iff c b).0 e)

get-add_mitigations :
    (b : Text) (l : List (Text × ℕ)) (m : BucketMap)
    → get b (add_mitigations l m) ≡ with_mitigations (last_count b l) (get b m)
unfolding add_mitigations with_mitigations
get-add_mitigations b [] m = refl
get-add_mitigations b ((c, n) ∷ l) m =
    let put : Point = record { mitigations = n; events = events_of (get c m) } in
    get-add_mitigations b l (set c put m)
    ∙ ap (with_mitigations (last_count b l)) (get-set b c put m)
    ∙ step_mitigations (last_count b l) (same c b) n (get c m) (get b m) (get-same b c m)

get-add_events :
    (b : Text) (l : List (Text × ℕ)) (m : BucketMap)
    → get b (add_events l m) ≡ with_events (last_count b l) (get b m)
unfolding add_events with_events
get-add_events b [] m = refl
get-add_events b ((c, n) ∷ l) m =
    let put : Point = record { mitigations = mitigations_of (get c m); events = n } in
    get-add_events b l (set c put m)
    ∙ ap (with_events (last_count b l)) (get-set b c put m)
    ∙ step_events (last_count b l) (same c b) n (get c m) (get b m) (get-same b c m)

-- A bucket that is in neither list is not in the merged map; one that is in a list has the last count
-- of each list, 0 where the list does not have it.
abbrev pub merged : Option ℕ → Option ℕ → Option Point
merged none none = none
merged (some n) none = some (record { mitigations = n; events = 0 })
merged none (some k) = some (record { mitigations = 0; events = k })
merged (some n) (some k) = some (record { mitigations = n; events = k })

both : (o e : Option ℕ) → with_events e (with_mitigations o none) ≡ merged o e
unfolding with_events with_mitigations
both none none = refl
both none (some k) = refl
both (some n) none = refl
both (some n) (some k) = refl

-- The map of the activity has, for each bucket, the last count of the mitigations and the last count
-- of the events of that bucket, 0 where one of them is missing, and no other bucket.
pub buckets_lem :
    (b : Text) (mitigation_buckets event_buckets : List (Text × ℕ))
    → get b (add_events event_buckets (add_mitigations mitigation_buckets []))
      ≡ merged (last_count b mitigation_buckets) (last_count b event_buckets)
buckets_lem b mitigation_buckets event_buckets =
    get-add_events b event_buckets (add_mitigations mitigation_buckets [])
    ∙ ap (with_events (last_count b event_buckets)) (get-add_mitigations b mitigation_buckets [])
    ∙ both (last_count b mitigation_buckets) (last_count b event_buckets)
