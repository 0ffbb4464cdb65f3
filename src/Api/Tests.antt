-- ===== src/Api/Tests.antt =====
-- The request layer on small runs.
use prefixd.Base.{ℕ, ◌+◌, ◌-◌, ◌<◌, none, some, List, [], ◌∷◌, In, arith, ◌≡◌, refl, inl}
use prefixd.Base.Text.{Text, codes}
use prefixd.Api.{Client, initial, fetch_api, lookup, Reach, here, next, calls}
use prefixd.Api.Entries.{InFlight}
use prefixd.Api.Dedup.{IsConsistent, Reach-IsConsistent, fetch_api_joins}
use prefixd.Base.Split.{IsFree}
use prefixd.Api.Query.{IsEncoding, read_query}
use prefixd.Api.Params.{MitigationParams, shown}
use prefixd.Api.Endpoints.{get_mitigations}
use prefixd.Api.Endpoints.Laws.{value_of, joined, present, get_mitigations_lem}
use prefixd.Api.Debounce.{announcements, announcements_lem, IsSpaced, IsCovered}

abbrev health : Text
health = codes "/api/prefixd/v1/health"

abbrev asked : Client
asked = (fetch_api (codes "GET") health initial).0

has_asked : Reach initial asked
has_asked = next here (calls (codes "GET") health)

asked_flight : InFlight 0 (some health) asked.flights
unfolding fetch_api lookup
asked_flight = inl refl

Reach-IsConsistent_example : IsConsistent asked
Reach-IsConsistent_example = Reach-IsConsistent has_asked

fetch_api_joins_example :
    (fetch_api (codes "GET") health asked ≡ (asked, 0))
    × ((q : ℕ) → InFlight q (some health) asked.flights → q ≡ 0)
fetch_api_joins_example = fetch_api_joins health 0 has_asked asked_flight

abbrev answers : List ℕ
answers = 10 ∷ 1000 ∷ 2500 ∷ []

two_events : announcements none answers ≡ (10 ∷ 2500 ∷ [])
unfolding announcements
two_events = refl

announcements_lem_example :
    IsSpaced 0 (announcements none answers)
    × ((t : ℕ) → In t answers → IsCovered t (announcements none answers))
announcements_lem_example =
    announcements_lem answers (omega arith, (omega arith, (omega arith, tt)))

-- An encoding that moves every unit past the separators.
abbrev shifted : Text → Text
shifted [] = []
shifted (c ∷ s) = (c + 100) ∷ shifted s

abbrev shifted_back : Text → Text
shifted_back [] = []
shifted_back (c ∷ s) = (c - 100) ∷ shifted_back s

shifted_undone : (t : Text) → shifted_back (shifted t) ≡ t
shifted_undone [] = refl
shifted_undone (c ∷ s) = cong2 (omega arith) (shifted_undone s)
  where
    cong2 : {a b : ℕ} {s t : Text} → a ≡ b → s ≡ t → a ∷ s ≡ b ∷ t
    cong2 p q = λ i. p i ∷ q i

shifted-IsFree : (sep : ℕ) → sep < 100 → (t : Text) → IsFree sep (shifted t)
shifted-IsFree sep h [] = tt
shifted-IsFree sep h (c ∷ s) = (ground arith, shifted-IsFree sep h s)

shifted-IsEncoding : IsEncoding shifted shifted_back
shifted-IsEncoding = record {
  undone = shifted_undone;
  no_ampersand = shifted-IsFree b'&' (omega arith);
  no_equals = shifted-IsFree b'=' (omega arith);
  no_question = shifted-IsFree b'?' (omega arith);
}

abbrev wanted : MitigationParams
wanted = record {
  status = some (codes "active" ∷ codes "escalated" ∷ []);
  customer_id = some (codes "acme");
  pop = some [];
  limit = some 100;
  offset = some 0;
}

get_mitigations_lem_example :
    let back = read_query shifted_back (get_mitigations shifted (some wanted)).url in
    (value_of (codes "status") back ≡ joined wanted.status)
    × (value_of (codes "customer_id") back ≡ present wanted.customer_id)
    × (value_of (codes "pop") back ≡ present wanted.pop)
    × (value_of (codes "limit") back ≡ shown wanted.limit)
    × (value_of (codes "offset") back ≡ shown wanted.offset)
get_mitigations_lem_example = get_mitigations_lem shifted shifted_back shifted-IsEncoding wanted
