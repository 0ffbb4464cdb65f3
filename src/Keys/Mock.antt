-- ===== src/Keys/Mock.antt =====
-- The lists that the hooks of frontend/hooks/use-api.ts give in the demonstration mode; the sample data
-- are arguments.
use prefixd.Base.{
  ℕ, ◌≤◌, Bool, false, ◌||◌, Option, none, some, List, [], ◌∷◌, if◌then◌else◌, ◌==◌, any, keep,
  take, length, length-take, arith, ◌≡◌, ◌≢◌,
}
use prefixd.Base.Text.{Text, codes, same, truthy}
use prefixd.Api.Params.{MitigationParams, PageParams}
use prefixd.Table.Mitigations.{Mitigation}

-- `if (limit) result = result.slice(0, limit)`.
abbrev pub limited : {A : Type 0} → Option ℕ → List A → List A
limited none l = l
limited (some n) l = if n == 0 then l else take n l

abbrev pub with_status : Option (List Text) → List Mitigation → List Mitigation
with_status none l = l
with_status (some wanted) l = keep (λ m. any (λ s. same s m.status) wanted) l

abbrev pub is_of : Text → Option Text → Bool
is_of customer none = false
is_of customer (some id) = same id customer

abbrev pub with_customer : Option Text → List Mitigation → List Mitigation
with_customer none l = l
with_customer (some id) l = if truthy id then keep (λ m. is_of id m.customer_id) l else l

unfoldable pub mock_mitigations : List Mitigation → Option MitigationParams → List Mitigation
mock_mitigations samples none = samples
mock_mitigations samples (some p) =
    limited p.limit (with_customer p.customer_id (with_status p.status samples))

-- The events and the audit log.
unfoldable pub mock_page : {A : Type 0} → List A → Option PageParams → List A
mock_page samples none = samples
mock_page samples (some p) = limited p.limit samples

-- `find(…) || mockMitigations[0]`.
unfoldable pub mock_mitigation : List Mitigation → Text → Option Mitigation
mock_mitigation samples id = first_of (keep (λ m. same m.mitigation_id id) samples) samples
  where
    first_of : List Mitigation → List Mitigation → Option Mitigation
    first_of (m ∷ found) l = some m
    first_of [] (m ∷ l) = some m
    first_of [] [] = none

-- The mitigations of the dashboard.
unfoldable pub mock_dashboard : List Mitigation → List Mitigation
mock_dashboard samples =
    keep (λ m. same m.status (codes "active") || same m.status (codes "escalated")) samples

length-limited : {A : Type 0} (n : ℕ) (l : List A) → n ≢ 0 → length (limited (some n) l) ≤ n
length-limited n l h = ground (arith, length-take n l)

-- A limit other than 0 bounds the list that is given.
pub mock_mitigations-limit :
    (samples : List Mitigation) (p : MitigationParams) (n : ℕ)
    → p.limit ≡ some n
    → n ≢ 0
    → length (mock_mitigations samples (some p)) ≤ n
unfolding mock_mitigations
mock_mitigations-limit samples p n e h =
    rw e (length-limited n (with_customer p.customer_id (with_status p.status samples)) h)
