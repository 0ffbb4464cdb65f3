-- ===== src/Table/Export.antt =====
-- The exports of the tables: the headers and the rows that
-- frontend/components/dashboard/mitigations-content-live.tsx and
-- frontend/components/dashboard/audit-log-content-live.tsx hand to `downloadCsv`.
use prefixd.Base.{false, List, [], ◌∷◌, map, All, or_else, arith, ◌≡◌, ◌≢◌}
use prefixd.Base.Text.{Text, codes}
use prefixd.Csv.{make_safe, to_csv}
use prefixd.Csv.Reader.{read}
use prefixd.Csv.RoundTrip.{read-to_csv_feeds}
use prefixd.Table.Mitigations.{Mitigation}
use prefixd.Table.Audit.{AuditEntry}

abbrev pub mitigation_headers : List Text
mitigation_headers =
    codes "mitigation_id"
    ∷ codes "status"
    ∷ codes "victim_ip"
    ∷ codes "vector"
    ∷ codes "action_type"
    ∷ codes "customer_id"
    ∷ codes "created_at"
    ∷ codes "expires_at"
    ∷ []

abbrev pub mitigation_row : Mitigation → List Text
mitigation_row m =
    m.mitigation_id
    ∷ m.status
    ∷ m.victim_ip
    ∷ m.vector
    ∷ m.action_type
    ∷ or_else m.customer_id []
    ∷ m.created_at
    ∷ m.expires_at
    ∷ []

unfoldable pub export_mitigations : List Mitigation → Text
unfolding to_csv
export_mitigations mitigations = to_csv mitigation_headers (map mitigation_row mitigations)

abbrev pub audit_headers : List Text
audit_headers =
    codes "timestamp"
    ∷ codes "actor_type"
    ∷ codes "actor_id"
    ∷ codes "action"
    ∷ codes "target_type"
    ∷ codes "target_id"
    ∷ []

abbrev pub audit_row : AuditEntry → List Text
audit_row e =
    e.timestamp
    ∷ e.actor_type
    ∷ or_else e.actor_id []
    ∷ e.action
    ∷ or_else e.target_type []
    ∷ or_else e.target_id []
    ∷ []

unfoldable pub export_logs : List AuditEntry → Text
unfolding to_csv
export_logs logs = to_csv audit_headers (map audit_row logs)

pub rows-some :
    {A : Type 0} (row : A → List Text) (l : List A)
    → ((a : A) → row a ≢ [])
    → All (λ r. r ≢ []) (map row l)
rows-some row [] h = tt
rows-some row (a ∷ l) h = (h a, rows-some row l h)

-- A CSV reader that ends rows at line feeds alone gets from an export the headers and, for each row of the table in its order, the cells
-- of the row in their places, with the apostrophe where one was put in front.
pub exports_lem :
    (mitigations : List Mitigation) (logs : List AuditEntry)
    → (read false (export_mitigations mitigations)
        ≡ map (map make_safe) (mitigation_headers ∷ map mitigation_row mitigations))
      × (read false (export_logs logs) ≡ map (map make_safe) (audit_headers ∷ map audit_row logs))
unfolding export_mitigations export_logs
exports_lem mitigations logs = (
  read-to_csv_feeds mitigation_headers (map mitigation_row mitigations)
      ((λ e. ground arith), rows-some mitigation_row mitigations (λ m e. ground arith)),
  read-to_csv_feeds audit_headers (map audit_row logs)
      ((λ e. ground arith), rows-some audit_row logs (λ m e. ground arith)),
)
