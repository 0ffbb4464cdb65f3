-- ===== src/Charts/Tests.antt =====
-- The charts on small data.
use prefixd.Base.{some, [], ◌∷◌, ◌≡◌, refl}
use prefixd.Base.Text.{codes}
use prefixd.Charts.{count_vectors, chart_data}
use prefixd.Base.{length}

three :
    count_vectors [] (codes "udp_flood" ∷ [] ∷ codes "udp_flood" ∷ [])
    ≡ (codes "udp_flood", 2) ∷ (codes "unknown", 1) ∷ []
unfolding count_vectors
three = refl

-- Times by the length of their texts.
two_buckets :
    chart_data length (some ((codes "22", 5) ∷ [])) (some ((codes "1", 3) ∷ (codes "22", 4) ∷ []))
    ≡ (codes "1", record { mitigations = 0; events = 3 })
      ∷ (codes "22", record { mitigations = 5; events = 4 })
      ∷ []
unfolding chart_data
two_buckets = refl
