-- ===== src/Api/Entries.antt =====
-- What is left of the cache, of the timeouts and of the requests of frontend/lib/api.ts after a
-- removal.
use prefixd.Base.{
  ℕ, Option, none, List, [], ◌∷◌, if◌then◌else◌, ◌==◌, In, arith, ◌≡◌, ◌≢◌, inl, inr, Bool-cases,
}
use prefixd.Base.Text.{Text, same, same_iff}
use prefixd.Api.{lookup, delete, remove_flight}

abbrev pub InFlight : ℕ → Option Text → List (ℕ × Option Text) → Type 0
InFlight p k l = In {A = ℕ × Option Text} (p, k) l

abbrev pub IsDueIn : Text → ℕ → List (Text × ℕ) → Type 0
IsDueIn url due l = In {A = Text × ℕ} (url, due) l

pub lookup-delete :
    (k u : Text) (l : List (Text × ℕ))
    → lookup k (delete u l) ≡ (if same u k then none else lookup k l)
unfolding lookup delete
lookup-delete k u [] = ground arith
lookup-delete k u ((j, p) ∷ l) =
    ground (arith, lookup-delete k u l, same_iff j u, same_iff j k, same_iff u k)

pub In-delete :
    (url k : Text) (due : ℕ) (l : List (Text × ℕ))
    → IsDueIn k due (delete url l)
    → IsDueIn k due l × (k ≢ url)
unfolding delete
In-delete url k due [] m = absurd m
In-delete url k due ((j, d) ∷ l) m = elim (Bool-cases (same j url)) [
  | inl e ↦ let (there, other) = In-delete url k due l (rw e at m) in (inr there, other)
  | inr e ↦
      let m' : IsDueIn k due ((j, d) ∷ delete url l) = rw e at m in
      elim m' [
        | inl q ↦ (inl q, λ p. ground (arith, same_iff j url))
        | inr there ↦ let (found, other) = In-delete url k due l there in (inr found, other)
      ]
]

pub In-delete_ne :
    (url k : Text) (due : ℕ) (l : List (Text × ℕ))
    → IsDueIn k due l
    → k ≢ url
    → IsDueIn k due (delete url l)
unfolding delete
In-delete_ne url k due [] m h = absurd m
In-delete_ne url k due ((j, d) ∷ l) (inl q) h = ground (arith, same_iff j url)
In-delete_ne url k due ((j, d) ∷ l) (inr there) h = ground (arith, In-delete_ne url k due l there h)

pub In-remove_flight :
    (p q : ℕ) (k : Option Text) (l : List (ℕ × Option Text))
    → InFlight q k (remove_flight p l)
    → InFlight q k l × (q ≢ p)
unfolding remove_flight
In-remove_flight p q k [] m = absurd m
In-remove_flight p q k ((r, j) ∷ l) m = elim (Bool-cases (r == p)) [
  | inl e ↦ let (there, other) = In-remove_flight p q k l (rw e at m) in (inr there, other)
  | inr e ↦
      let m' : InFlight q k ((r, j) ∷ remove_flight p l) = rw e at m in
      elim m' [
        | inl same ↦ (inl same, λ s. ground arith)
        | inr there ↦ let (found, other) = In-remove_flight p q k l there in (inr found, other)
      ]
]

pub In-remove_flight_ne :
    (p q : ℕ) (k : Option Text) (l : List (ℕ × Option Text))
    → InFlight q k l
    → q ≢ p
    → InFlight q k (remove_flight p l)
unfolding remove_flight
In-remove_flight_ne p q k [] m h = absurd m
In-remove_flight_ne p q k ((r, j) ∷ l) (inl same) h = ground arith
In-remove_flight_ne p q k ((r, j) ∷ l) (inr there) h =
    ground (arith, In-remove_flight_ne p q k l there h)
