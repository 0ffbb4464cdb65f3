-- ===== src/Api/Dedup.antt =====
-- Deduplication of requests in frontend/lib/api.ts: the cache against the requests under way.
use prefixd.Base.{
  ℕ, suc, ◌+◌, ◌<◌, false, Option, none, some, ◌∷◌, if◌then◌else◌, ◌==◌, arith, ◌≡◌, ◌≢◌, ◌⊎◌, refl,
  sym, ap, subst, ◌∙◌, inl, inr, Bool-cases, Option-cases, ==_iff,
}
use prefixd.Base.Text.{Text, codes, same, same_iff}
use prefixd.Base.Http.{Fetched}
use prefixd.Api.{
  Client, initial, lookup, fetch_api, remove_flight, schedule, settle, is_unauthorized,
  dispatch_auth_expired, cleanup, Step, calls, settles, cleans, ticks, Reach, here, next,
}
use prefixd.Api.Entries.{
  InFlight, IsDueIn, lookup-delete, In-delete, In-delete_ne, In-remove_flight, In-remove_flight_ne,
}

-- The cache, the requests under way and the timeouts agree.
pub record IsConsistent (c : Client) : Type 0 where
  -- A request that came through the cache is the one that the cache holds for its key.
  pub cached :
      (p : ℕ) (url : Text) → InFlight p (some url) c.flights → lookup url c.request_cache ≡ some p
  pub unique : (p : ℕ) (j k : Option Text) → InFlight p j c.flights → InFlight p k c.flights → j ≡ k
  pub fresh : (p : ℕ) (k : Option Text) → InFlight p k c.flights → p < c.next_promise
  -- A timeout deletes an entry that is there, and whose request has been answered.
  pub pending :
      (url : Text) (due : ℕ) → IsDueIn url due c.cleanups → lookup url c.request_cache ≢ none
  pub answered :
      (url : Text) (due p : ℕ) → IsDueIn url due c.cleanups → InFlight p (some url) c.flights → ⊥
  -- An entry is either under way or about to be deleted.
  pub live :
      (url : Text) (p : ℕ)
      → lookup url c.request_cache ≡ some p
      → InFlight p (some url) c.flights ⊎ ((due : ℕ) × IsDueIn url due c.cleanups)

abbrev miss : Client → Text → Client
miss c url = record c {
  request_cache = (url, c.next_promise) ∷ c.request_cache;
  flights = (c.next_promise, some url) ∷ c.flights;
  next_promise = suc c.next_promise;
}

abbrev other : Client → Client
other c = record c {
  flights = (c.next_promise, none) ∷ c.flights;
  next_promise = suc c.next_promise;
}

-- The request with this promise has been answered.
abbrev after_answer : Client → ℕ → ℕ → Option Text → Option ℕ → Client
after_answer c now p key timer = record c {
  flights = remove_flight p c.flights;
  cleanups = schedule now key c.cleanups;
  auth_expired_timer = timer;
}

module _ (c : Client) (v : IsConsistent c) where
  unused : (k : Option Text) → InFlight c.next_promise k c.flights → ⊥
  unused k m = absurd (omega (arith, v.fresh c.next_promise k m))

  unique_cons :
      (new : Option Text) (p : ℕ) (j k : Option Text)
      → InFlight p j ((c.next_promise, new) ∷ c.flights)
      → InFlight p k ((c.next_promise, new) ∷ c.flights)
      → j ≡ k
  unique_cons new p j k (inl e) (inl f) = ground arith
  unique_cons new p j k (inl e) (inr n) = absurd (unused k (ground arith))
  unique_cons new p j k (inr m) (inl f) = absurd (unused j (ground arith))
  unique_cons new p j k (inr m) (inr n) = v.unique p j k m n

  fresh_cons :
      (new : Option Text) (p : ℕ) (k : Option Text)
      → InFlight p k ((c.next_promise, new) ∷ c.flights)
      → p < suc c.next_promise
  fresh_cons new p k (inl e) = ground arith
  fresh_cons new p k (inr m) = omega (arith, v.fresh p k m)

  miss-IsConsistent : (url : Text) → lookup url c.request_cache ≡ none → IsConsistent (miss c url)
  unfolding lookup
  miss-IsConsistent url absent = record {
    cached = λ p u m. elim m [
      | inl e ↦ ground (arith, same_iff url u)
      | inr there ↦ ground (arith, same_iff url u, v.cached p u there)
    ];
    unique = unique_cons (some url);
    fresh = fresh_cons (some url);
    pending = λ u due m. ground (arith, same_iff url u, v.pending u due m);
    answered = λ u due p m f. elim f [
      | inl e ↦ ground (arith, v.pending u due m)
      | inr there ↦ v.answered u due p m there
    ];
    live = λ u p e. elim (Bool-cases (same url u)) [
      | inl is_new ↦ inl (inl (ground (arith, same_iff url u)))
      | inr is_old ↦ elim (v.live u p (ground arith)) [
        | inl there ↦ inl (inr there)
        | inr due ↦ inr due
      ]
    ];
  }

  other-IsConsistent : IsConsistent (other c)
  other-IsConsistent = record {
    cached = λ p u m. elim m [ inl e ↦ absurd (ground arith) | inr there ↦ v.cached p u there ];
    unique = unique_cons none;
    fresh = fresh_cons none;
    pending = v.pending;
    answered = λ u due p m f. elim f [
      | inl e ↦ absurd (ground arith)
      | inr there ↦ v.answered u due p m there
    ];
    live = λ u p e. elim (v.live u p e) [ inl there ↦ inl (inr there) | inr due ↦ inr due ];
  }

  fetched-IsConsistent : (method url : Text) → IsConsistent (fetch_api method url c).0
  unfolding fetch_api
  fetched-IsConsistent method url = elim (Bool-cases (same method (codes "GET"))) [
    | inl get ↦ rw get (elim (Option-cases (lookup url c.request_cache)) [
      | inl absent ↦ rw absent (miss-IsConsistent url absent)
      | inr (p, hit) ↦ rw hit v
    ])
    | inr other_method ↦ rw other_method other-IsConsistent
  ]

  scheduled_cases :
      (now : ℕ) (key : Option Text) (u : Text) (due : ℕ)
      → IsDueIn u due (schedule now key c.cleanups)
      → (key ≡ some u) ⊎ IsDueIn u due c.cleanups
  scheduled_cases now none u due m = inr m
  scheduled_cases now (some url) u due (inl e) = inl (ground arith)
  scheduled_cases now (some url) u due (inr there) = inr there

  scheduled_old :
      (now : ℕ) (key : Option Text) (u : Text) (due : ℕ)
      → IsDueIn u due c.cleanups
      → IsDueIn u due (schedule now key c.cleanups)
  scheduled_old now none u due m = m
  scheduled_old now (some url) u due m = inr m

  scheduled_new :
      (now : ℕ) (key : Option Text) (u : Text)
      → key ≡ some u
      → (due : ℕ) × IsDueIn u due (schedule now key c.cleanups)
  scheduled_new now none u e = absurd (ground arith)
  scheduled_new now (some url) u e = (now + 100, inl (ground arith))

  answer-IsConsistent :
      (now p : ℕ) (key : Option Text) (timer : Option ℕ)
      → InFlight p key c.flights
      → IsConsistent (after_answer c now p key timer)
  answer-IsConsistent now p key timer flying = record {
    cached = λ q u m. v.cached q u (In-remove_flight p q (some u) c.flights m).0;
    unique = λ q j k m n.
        v.unique q j k (In-remove_flight p q j c.flights m).0
          (In-remove_flight p q k c.flights n).0;
    fresh = λ q k m. v.fresh q k (In-remove_flight p q k c.flights m).0;
    pending = λ u due m. elim (scheduled_cases now key u due m) [
      | inl e ↦ ground (arith, v.cached p u (rw e at flying))
      | inr old ↦ v.pending u due old
    ];
    answered = λ u due q m f.
        let (there, other_promise) = In-remove_flight p q (some u) c.flights f in
        elim (scheduled_cases now key u due m) [
          | inl e ↦
              absurd
                (other_promise (ground (arith, v.cached p u (rw e at flying), v.cached q u there)))
          | inr old ↦ v.answered u due q old there
        ];
    live = λ u q e. elim (v.live u q e) [
      | inl there ↦ elim (Bool-cases (q == p)) [
        | inl same_promise ↦
            let is_p : q ≡ p = (==_iff q p).0 same_promise in
            inr (
              scheduled_new now key u (
                v.unique p key (some u) flying
                  (subst (λ r. InFlight r (some u) c.flights) is_p there)))
        | inr other_promise ↦
            inl (In-remove_flight_ne p q (some u) c.flights there (λ r. ground arith))
      ]
      | inr (due, m) ↦ inr (due, scheduled_old now key u due m)
    ];
  }

  cleanup-IsConsistent :
      (url : Text) (due : ℕ) → IsDueIn url due c.cleanups → IsConsistent (cleanup url c)
  unfolding cleanup
  cleanup-IsConsistent url due m = record {
    cached = λ p u f.
        lookup-delete u url c.request_cache
        ∙ ap (λ b. if b then none else lookup u c.request_cache) (not_it p u f)
        ∙ v.cached p u f;
    unique = v.unique;
    fresh = v.fresh;
    pending = λ u d n.
        let (there, ne) = In-delete url u d c.cleanups n in
        ground (arith, lookup-delete u url c.request_cache, v.pending u d there, same_iff url u);
    answered = λ u d p n f. v.answered u d p (In-delete url u d c.cleanups n).0 f;
    live = λ u p e. elim (Bool-cases (same url u)) [
      | inl is_it ↦ absurd (ground (arith, lookup-delete u url c.request_cache))
      | inr not_same ↦ elim (v.live u p (ground (arith, lookup-delete u url c.request_cache))) [
        | inl there ↦ inl there
        | inr (d, n) ↦
            inr (d, In-delete_ne url u d c.cleanups n (λ q. ground (arith, same_iff url u)))
      ]
    ];
  }
    where
      not_it : (p : ℕ) (u : Text) → InFlight p (some u) c.flights → same url u ≡ false
      not_it p u f = elim (Bool-cases (same url u)) [
        | inl e ↦ absurd (
            v.answered url due p m
              (subst (λ t. InFlight p (some t) c.flights) (sym ((same_iff url u).0 e)) f))
        | inr e ↦ e
      ]

settled_client :
    {A : Type 0} (now p : ℕ) (key : Option Text) (r : Fetched A) (c : Client)
    → (timer : Option ℕ) × ((settle now p key r c).0 ≡ after_answer c now p key timer)
unfolding settle
settled_client now p key r c = elim (Bool-cases (is_unauthorized r)) [
  | inl e ↦ rw e ((dispatch_auth_expired now c.auth_expired_timer).0, refl)
  | inr e ↦ rw e (c.auth_expired_timer, refl)
]

Step-IsConsistent : {c d : Client} → Step c d → IsConsistent c → IsConsistent d
Step-IsConsistent {c} (calls method url) v = fetched-IsConsistent c v method url
Step-IsConsistent {c} (settles now p key r m) v =
    let (timer, e) = settled_client now p key r c in
    rw e (answer-IsConsistent c v now p key timer m)
Step-IsConsistent {c} (cleans url due m) v = cleanup-IsConsistent c v url due m
Step-IsConsistent {c} (ticks now) v = record {
  cached = v.cached;
  unique = v.unique;
  fresh = v.fresh;
  pending = v.pending;
  answered = v.answered;
  live = v.live;
}

initial-IsConsistent : IsConsistent initial
unfolding lookup
initial-IsConsistent = record {
  cached = λ p u m. absurd m;
  unique = λ p j k m n. absurd m;
  fresh = λ p k m. absurd m;
  pending = λ u d m. absurd m;
  answered = λ u d p m f. m;
  live = λ u p e. cc;
}

-- Whatever calls, answers and timeouts come in whatever order, the cache, the requests under way and
-- the timeouts agree: a cached request under way is the one that the cache holds for its URL, a
-- timeout only deletes an entry whose request has been answered, and every entry is under way or
-- about to be deleted.
pub Reach-IsConsistent : {c : Client} → Reach initial c → IsConsistent c
Reach-IsConsistent here = initial-IsConsistent
Reach-IsConsistent (next r st) = Step-IsConsistent st (Reach-IsConsistent r)

-- In every client that can be reached, a GET of a URL whose request is under way starts nothing and
-- returns the promise of that request, so two requests under way for one URL are the same.
pub fetch_api_joins :
    {c : Client} (url : Text) (p : ℕ)
    → Reach initial c
    → InFlight p (some url) c.flights
    → (fetch_api (codes "GET") url c ≡ (c, p)) × ((q : ℕ) → InFlight q (some url) c.flights → q ≡ p)
unfolding fetch_api
fetch_api_joins {c} url p r m =
    let v = Reach-IsConsistent r in
    (ground (arith, v.cached p url m), λ q n. ground (arith, v.cached p url m, v.cached q url n))
