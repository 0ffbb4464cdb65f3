-- ===== src/Api.antt =====
-- The request layer of frontend/lib/api.ts: `fetchApi` with its cache of pending requests, `doFetch`
-- with its errors, and the debounced "prefixd:auth-expired" event.
-- A promise is a number. `flights` holds the requests that have not been answered, with the cache key
-- of those that came through the cache; `cleanups` holds the timeouts that delete a key, with the
-- time at which they are due.
pub mod Types
pub mod Query
pub mod Params
pub mod Bodies
pub mod Endpoints
pub mod Entries
pub mod Dedup
pub mod Debounce
mod Tests
use prefixd.Base.{
  ℕ, suc, ◌+◌, Bool, true, false, Option, none, some, List, [], ◌∷◌, ◌++◌, if◌then◌else◌, ◌==◌, ltb,
  leb, In, ◌≡◌,
}
use prefixd.Base.Text.{Text, codes, same}
use prefixd.Base.Decimal.{to_decimal}
use prefixd.Base.Http.{Result, ok, err, Response, Fetched, rejected, responded, is_ok}

pub record Client : Type 0 where
  pub request_cache : List (Text × ℕ)
  pub flights : List (ℕ × Option Text)
  pub cleanups : List (Text × ℕ)
  pub next_promise : ℕ
  -- When the timeout of `authExpiredTimer` is due; `none` is null.
  pub auth_expired_timer : Option ℕ

abbrev pub initial : Client
initial = record {
  request_cache = [];
  flights = [];
  cleanups = [];
  next_promise = 0;
  auth_expired_timer = none;
}

-- `requestCache.get(key)`.
unfoldable pub lookup : Text → List (Text × ℕ) → Option ℕ
lookup key [] = none
lookup key ((k, p) ∷ l) = if same k key then some p else lookup key l

-- `requestCache.delete(key)`.
unfoldable pub delete : Text → List (Text × ℕ) → List (Text × ℕ)
delete key [] = []
delete key ((k, p) ∷ l) = if same k key then delete key l else (k, p) ∷ delete key l

-- `fetchApi`: the client afterwards, and the promise that is returned.
unfoldable pub fetch_api : Text → Text → Client → Client × ℕ
unfolding lookup
fetch_api method url c =
    let started = suc c.next_promise in
    if same method (codes "GET")
    then elim (lookup url c.request_cache) [
      | some cached ↦ (c, cached)
      | none ↦ (
        record c {
          request_cache = (url, c.next_promise) ∷ c.request_cache;
          flights = (c.next_promise, some url) ∷ c.flights;
          next_promise = started;
        },
        c.next_promise,
      )
    ]
    else (
      record c { flights = (c.next_promise, none) ∷ c.flights; next_promise = started },
      c.next_promise,
    )

-- `dispatchAuthExpired` at a time: the timer, and whether the event is dispatched.
unfoldable pub dispatch_auth_expired : ℕ → Option ℕ → Option ℕ × Bool
dispatch_auth_expired now (some due) = (some due, false)
dispatch_auth_expired now none = (some (now + 2000), true)

-- The timeout of `authExpiredTimer` fires once it is due.
unfoldable pub clear_due : ℕ → Option ℕ → Option ℕ
clear_due now none = none
clear_due now (some due) = if leb due now then none else some due

-- `doFetch`, once `fetch` has settled: the value or the error that is thrown.
unfoldable pub do_fetch : {A : Type 0} → Fetched A → Result A
do_fetch (rejected e) = err e
do_fetch (responded res) =
    if is_ok res.status
    then res.json
    else err (codes "API error " ++ (to_decimal res.status ++ (codes ": " ++ res.text)))

abbrev pub is_unauthorized : {A : Type 0} → Fetched A → Bool
is_unauthorized (rejected e) = false
is_unauthorized (responded res) = res.status == 401

unfoldable pub remove_flight : ℕ → List (ℕ × Option Text) → List (ℕ × Option Text)
remove_flight p [] = []
remove_flight p ((q, k) ∷ l) = if q == p then remove_flight p l else (q, k) ∷ remove_flight p l

-- `promise.finally(…)` of a request that came through the cache.
abbrev pub schedule : ℕ → Option Text → List (Text × ℕ) → List (Text × ℕ)
schedule now none l = l
schedule now (some url) l = (url, now + 100) ∷ l

-- A request settles: the client, whether the expiry of the session is announced, and the result.
unfoldable pub settle :
    {A : Type 0} → ℕ → ℕ → Option Text → Fetched A → Client → Client × Bool × Result A
unfolding dispatch_auth_expired do_fetch remove_flight
settle now p key r c =
    let (timer, announced) =
      if is_unauthorized r
      then dispatch_auth_expired now c.auth_expired_timer
      else (c.auth_expired_timer, false) in
    (
      record c {
        flights = remove_flight p c.flights;
        cleanups = schedule now key c.cleanups;
        auth_expired_timer = timer;
      },
      announced,
      do_fetch r,
    )

-- The timeout that `finally` set fires; the timeouts of its URL are taken off together.
unfoldable pub cleanup : Text → Client → Client
unfolding delete
cleanup url c = record c {
  request_cache = delete url c.request_cache;
  cleanups = delete url c.cleanups;
}

-- What can happen to the client, in any order.
pub data Step (c : Client) : Client → Type 1 where
  calls : (method url : Text) → Step c (fetch_api method url c).0
  settles :
      {A : Type 0} (now p : ℕ) (key : Option Text) (r : Fetched A)
      → In (p, key) c.flights
      → Step c (settle now p key r c).0
  cleans : (url : Text) (due : ℕ) → In (url, due) c.cleanups → Step c (cleanup url c)
  ticks : (now : ℕ) → Step c (record c { auth_expired_timer = clear_due now c.auth_expired_timer })

pub data Reach (c : Client) : Client → Type 1 where
  here : Reach c c
  next : {d e : Client} → Reach c d → Step d e → Reach c e
