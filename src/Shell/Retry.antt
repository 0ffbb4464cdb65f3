-- ===== src/Shell/Retry.antt =====
-- When a data hook asks again after an error, `onErrorRetry` of frontend/components/swr-provider.tsx.
-- How swr counts the retries is an argument: it gives the handler the count that the handler gave to
-- `revalidate` before, or 0, counted up.
use prefixd.Base.{
  ℕ, zero, suc, ◌*◌, ◌≤◌, ◌<◌, Bool, true, false, Option, none, some, List, [], ◌∷◌, ◌++◌, All,
  if◌then◌else◌, leb, length, Bool-cases, inl, inr, ◌⊎◌, arith, ◌≡◌, refl, ap,
}
use Prim.Native.Nat.{◌^◌}
use prefixd.Base.Text.{Text, codes}
use prefixd.Table.{text_includes}

-- The milliseconds until it asks again; `none` gives up.
unfoldable pub on_error_retry : (message : Text) → (retry_count : ℕ) → Option ℕ
unfolding text_includes
on_error_retry message retry_count =
    if text_includes message (codes "401")
    then none
    else if leb 3 retry_count
    then none
    else some (5000 * 2 ^ retry_count)

-- Whether `onError` writes to the console.
unfoldable pub is_logged : (message : Text) → Bool
unfolding text_includes
is_logged message = if text_includes message (codes "401") then false else true

power_bounds : (n : ℕ) → 1 ≤ n → n < 3 → (10000 ≤ 5000 * 2 ^ n) × (5000 * 2 ^ n ≤ 20000)
power_bounds zero h k = absurd (omega (arith, h))
power_bounds (suc zero) h k = (omega arith, omega arith)
power_bounds (suc (suc zero)) h k = (omega arith, omega arith)
power_bounds (suc (suc (suc n))) h k = absurd (omega (arith, k))

-- The delays from an error on, by the delay that follows it.
abbrev pub following : Option ℕ → List ℕ → List ℕ
following none rest = []
following (some d) rest = d ∷ rest

gives_up :
    (message : Text) (n : ℕ)
    → text_includes message (codes "401") ≡ true
    → on_error_retry message n ≡ none
unfolding on_error_retry
gives_up message n refused = ground (arith, refused)

too_often :
    (message : Text) (n : ℕ)
    → text_includes message (codes "401") ≡ false
    → leb 3 n ≡ true
    → on_error_retry message n ≡ none
unfolding on_error_retry
too_often message n fine often = ground (arith, fine, often)

asks_again :
    (message : Text) (n : ℕ)
    → text_includes message (codes "401") ≡ false
    → leb 3 n ≡ false
    → on_error_retry message n ≡ some (5000 * 2 ^ n)
unfolding on_error_retry
asks_again message n fine few = ground (arith, fine, few)

module _ (counted : ℕ → ℕ) where
  -- The delays of a run of errors, one message for each, after that many retries.
  unfoldable pub delays : ℕ → List Text → List ℕ
  unfolding on_error_retry
  delays n [] = []
  delays n (message ∷ l) =
      let rest = delays (counted n) l in following (on_error_retry message (counted n)) rest

  none_after : (n : ℕ) (l : List Text) → 2 ≤ n → ((m : ℕ) → m < counted m) → delays n l ≡ []
  unfolding delays on_error_retry
  none_after n [] h up = refl
  none_after n (message ∷ l) h up = ground (arith, up n)

  -- A delay of ten to twenty seconds.
  abbrev pub IsDelay : ℕ → Type 0
  IsDelay d = (10000 ≤ d) × (d ≤ 20000)

  abbrev OneMore : ℕ → List Text → Type 0
  OneMore n l =
      (delays n l ≡ [])
      ⊎ ((d : ℕ) × (rest : List Text) × (delays n l ≡ d ∷ delays (counted n) rest)
          × IsDelay d
          × (counted n < 3))

  one_more : (n : ℕ) (l : List Text) → ((m : ℕ) → m < counted m) → OneMore n l
  unfolding delays
  one_more n [] up = inl refl
  one_more n (message ∷ l) up = elim (Bool-cases (text_includes message (codes "401"))) [
    | inl refused ↦
        inl (ap (λ o. following o (delays (counted n) l)) (gives_up message (counted n) refused))
    | inr fine ↦ elim (Bool-cases (leb 3 (counted n))) [
      | inl often ↦
          inl (
            ap (λ o. following o (delays (counted n) l)) (too_often message (counted n) fine often))
      | inr few ↦ inr (
        5000 * 2 ^ counted n,
        l,
        ap (λ o. following o (delays (counted n) l)) (asks_again message (counted n) fine few),
        power_bounds (counted n) (omega (arith, up n)) (ground arith),
        ground arith,
      )
    ]
  ]

  -- Whatever errors come one after the other, a hook asks again twice at most, each time after ten to
  -- twenty seconds, and never after an answer of 401, if swr counts the retries up.
  pub delays_lem :
      (l : List Text) (text : Text)
      → ((m : ℕ) → m < counted m)
      → (length (delays 0 l) ≤ 2)
        × All IsDelay (delays 0 l)
        × ((n : ℕ) → delays n ((codes "API error 401: " ++ text) ∷ l) ≡ [])
  unfolding delays on_error_retry text_includes
  delays_lem l text up = (by_first.0, by_first.1, λ n. refl)
    where
      by_second :
          (n : ℕ) (rest : List Text)
          → n < counted n
          → 1 ≤ n
          → (length (delays n rest) ≤ 1) × All IsDelay (delays n rest)
      by_second n rest more one = elim (one_more n rest up) [
        | inl e ↦ rw e (omega arith, tt)
        | inr (d, rest', e, h, few) ↦
            rw (e, none_after (counted n) rest' (omega (arith, more, one)) up)
              (omega arith, (h, tt))
      ]

      by_first : (length (delays 0 l) ≤ 2) × All IsDelay (delays 0 l)
      by_first = elim (one_more 0 l up) [
        | inl e ↦ rw e (omega arith, tt)
        | inr (d, rest, e, h, few) ↦
            let (short, good) = by_second (counted 0) rest (up (counted 0)) (omega (arith, up 0)) in
            rw e (omega (arith, short), (h, good))
      ]
