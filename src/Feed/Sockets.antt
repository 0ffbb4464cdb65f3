-- ===== src/Feed/Sockets.antt =====
-- What a write to the sockets of frontend/components/websocket-provider.tsx leaves to be read.
use prefixd.Base.{ℕ, List, [], ◌∷◌, arith, ◌==◌, Bool-cases, ◌≡◌, ◌≢◌, ◌⊎◌, refl, inl, inr}
use prefixd.Feed.{ReadyState, pending, live, closing, closed, ready, set_ready}

pub ready-set_self :
    (i : ℕ) (r : ReadyState) (l : List (ℕ × ReadyState))
    → ready i l ≢ closed
    → ready i (set_ready i r l) ≡ r
unfolding ready set_ready
ready-set_self i r [] h = absurd (h refl)
ready-set_self i r ((j, q) ∷ l) h = ground (arith, ready-set_self i r l)

pub ready-set_ne :
    (i j : ℕ) (r : ReadyState) (l : List (ℕ × ReadyState))
    → i ≢ j
    → ready j (set_ready i r l) ≡ ready j l
unfolding ready set_ready
ready-set_ne i j r [] h = refl
ready-set_ne i j r ((k, q) ∷ l) h = ground (arith, ready-set_ne i j r l h)

pub ready-close_self : (i : ℕ) (l : List (ℕ × ReadyState)) → ready i (set_ready i closed l) ≡ closed
unfolding ready set_ready
ready-close_self i [] = refl
ready-close_self i ((j, q) ∷ l) = ground (arith, ready-close_self i l)

pub same_number : (i j : ℕ) → (i ≡ j) ⊎ (i ≢ j)
same_number i j = ground (arith, Bool-cases (i == j))

pub is_closed : (r : ReadyState) → (r ≡ closed) ⊎ (r ≢ closed)
is_closed closed = inl refl
is_closed pending = inr (λ e. cc)
is_closed live = inr (λ e. cc)
is_closed closing = inr (λ e. cc)
