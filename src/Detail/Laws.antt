-- ===== src/Detail/Laws.antt =====
-- What the page of one mitigation shows.
use prefixd.Base.{
  ℕ, ◌+◌, ◌≤◌, ◌<◌, Bool, true, Option, none, some, List, [], ◌∷◌, if◌then◌else◌, leb, In, arith,
  ◌≡◌, ◌↔◌, ◌⊎◌, sym, ap, subst, Bool-cases, inl, inr,
}
use prefixd.Base.Text.{Text, codes, same_iff}
use prefixd.Session.{Auth}
use prefixd.Permissions.{Health, use_permissions}
use prefixd.Api.Types.{ConfigCustomer, ConfigService}
use prefixd.Detail.{
  Mitigation, mount, copy_to_clipboard, fire_due, pass, withdraw_is_shown, find, is_id, customer_of,
  service_of,
}

-- The button is shown exactly to those who may withdraw, for a mitigation that is active or escalated.
pub withdraw_is_shown_iff :
    (a : Auth) (h : Health) (m : Mitigation)
    → (withdraw_is_shown a h m ≡ true) ↔ (
        ((use_permissions a h).can_withdraw ≡ true)
        × ((m.status ≡ codes "active") ⊎ (m.status ≡ codes "escalated")))
unfolding withdraw_is_shown
withdraw_is_shown_iff a h m =
    ground (arith, same_iff m.status (codes "active"), same_iff m.status (codes "escalated"))

find_lem :
    {A : Type 0} (p : A → Bool) (l : List A) (x : A) → find p l ≡ some x → In x l × (p x ≡ true)
find_lem p [] x e = absurd (ground arith)
find_lem p (y ∷ l) x e = elim (Bool-cases (p y)) [
  | inl here ↦
      let same_one : y ≡ x = ground arith in
      (inl (sym same_one), subst (λ z. p z ≡ true) same_one here)
  | inr not_here ↦ let (there, fits) = find_lem p l x (ground arith) in (inr there, fits)
]

is_id_lem : (a : Text) (b : Option Text) → is_id a b ≡ true → b ≡ some a
is_id_lem a none e = absurd (ground arith)
is_id_lem a (some b) e = ap some (sym ((same_iff a b).0 e))

-- The customer that is shown is one of the inventory whose id the mitigation has, and the service is
-- one of that customer's whose id it has.
pub customer_lem :
    (customers : List ConfigCustomer) (m : Mitigation) (c : ConfigCustomer) (s : ConfigService)
    → customer_of (some customers) m ≡ some c
    → service_of (some c) m ≡ some s
    → In c customers
      × (m.customer_id ≡ some c.customer_id)
      × In s c.services
      × (m.service_id ≡ some s.service_id)
unfolding customer_of service_of
customer_lem customers m c s e f =
    let (among, owns) = find_lem (λ k. is_id k.customer_id m.customer_id) customers c e in
    let (within, serves) = find_lem (λ k. is_id k.service_id m.service_id) c.services s f in
    (
      among,
      is_id_lem c.customer_id m.customer_id owns,
      within,
      is_id_lem s.service_id m.service_id serves,
    )

-- The mark of a copied field stays two seconds, unless another field was copied less than two seconds
-- before it: then it goes with the timeout of that one.
pub copied_lem :
    (first second : Text) (t u now : ℕ)
    → t ≤ u
    → u < t + 2000
    → u ≤ now
    → ((pass now (copy_to_clipboard u second mount)).copied
        ≡ (if leb (u + 2000) now then none else some second))
      × ((pass now (copy_to_clipboard u second (copy_to_clipboard t first mount))).copied
          ≡ (if leb (t + 2000) now then none else some second))
unfolding copy_to_clipboard fire_due
copied_lem first second t u now before soon after = (ground arith, ground arith)
