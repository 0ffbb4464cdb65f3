-- ===== src/Admin/Invariant.antt =====
-- The flags of frontend/app/(dashboard)/admin/page.tsx against the calls that are under way.
use prefixd.Base.{
  ℕ, ◌+◌, Bool, true, false, Option, none, some, List, [], ◌∷◌, if◌then◌else◌, In, arith, ◌≡◌, refl,
  inl, inr, ap,
}
use prefixd.Base.Text.{Text}
use prefixd.Admin.{
  Call, adding, removing, reloading, creating, deleting, changing, World, initial, number,
  same_call, without, completed, handle_add_safelist, handle_reload_config, handle_create_user,
  handle_change_password, add_is_enabled, create_is_enabled, change_is_enabled, edit,
  set_new_prefix, set_new_reason, set_new_username, set_new_password, set_new_user_password,
  set_new_role, set_show_create_user, set_password_target, Step, edits, adds, removes, reloads,
  creates, deletes, changes, completes, lapses, Reach, here, next,
}

-- How many calls of a kind are under way.
unfoldable pub count : Call → List Call → ℕ
count call [] = 0
count call (c ∷ l) = (if same_call c call then 1 else 0) + count call l

abbrev pub flag : Bool → ℕ
flag true = 1
flag false = 0

-- A flag is set exactly while a call of its kind is under way, and then there is one.
pub record IsInStep (w : World) : Type 0 where
  pub adding_flag : count adding w.calls ≡ flag w.page.is_adding_safelist
  pub reloading_flag : count reloading w.calls ≡ flag w.page.is_reloading
  pub creating_flag : count creating w.calls ≡ flag w.page.is_creating_user
  pub changing_flag : count changing w.calls ≡ flag w.page.is_changing_password

count-without :
    (call c : Call) (l : List Call)
    → In call l
    → (if same_call call c then 1 else 0) + count c (without call l) ≡ count c l
unfolding count without
count-without call c [] m = absurd m
count-without call c (d ∷ l) (inl e) = ground (arith, ap number e)
count-without call c (d ∷ l) (inr m) = ground (arith, count-without call c l m)

counts-without :
    (call : Call) (l : List Call)
    → In call l
    → let kept = without call l in
      ((if same_call call adding then 1 else 0) + count adding kept ≡ count adding l)
      × ((if same_call call reloading then 1 else 0) + count reloading kept ≡ count reloading l)
      × ((if same_call call creating then 1 else 0) + count creating kept ≡ count creating l)
      × ((if same_call call changing then 1 else 0) + count changing kept ≡ count changing l)
counts-without call l m = (
  count-without call adding l m,
  count-without call reloading l m,
  count-without call creating l m,
  count-without call changing l m,
)

completed-IsInStep :
    (call : Call) (thrown : Option Text) (w : World)
    → In call w.calls
    → IsInStep w
    → IsInStep (record w { page = completed call thrown w.page; calls = without call w.calls })
unfolding completed
completed-IsInStep adding none w m v = ground (arith, counts-without adding w.calls m)
completed-IsInStep adding (some message) w m v = ground (arith, counts-without adding w.calls m)
completed-IsInStep removing none w m v = ground (arith, counts-without removing w.calls m)
completed-IsInStep removing (some message) w m v = ground (arith, counts-without removing w.calls m)
completed-IsInStep reloading none w m v = ground (arith, counts-without reloading w.calls m)
completed-IsInStep reloading (some message) w m v =
    ground (arith, counts-without reloading w.calls m)
completed-IsInStep creating none w m v = ground (arith, counts-without creating w.calls m)
completed-IsInStep creating (some message) w m v = ground (arith, counts-without creating w.calls m)
completed-IsInStep deleting none w m v = ground (arith, counts-without deleting w.calls m)
completed-IsInStep deleting (some message) w m v = ground (arith, counts-without deleting w.calls m)
completed-IsInStep changing none w m v = ground (arith, counts-without changing w.calls m)
completed-IsInStep changing (some message) w m v = ground (arith, counts-without changing w.calls m)

Step-IsInStep : {w w' : World} → Step w w' → IsInStep w → IsInStep w'
unfolding count edit handle_add_safelist handle_reload_config handle_create_user
    handle_change_password add_is_enabled create_is_enabled change_is_enabled
Step-IsInStep (edits (set_new_prefix t)) v = ground arith
Step-IsInStep (edits (set_new_reason t)) v = ground arith
Step-IsInStep (edits (set_new_username t)) v = ground arith
Step-IsInStep (edits (set_new_password t)) v = ground arith
Step-IsInStep (edits (set_new_user_password t)) v = ground arith
Step-IsInStep (edits (set_new_role r)) v = ground arith
Step-IsInStep (edits (set_show_create_user b)) v = ground arith
Step-IsInStep (edits (set_password_target o)) v = ground arith
Step-IsInStep (adds h) v = ground arith
Step-IsInStep (removes f prefix) v = ground arith
Step-IsInStep (reloads h) v = ground arith
Step-IsInStep (creates h) v = ground arith
Step-IsInStep (deletes op) v = ground arith
Step-IsInStep (changes h) v = ground arith
Step-IsInStep {w} (completes call thrown m) v = completed-IsInStep call thrown w m v
Step-IsInStep lapses v = ground arith

initial-IsInStep : IsInStep initial
unfolding count
initial-IsInStep = record {
  adding_flag = refl;
  reloading_flag = refl;
  creating_flag = refl;
  changing_flag = refl;
}

-- Whatever is typed, clicked and answered in whatever order, the flag of adding to the safelist, of
-- reloading, of creating a user and of changing a password is set exactly while a call of its kind is
-- under way, and there is one such call at most.
pub Reach-IsInStep : {w : World} → Reach initial w → IsInStep w
Reach-IsInStep here = initial-IsInStep
Reach-IsInStep (next before st) = Step-IsInStep st (Reach-IsInStep before)
