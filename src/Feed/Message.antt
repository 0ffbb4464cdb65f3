-- ===== src/Feed/Message.antt =====
-- The messages of the feed: `onmessage` of frontend/components/websocket-provider.tsx, over the types
-- of frontend/hooks/use-websocket-types.ts. The data is parsed and not checked, so the type of a message
-- may be any text; src/ws/messages.rs has the texts that the daemon sends. The calls of `toast` and of `mutate` are the effects, in
-- order.
pub mod Revalidation
use prefixd.Base.{
  ℕ, Bool, true, false, ◌||◌, Option, none, some, List, [], ◌∷◌, ◌++◌, if◌then◌else◌, ◌==◌, any,
  ◌≡◌, refl,
}
use prefixd.Base.Text.{Text, codes, same, truthy, has_prefix}
use prefixd.Keys.{Key, name, array}

pub data WsMessageType : Type 0 where
  mitigation_created mitigation_updated mitigation_expired mitigation_withdrawn : WsMessageType
  event_ingested resync_required : WsMessageType

-- The text of a type, as it is declared.
abbrev pub type_name : WsMessageType → Text
type_name mitigation_created = codes "MitigationCreated"
type_name mitigation_updated = codes "MitigationUpdated"
type_name mitigation_expired = codes "MitigationExpired"
type_name mitigation_withdrawn = codes "MitigationWithdrawn"
type_name event_ingested = codes "EventIngested"
type_name resync_required = codes "ResyncRequired"

-- The text of the type in what the daemon sends: its enum is serialised with names in snake case.
abbrev pub daemon_type : WsMessageType → Text
daemon_type mitigation_created = codes "mitigation_created"
daemon_type mitigation_updated = codes "mitigation_updated"
daemon_type mitigation_expired = codes "mitigation_expired"
daemon_type mitigation_withdrawn = codes "mitigation_withdrawn"
daemon_type event_ingested = codes "event_ingested"
daemon_type resync_required = codes "resync_required"

-- The fields of `WsMessage.mitigation` that the handler reads.
pub record WsMitigation : Type 0 where
  pub mitigation_id : Text
  pub status : Text
  pub victim_ip : Text
  pub vector : Text
  pub action_type : Text

pub record WsMessage : Type 0 where
  pub type : Text
  pub mitigation : Option WsMitigation
  pub mitigation_id : Option Text
  pub reason : Option Text

pub data Level : Type 0 where
  info success warning failure : Level

-- Which keys a call of `mutate` revalidates: all, those of a family, or one.
pub data Selector : Type 0 where
  every : Selector
  family : Text → Selector
  exactly : Text → Selector

pub data Effect : Type 0 where
  notify : Level → Text → Option Text → Effect
  mutate : Selector → Effect

-- `id.split("-")[0]`.
abbrev pub before_dash : Text → Text
before_dash [] = []
before_dash (c ∷ s) = if c == b'-' then [] else c ∷ before_dash s

abbrev id_line : Text → Text
id_line id = codes "ID: " ++ (before_dash id ++ codes "...")

-- `message.mitigation_id && …`: the id is there and not empty.
abbrev given : Option Text → (Text → List Effect) → List Effect
given none f = []
given (some id) f = if truthy id then f id else []

abbrev with_mitigation : Option WsMitigation → (WsMitigation → List Effect) → List Effect
with_mitigation none f = []
with_mitigation (some m) f = f m

toasts : WsMessageType → WsMessage → List Effect
toasts mitigation_created m = with_mitigation m.mitigation λ x.
    notify failure (codes "Mitigation Created: " ++ x.victim_ip)
      (some (x.vector ++ (codes " • Action: " ++ x.action_type)))
    ∷ []
toasts mitigation_updated m = with_mitigation m.mitigation λ x.
    notify warning (codes "Mitigation Escalated: " ++ x.victim_ip)
      (some (x.vector ++ (codes " • New Action: " ++ x.action_type)))
    ∷ []
toasts mitigation_withdrawn m =
    given m.mitigation_id
      λ id. notify success (codes "Mitigation Withdrawn") (some (id_line id)) ∷ []
toasts mitigation_expired m =
    given m.mitigation_id λ id. notify info (codes "Mitigation Expired") (some (id_line id)) ∷ []
toasts _ m = []

abbrev pub is_mitigation_message : WsMessageType → Bool
is_mitigation_message mitigation_created = true
is_mitigation_message mitigation_updated = true
is_mitigation_message mitigation_expired = true
is_mitigation_message mitigation_withdrawn = true
is_mitigation_message _ = false

resync : WsMessageType → List Effect
resync resync_required =
    mutate every ∷ notify info (codes "Configuration reloaded from disk") none ∷ []
resync _ = []

ingested : WsMessageType → List Effect
ingested event_ingested = mutate (family (codes "events")) ∷ mutate (exactly (codes "stats")) ∷ []
ingested _ = []

-- The comparisons of the type; no text passes two of them.
unfoldable pub compared : Text → Option WsMessageType
compared type =
    if same type (codes "ResyncRequired")
    then some resync_required
    else if same type (codes "MitigationCreated")
    then some mitigation_created
    else if same type (codes "MitigationUpdated")
    then some mitigation_updated
    else if same type (codes "MitigationExpired")
    then some mitigation_expired
    else if same type (codes "MitigationWithdrawn")
    then some mitigation_withdrawn
    else if same type (codes "EventIngested")
    then some event_ingested
    else none

unfoldable pub effects_of : WsMessageType → WsMessage → List Effect
unfolding toasts resync ingested
effects_of t m =
    resync t
    ++ ((if is_mitigation_message t
          then toasts t m
            ++ (mutate (family (codes "mitigations")) ∷ mutate (exactly (codes "stats")) ∷ [])
          else [])
        ++ ingested t)

-- The body of `onmessage`, once the data is parsed.
unfoldable pub effects : WsMessage → List Effect
unfolding effects_of compared
effects m = elim (compared m.type) [ none ↦ [] | some t ↦ effects_of t m ]

-- `onmessage`: the last message, and the effects; `none` is data that does not parse, which is
-- logged only.
unfoldable pub on_message : Option WsMessage → Option WsMessage → Option WsMessage × List Effect
unfolding effects
on_message last none = (last, [])
on_message last (some m) = (some m, effects m)

-- `typeof key === "string" && key.startsWith(f) || Array.isArray(key) && key[0] === f`.
abbrev pub selects : Selector → Key → Bool
selects every k = true
selects (family f) (name s) = has_prefix f s
selects (family f) (array []) = false
selects (family f) (array (s ∷ l)) = same s f
selects (exactly s) (name t) = same t s
selects (exactly s) (array l) = false

unfoldable pub revalidated : List Effect → Key → Bool
revalidated [] k = false
revalidated (mutate s ∷ es) k = selects s k || revalidated es k
revalidated (notify l t d ∷ es) k = revalidated es k
