-- ===== src/Proxy.antt =====
-- The route that hands the dashboard's requests to the daemon,
-- frontend/app/api/prefixd/[...path]/route.ts. The framework gives the path as its segments and the
-- query with its question mark; a `Headers` object is a list of names and values, in the order of
-- `forEach`.
pub mod Laws
mod Tests
use prefixd.Base.{
  ℕ, ◌+◌, Bool, true, false, not, ◌&&◌, ◌||◌, Option, none, some, List, [], ◌∷◌, ◌++◌, map,
  if◌then◌else◌, ◌==◌, leb, any,
}
use prefixd.Base.Text.{Text, codes, same}
use prefixd.Base.Split.{join}
use prefixd.Base.Json.{Json, object, string, field, end}

abbrev pub Header : Type 0
Header = Text × Text

-- `key.toLowerCase()` of a header's name.
unfoldable pub to_lower_case : Text → Text
to_lower_case name = map (λ c. if leb b'A' c && leb c b'Z' then c + 32 else c) name

unfoldable pub same_name : Text → Text → Bool
unfolding to_lower_case
same_name a b = same (to_lower_case a) (to_lower_case b)

-- `headers.delete(name)`, which `set` starts with.
unfoldable pub without : Text → List Header → List Header
unfolding same_name
without name [] = []
without name ((n, v) ∷ l) =
    let rest = without name l in if same_name n name then rest else (n, v) ∷ rest

-- `headers.set(name, value)`.
unfoldable pub set : Text → Text → List Header → List Header
unfolding without
set name value headers = without name headers ++ ((name, value) ∷ [])

-- The loop that copies headers, but for those that are skipped, into the ones copied so far.
unfoldable pub copy : (Text → Bool) → List Header → List Header → List Header
unfolding set to_lower_case
copy skipped copied [] = copied
copy skipped copied ((key, value) ∷ l) =
    copy skipped (if skipped (to_lower_case key) then copied else set key value copied) l

abbrev pub is_host : Text → Bool
is_host key = same key (codes "host")

abbrev pub is_encoding : Text → Bool
is_encoding key =
    any (λ name. same name key) (codes "content-encoding" ∷ codes "transfer-encoding" ∷ [])

pub data Method : Type 0 where
  get post put delete : Method

pub record Incoming : Type 0 where
  pub method : Method
  pub path : List Text
  pub search : Text
  pub headers : List Header
  pub body : Option Text

-- What is given to `fetch`.
pub record Outgoing : Type 0 where
  pub url : Text
  pub method : Method
  pub headers : List Header
  pub body : Option Text

pub data Body : Type 0 where
  streamed : Option Text → Body
  json : Json → Body

pub record Reply : Type 0 where
  pub status : ℕ
  pub status_text : Text
  pub headers : List Header
  pub body : Body

-- `fullPath` of the four methods.
unfoldable pub full_path : Incoming → Text
unfolding join
full_path r =
    let path = b'/' ∷ join b'/' r.path in elim r.method [ get ↦ path ++ r.search | _ ↦ path ]

-- `proxyRequest` up to its `fetch`.
unfoldable pub proxy_request : (prefixd_api : Text) → Incoming → Outgoing
unfolding full_path copy
proxy_request prefixd_api r = record {
  url = prefixd_api ++ full_path r;
  method = r.method;
  headers = copy is_host [] r.headers;
  body = r.body;
}

pub record Answer : Type 0 where
  pub status : ℕ
  pub status_text : Text
  pub headers : List Header
  pub body : Option Text

-- The rest of `proxyRequest`; `none` is a `fetch` that throws.
unfoldable pub reply : Option Answer → Reply
unfolding copy
reply (some answer) = record {
  status = answer.status;
  status_text = answer.status_text;
  headers = copy is_encoding [] answer.headers;
  body = streamed answer.body;
}
reply none = record {
  status = 502;
  status_text = [];
  headers = (codes "content-type", codes "application/json") ∷ [];
  body = json (object (field (codes "error") (string (codes "Failed to connect to backend")) end));
}
