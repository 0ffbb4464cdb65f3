-- ===== src/Proxy/Laws.antt =====
-- What frontend/app/api/prefixd/[...path]/route.ts hands on.
use prefixd.Base.{Bool, Option, none, some, List, [], ◌∷◌, ◌++◌, if◌then◌else◌, ◌≡◌}
use prefixd.Base.Text.{Text}
use prefixd.Proxy.{Header, to_lower_case, same_name, Method, get}

-- The last value that a list of headers has for a name, after the ones before it.
abbrev pub last_from : Option Text → Text → List Header → Option Text
last_from o name [] = o
last_from o name ((n, v) ∷ l) = last_from (if same_name n name then some v else o) name l

abbrev pub last_value : Text → List Header → Option Text
last_value name headers = last_from none name headers

-- The values that a list of headers has for a name.
abbrev pub values_of : Text → List Header → List Text
values_of name [] = []
values_of name ((n, v) ∷ l) = if same_name n name then v ∷ values_of name l else values_of name l

abbrev pub listed : Option Text → List Text
listed none = []
listed (some v) = v ∷ []

-- A header that was copied has the last value that it had, and one that is skipped has none.
abbrev pub HandsOn : (Text → Bool) → List Header → List Header → Type 0
HandsOn skipped before after =
    (name : Text)
    → values_of name after
      ≡ (if skipped (to_lower_case name) then [] else listed (last_value name before))

-- The address that a method hands on.
abbrev pub address : Text → Method → Text → Text → Text
address prefixd_api get path search = prefixd_api ++ (b'/' ∷ (path ++ search))
address prefixd_api _ path search = prefixd_api ++ (b'/' ∷ path)
