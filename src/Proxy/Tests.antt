-- ===== src/Proxy/Tests.antt =====
-- The proxy on one request and one answer.
use prefixd.Base.{none, [], ◌∷◌, ◌≡◌, refl}
use prefixd.Base.Text.{codes}
use prefixd.Proxy.{Incoming, get, is_encoding, copy}
use prefixd.Proxy.Laws.{values_of}

abbrev asked : Incoming
asked = record {
  method = get;
  path = codes "v1" ∷ codes "stats" ∷ [];
  search = codes "?limit=5";
  headers = (codes "host", codes "dash") ∷ (codes "accept", codes "*/*") ∷ [];
  body = none;
}

-- Of two cookies that the daemon sets, the first one is lost.
two_cookies :
    values_of (codes "set-cookie") (
      copy is_encoding []
        ((codes "set-cookie", codes "a=1") ∷ (codes "set-cookie", codes "b=2") ∷ []))
    ≡ codes "b=2" ∷ []
unfolding copy
two_cookies = refl
