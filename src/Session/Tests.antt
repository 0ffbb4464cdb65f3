-- ===== src/Session/Tests.antt =====
-- Sequences of completed calls of the session provider (frontend/hooks/use-auth.tsx).
use prefixd.Base.{none, some, [], ◌∷◌, ◌≡◌, refl}
use prefixd.Base.Text.{Text, codes}
use prefixd.Base.Http.{ok, err, Fetched, rejected, responded}
use prefixd.Session.{viewer, Operator, mounted, logged_in, logged_out, initial, run, step}

abbrev bob : Operator
bob = record { id = codes "op-2"; username = codes "bob"; role = viewer }

abbrev granted : Fetched Operator
granted = responded (record { status = 200; text = []; json = ok bob })

abbrev denied : Fetched Operator
denied = responded (record { status = 401; text = codes "no"; json = err (codes "bad json") })

-- The first refresh, sent before the login, completes after it and signs the operator out again.
late_refresh : (run initial (logged_in granted ∷ mounted denied ∷ [])).operator ≡ none
unfolding run step
late_refresh = refl

-- A logout that the server refuses still clears the operator; one that never reached it does not.
refused_logout :
    ((run initial (
        logged_in granted
        ∷ logged_out (responded (record { status = 500; text = []; json = ok tt }))
        ∷ [])).operator
      ≡ none)
    × ((run initial (logged_in granted ∷ logged_out (rejected []) ∷ [])).operator ≡ some bob)
unfolding run step
refused_logout = (refl, refl)
