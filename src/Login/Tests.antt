-- ===== src/Login/Tests.antt =====
-- Signing in on small runs.
use prefixd.Base.{false, none, some, [], ◌≡◌, refl}
use prefixd.Base.Text.{Text, codes}
use prefixd.Base.Http.{Fetched, rejected, responded, ok}
use prefixd.Session.{Operator, operator, Auth}
use prefixd.Permissions.{Health}
use prefixd.Login.{LoginPage, mount, attempt}

abbrev nobody : Auth
nobody = record { operator = none; is_loading = false }

abbrev healthy : Health
healthy = record {
  data_received =
      some
        (record { status = codes "healthy"; version = codes "1"; auth_mode = codes "credentials" });
  is_loading = false;
}

abbrev granted : Fetched Operator
granted = responded (record {
  status = 200;
  text = [];
  json = ok (record { id = codes "1"; username = codes "alice"; role = operator });
})

abbrev filled_in : LoginPage
filled_in = record mount { username = codes "alice"; password = codes "secret" }

-- An address that cannot be reached.
refused : (attempt (rejected (codes "Failed to fetch")) nobody filled_in).2 ≡ []
unfolding attempt
refused = refl
