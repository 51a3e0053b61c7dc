-- ===== src/Tests/WebTests.antt =====
-- A login, another user's logout, and a visit an hour later.
use dns_automatic_traffic_sp.Base.{◌≡◌, refl, true, false, some, List, [], ◌∷◌, arith}
use dns_automatic_traffic_sp.Base.Text.{codes, text_eq}
use dns_automatic_traffic_sp.Settings.{WebUi}
use dns_automatic_traffic_sp.Web.{check_auth}
use dns_automatic_traffic_sp.Web.Accepted.{
  Request, log_in, log_out, Before, run_requests, check_auth-issued,
}

abbrev console : WebUi
console = record { username = codes "admin"; password = codes "secret"; guest_mode = false }

abbrev requests : List Request
requests =
    record { action = log_out (some (codes "t2")); now = 110; later = 110 }
    ∷ record {
      action = log_in (codes "admin") (codes "secret") (codes "t1");
      now = 100;
      later = 101;
    }
    ∷ []

in_order : Before 3700 requests
in_order = (omega arith, omega arith, (omega arith, omega arith, tt))

check_auth-issued_example :
    (check_auth console (some (codes "t1")) 3700 3700 (run_requests console requests)).0 ≡ true
unfolding text_eq
check_auth-issued_example =
    check_auth-issued console (codes "t1") requests 3700 3700 refl in_order (omega arith)
