-- ===== src/Tests/BootstrapTests.antt =====
-- internal/resolver/bootstrap.go with two servers, one of which fails.
use dns_automatic_traffic_sp.Base.{
  ◌≤◌, ℕ, zero, suc, ◌≡◌, refl, Bool, none, List, [], ◌∷◌, arith, if◌then◌else◌,
}
use dns_automatic_traffic_sp.Base.Text.{Text, codes, text_eq}
use dns_automatic_traffic_sp.Client.{client_error}
use dns_automatic_traffic_sp.Bootstrap.{
  Timed, lookup_budget, BootstrapServer, Lookup, found, not_found, Addresses, addresses,
  no_addresses, ask_server, first_address, lookup_with_retry,
}
use dns_automatic_traffic_sp.Bootstrap.Flights.{Event, asked, joined, Flight}
use dns_automatic_traffic_sp.Bootstrap.Rotation.{lookup_with_retry-found}

abbrev broken_server : BootstrapServer
broken_server = record { network = codes "udp"; address = codes "10.0.0.1:53" }

abbrev good_server : BootstrapServer
good_server = record { network = codes "tcp"; address = codes "10.0.0.2:53" }

-- The server that fails takes all its time.
abbrev test_query : BootstrapServer → Text → ℕ → Timed
test_query s host budget =
    if text_eq s.network (codes "tcp")
    then (addresses (codes "1.1.1.1" ∷ []), budget)
    else (no_addresses (client_error (codes "timeout")), budget)

test_query-taken :
    (s : BootstrapServer) (host : Text) (budget : ℕ) → (test_query s host budget).1 ≤ budget
test_query-taken s host budget = ground arith

abbrev no_query : Text → Addresses
no_query host = no_addresses (client_error (codes "no resolver"))

abbrev test_servers : List BootstrapServer
test_servers = broken_server ∷ good_server ∷ []

lookup_with_retry-found_example :
    (ip : Text) × ((lookup_with_retry test_query no_query test_servers lookup_budget 1
        (codes "dns.cn")).0
      ≡ found ip)
unfolding ask_server first_address text_eq
lookup_with_retry-found_example =
    lookup_with_retry-found test_query no_query test_query-taken test_servers 1 (codes "dns.cn")
      (codes "1.1.1.1") 1 good_server (omega arith) (omega arith) refl refl

abbrev test_is_ip : Text → Bool
test_is_ip t = text_eq t (codes "1.1.1.1")

-- The resolver works at the time 0 only.
abbrev test_gives : Text → ℕ → Lookup
test_gives host zero = found (codes "1.1.1.1")
test_gives host (suc t) = not_found (client_error (codes "refused"))

-- Two callers come at once, and share the resolution.
abbrev test_events : List (Event × ℕ)
test_events =
    (asked 0 (codes "dns.cn"), 0)
    ∷ (asked 1 (codes "dns.cn"), 0)
    ∷ (joined 0, 0)
    ∷ (joined 1, 0)
    ∷ []

abbrev flight : Flight
flight = record { host = codes "dns.cn"; outcome = none }
