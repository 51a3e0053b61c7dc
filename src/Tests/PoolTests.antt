-- ===== src/Tests/PoolTests.antt =====
-- internal/client/tcp.go with two queries, one of which reads nothing, and a close between them.
use dns_automatic_traffic_sp.Base.{◌≡◌, refl, true, none, some, List, [], ◌∷◌}
use dns_automatic_traffic_sp.Client.Pool.{
  Script, Event, taken, exchanged, put, shut, init_pool, run,
}
use dns_automatic_traffic_sp.Client.Pool.Conserved.{IsConserved, run-IsConserved}
use dns_automatic_traffic_sp.Tests.Data.{plain_query}

abbrev answered_script : Script
answered_script = record {
  dial = none;
  redial = none;
  write = true;
  rewrite = true;
  read = some plain_query;
}

abbrev silent_script : Script
silent_script = record answered_script { read = none }

abbrev test_events : List Event
test_events =
    taken
    ∷ taken
    ∷ exchanged 0 plain_query answered_script
    ∷ exchanged 0 plain_query silent_script
    ∷ put 0
    ∷ shut
    ∷ put 0
    ∷ []

-- The first query has looked before the close and puts its connection back behind it.
left_open : (run test_events init_pool).live ≡ 0 ∷ []
unfolding run init_pool
left_open = refl

run-IsConserved_example : IsConserved (run test_events init_pool)
run-IsConserved_example = run-IsConserved test_events
