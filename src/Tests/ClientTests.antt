-- ===== src/Tests/ClientTests.antt =====
-- The race between two clients, the counters of one client, and the client subnet of a query.
use dns_automatic_traffic_sp.Base.{
  ℕ, ◌≡◌, ◌<◌, ◌^◌, refl, List, [], ◌∷◌, ◌++◌, arith, length, select,
}
use dns_automatic_traffic_sp.Base.Text.{codes}
use dns_automatic_traffic_sp.Dns.{subnet}
use dns_automatic_traffic_sp.Client.{
  Reply, answered, failed, client_error, context_error, deadline_exceeded, IsDefinite,
}
use dns_automatic_traffic_sp.Client.Race.{timer_fired, race_resolve}
use dns_automatic_traffic_sp.Client.Race.Definite.{race_resolve-IsDefinite}
use dns_automatic_traffic_sp.Client.Race.Order.{in_order, race_resolve-verdict}
use dns_automatic_traffic_sp.Client.Stats.{
  new_stats_client, observe_all, canceled_reply, failed_reply, observe_all-new_stats_client,
}
use dns_automatic_traffic_sp.Client.Ecs.{
  is_other, subnet_for, ensure_ecs, format_ecs, extract_ecs, options_of, ensure_ecs-extract_ecs,
}
use dns_automatic_traffic_sp.Tests.Library.{test_lib, test_lib-IsDnsLib, print_ip}
use dns_automatic_traffic_sp.Tests.Data.{plain_query, denial, answer_with, foreign_ip}

-- An error, a denial and a success arrive in this order.
abbrev replies : List Reply
replies =
    failed (client_error (codes "reset"))
    ∷ answered (denial 300)
    ∷ answered (answer_with foreign_ip)
    ∷ []

race_resolve-IsDefinite_example : IsDefinite (race_resolve 3 (λ i. timer_fired))
race_resolve-IsDefinite_example = race_resolve-IsDefinite 3 (λ i. timer_fired)

race_resolve-verdict_example : race_resolve 3 (in_order replies) ≡ answered (answer_with foreign_ip)
race_resolve-verdict_example =
    race_resolve-verdict (failed (client_error (codes "reset")))
      (answered (denial 300) ∷ answered (answer_with foreign_ip) ∷ [])

abbrev timed_replies : List (Reply × ℕ)
timed_replies =
    (failed (context_error deadline_exceeded), 5000)
    ∷ (failed (client_error (codes "reset")), 20)
    ∷ (answered (denial 300), 30)
    ∷ []

few_replies : length timed_replies < 2 ^ 64
few_replies = omega arith

observe_all-new_stats_client_example :
    let s =
      observe_all (new_stats_client (codes "1.1.1.1") (codes "udp") (codes "cn")) timed_replies in
    (s.total_queries ≡ 3)
    × (s.total_canceled ≡ length (select canceled_reply timed_replies))
    × (s.total_errors ≡ length (select failed_reply timed_replies))
observe_all-new_stats_client_example =
    observe_all-new_stats_client (codes "1.1.1.1") (codes "udp") (codes "cn") timed_replies
      few_replies

ensure_ecs-extract_ecs_example :
    (options_of (test_lib.is_edns0 (ensure_ecs test_lib plain_query foreign_ip))
      ≡ select is_other (options_of (test_lib.is_edns0 plain_query))
        ++ subnet (subnet_for foreign_ip) ∷ [])
    × (extract_ecs test_lib print_ip (ensure_ecs test_lib plain_query foreign_ip)
        ≡ format_ecs print_ip (subnet_for foreign_ip))
ensure_ecs-extract_ecs_example =
    ensure_ecs-extract_ecs test_lib print_ip plain_query foreign_ip foreign_ip test_lib-IsDnsLib
      refl refl
