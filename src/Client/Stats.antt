-- ===== src/Client/Stats.antt =====
-- StatsClient of internal/client/stats.go. Durations are microseconds; the average is taken of a
-- total below 2 ^ 63, where the signed division of the source is that of numbers.
use dns_automatic_traffic_sp.Base.{
  ℕ, ◌+◌, ◌/◌, ◌^◌, ◌≤◌, ◌<◌, ◌≡◌, ◌&&◌, not, Bool, true, false, Option, none, some, List, [], ◌∷◌,
  arith, if◌then◌else◌, length, select, inc64, add64, is_positive64, is_some,
}
use dns_automatic_traffic_sp.Base.Text.{Text}
use dns_automatic_traffic_sp.Client.{Error, Reply, context_error, all_failed, wrapped}

pub record StatsClient : Type 0 where
  pub address : Text
  pub protocol : Text
  pub group : Text
  pub total_queries : ℕ
  pub total_errors : ℕ
  pub total_canceled : ℕ
  pub total_duration : ℕ

unfoldable pub new_stats_client : Text → Text → Text → StatsClient
new_stats_client address protocol group = record {
  address = address;
  protocol = protocol;
  group = group;
  total_queries = 0;
  total_errors = 0;
  total_canceled = 0;
  total_duration = 0;
}

-- errors.Is for context.Canceled or context.DeadlineExceeded: `%w` is looked through, `%v` is not.
unfoldable pub is_context_error : Error → Bool
is_context_error (context_error c) = true
is_context_error (all_failed e) = is_context_error e
is_context_error (wrapped t e) = is_context_error e
is_context_error _ = false

abbrev pub count_error : Option Error → StatsClient → StatsClient
count_error none s = s
count_error (some e) s =
    if is_context_error e
    then record s { total_canceled = inc64 s.total_canceled }
    else record s { total_errors = inc64 s.total_errors }

-- The part of Resolve behind the inner client's answer.
unfoldable pub observe : StatsClient → Reply → ℕ → StatsClient
observe s r duration = count_error r.err (record s {
  total_queries = inc64 s.total_queries;
  total_duration = add64 s.total_duration duration;
})

-- `avg_duration_ms` of GetStats
unfoldable pub average_ms : StatsClient → ℕ
average_ms s =
    if is_positive64 s.total_queries then s.total_duration / s.total_queries / 1000 else 0

abbrev pub observe_all : StatsClient → List (Reply × ℕ) → StatsClient
observe_all s [] = s
observe_all s ((r, d) ∷ rs) = observe_all (observe s r d) rs

abbrev pub is_canceled : Option Error → Bool
is_canceled none = false
is_canceled (some e) = is_context_error e

abbrev pub canceled_reply : Reply × ℕ → Bool
canceled_reply (r, d) = is_canceled r.err

abbrev pub failed_reply : Reply × ℕ → Bool
failed_reply (r, d) = is_some r.err && not (is_canceled r.err)

count_error_lem :
    (o : Option Error) (s : StatsClient)
    → let s' = count_error o s in
      (s'.total_queries ≡ s.total_queries)
      × (s'.total_canceled ≡ (if is_canceled o then inc64 s.total_canceled else s.total_canceled))
      × (s'.total_errors
          ≡ (if is_some o && not (is_canceled o) then inc64 s.total_errors else s.total_errors))
count_error_lem none s = ground arith
count_error_lem (some e) s = ground arith

-- What has been counted, from a client whose counters do not wrap.
record Counted (s : StatsClient) (rs : List (Reply × ℕ)) (s' : StatsClient) : Type 0 where
  queries : s'.total_queries ≡ s.total_queries + length rs
  canceled : s'.total_canceled ≡ s.total_canceled + length (select canceled_reply rs)
  errors : s'.total_errors ≡ s.total_errors + length (select failed_reply rs)

observe_all-Counted :
    (rs : List (Reply × ℕ)) (s : StatsClient)
    → s.total_queries + length rs < 2 ^ 64
    → s.total_canceled ≤ s.total_queries
    → s.total_errors ≤ s.total_queries
    → Counted s rs (observe_all s rs)
unfolding observe
observe_all-Counted [] s h c e = omega arith
observe_all-Counted ((r, d) ∷ rs) s h c e = ground (
  arith,
  count_error_lem r.err (record s {
    total_queries = inc64 s.total_queries;
    total_duration = add64 s.total_duration d;
  }),
  observe_all-Counted rs (observe s r d),
)

-- After fewer than 2 ^ 64 replies a new client has counted each of them once: TotalQueries is
-- their number, TotalCanceled that of the replies whose error is or wraps a context's end, and
-- TotalErrors that of the other errors.
pub observe_all-new_stats_client :
    (address protocol group : Text) (rs : List (Reply × ℕ))
    → length rs < 2 ^ 64
    → let s = observe_all (new_stats_client address protocol group) rs in
      (s.total_queries ≡ length rs)
      × (s.total_canceled ≡ length (select canceled_reply rs))
      × (s.total_errors ≡ length (select failed_reply rs))
unfolding new_stats_client
observe_all-new_stats_client address protocol group rs h = ground (
  arith,
  observe_all-Counted rs (new_stats_client address protocol group) (omega arith) (omega arith)
      (omega arith),
)
