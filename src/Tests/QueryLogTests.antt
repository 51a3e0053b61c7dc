-- ===== src/Tests/QueryLogTests.antt =====
-- A logger for two entries that has seen three, and what its clients read from it.
use dns_automatic_traffic_sp.Base.{
  ◌+◌, ◌%◌, ◌^◌, ℕ, ◌≡◌, ◌≢◌, ◌<◌, ◌⊎◌, ◌*◌, refl, true, false, List, [], ◌∷◌, arith, length,
  select, get_elem?, max_int64, reverse,
}
use dns_automatic_traffic_sp.Base.Text.{Text, codes, to_lower}
use dns_automatic_traffic_sp.QueryLog.{
  LogEntry, QueryLogger, new_query_logger, add_to_memory, add_log, account, record_recent_log,
  update_totals, stale_prefix, stamp, log_at, current_qps,
}
use dns_automatic_traffic_sp.QueryLog.Ring.{
  contents, push_bounded, contents-add_to_memory, log_at-get_elem?,
}
use dns_automatic_traffic_sp.QueryLog.History.{Op, add, run, IsSound, run-new_query_logger-IsSound}
use dns_automatic_traffic_sp.QueryLog.Numbering.{
  accepted, IsNumbered, run-new_query_logger-IsNumbered,
}
use dns_automatic_traffic_sp.QueryLog.Window.{record_all, current_qps-record_all}
use dns_automatic_traffic_sp.QueryLog.Pages.{matches, get_memory_logs, page}
use dns_automatic_traffic_sp.QueryLog.Pages.Result.{get_memory_logs_lem}
use dns_automatic_traffic_sp.Tests.Data.{test_logger}

abbrev entry : Text → LogEntry
entry domain = record {
  id = 0;
  time = 0;
  client_ip = codes "10.0.0.1";
  downstream_ecs = [];
  domain = domain;
  qtype = codes "A";
  upstream = codes "Rule(CN)";
  answer = [];
  answer_records = [];
  duration_ms = 3;
  status = codes "NOERROR";
}

abbrev ops : List Op
ops =
    add (entry (codes "a.cn")) 10
    ∷ add (entry (codes "b.cn")) 20
    ∷ add (entry (codes "a.org")) 30
    ∷ []

abbrev logger : QueryLogger
logger = run test_logger ops

two : 2 ≢ max_int64
two = omega arith

run-new_query_logger-IsSound_example : IsSound logger
run-new_query_logger-IsSound_example = run-new_query_logger-IsSound true false 2 1 5 [] ops two

run-new_query_logger-IsNumbered_example :
    IsNumbered logger × (logger.next_id ≡ (1 + accepted true ops) % 2 ^ 64)
run-new_query_logger-IsNumbered_example =
    run-new_query_logger-IsNumbered true false 2 1 5 [] ops two

sound : IsSound logger
sound = run-new_query_logger-IsSound true false 2 1 5 [] ops two

short : length logger.logs < max_int64
short = omega (arith, sound.ring.bounded, sound.small)

get_memory_logs_lem_example :
    let hits = select (λ e. matches e (to_lower (codes "A."))) (reverse (contents logger)) in
    get_memory_logs logger 0 10 (codes "A.") ≡ (page 0 10 hits, length hits)
get_memory_logs_lem_example = get_memory_logs_lem logger 0 10 (codes "A.") sound.ring short

contents-add_to_memory_example :
    contents (add_to_memory logger (entry (codes "c.cn")))
    ≡ push_bounded logger.max_history (contents logger) (entry (codes "c.cn"))
contents-add_to_memory_example = contents-add_to_memory logger (entry (codes "c.cn")) sound.ring

full : 1 < length logger.logs
unfolding add_log stamp add_to_memory account record_recent_log update_totals new_query_logger
    stale_prefix
full = omega arith

log_at-get_elem?_example : log_at logger 1 ≡ get_elem? (contents logger) 1
log_at-get_elem?_example = log_at-get_elem? logger 1 sound.ring full

abbrev times : List ℕ
times = 5 ∷ 9000000000 ∷ 12000000000 ∷ []

-- Of the three times two are in the window at 13 seconds.
current_qps-record_all_example :
    let l' = record_all test_logger times in
    (current_qps l' 13000000000 ≡ 2)
    × ((l'.recent_start ≡ 0) ⊎ (l'.recent_start * 2 < length l'.recent_logs))
unfolding new_query_logger
current_qps-record_all_example =
    current_qps-record_all test_logger times 13000000000 refl refl (omega arith)
