-- ===== src/QueryLog.antt =====
-- internal/querylog/querylog.go: the types, and the part of the logger that lives in memory.
-- The ring buffer of entries, its counters and the window of recent queries are the fields of the
-- source. Texts are bytes, `int64` counters are 64-bit patterns, and a time is a number of
-- nanoseconds since Go's zero time. The log file is in QueryLog.File; the queue of the writer
-- goroutine and Close are left out; the locks are the atomicity of each function here.
pub mod Ring
pub mod Counters
pub mod Window
pub mod Pages
pub mod History
pub mod Numbering
pub mod File
use dns_automatic_traffic_sp.Base.{
  ℕ, zero, suc, ◌+◌, ◌-◌, ◌*◌, ◌%◌, Bool, true, false, ◌&&◌, ◌||◌, not, Option, none, some, List,
  [], ◌∷◌, ◌++◌, ltb, leb, ◌==◌, if◌then◌else◌, length, get_elem?, set, drop, inc64, dec64,
  is_positive64,
}
use dns_automatic_traffic_sp.Base.Text.{Text, codes, contains, to_lower, is_empty}
use dns_automatic_traffic_sp.Base.Maps.{Map, lookup, insert, delete}

pub record AnswerRecord : Type 0 where
  pub name : Text
  pub rtype : Text
  pub rdata : Text
  pub ttl : ℕ

pub record LogEntry : Type 0 where
  pub id : ℕ
  pub time : ℕ
  pub client_ip : Text
  pub downstream_ecs : Text
  pub domain : Text
  pub qtype : Text
  pub upstream : Text
  pub answer : Text
  pub answer_records : List AnswerRecord
  pub duration_ms : ℕ
  pub status : Text

-- `qps` is a float in the source: a count divided by the ten seconds of the window. Here it is
-- that count.
pub record Stats : Type 0 where
  pub start_time : ℕ
  pub total_queries : ℕ
  pub total_cn : ℕ
  pub total_overseas : ℕ
  pub qps : ℕ
  pub top_clients : Map ℕ
  pub top_domains : Map ℕ

pub record QueryLogger : Type 0 where
  pub enabled : Bool
  pub logs : List LogEntry
  pub logs_start : ℕ
  pub max_size_mb : ℕ
  pub max_history : ℕ
  pub next_id : ℕ
  pub file_path : Text
  pub save_to_file : Bool
  pub recent_logs : List ℕ
  pub recent_start : ℕ
  pub stats : Stats
  pub persisted_log_count : ℕ
  pub has_queue : Bool
  pub closed : Bool

abbrev pub default_max_memory_logs : ℕ
default_max_memory_logs = 5000

-- ten seconds
abbrev pub qps_window : ℕ
qps_window = 10000000000

-- The fields that NewQueryLogger sets before it looks at the file. `max_history` and `max_size_mb`
-- are Go's `int`, as patterns.
unfoldable pub new_query_logger : Bool → ℕ → ℕ → Text → Bool → ℕ → QueryLogger
new_query_logger enabled max_history max_size_mb file_path save_to_file now = record {
  enabled = enabled;
  logs = [];
  logs_start = 0;
  max_size_mb = if is_positive64 max_size_mb then max_size_mb else 1;
  max_history = if is_positive64 max_history then max_history else default_max_memory_logs;
  next_id = 1;
  file_path = if enabled then file_path else [];
  save_to_file = enabled && save_to_file;
  recent_logs = [];
  recent_start = 0;
  stats = record {
    start_time = now;
    total_queries = 0;
    total_cn = 0;
    total_overseas = 0;
    qps = 0;
    top_clients = [];
    top_domains = [];
  };
  persisted_log_count = 0;
  has_queue = false;
  closed = false;
}

-- A nil logger is `none`.
unfoldable pub is_enabled : Option QueryLogger → Bool
is_enabled none = false
is_enabled (some l) = l.enabled && not l.closed

-- A missing key reads as 0.
abbrev pub count_at : Text → Map ℕ → ℕ
count_at k m = elim (lookup k m) [ none ↦ 0 | some n ↦ n ]

-- `m[k]++`
unfoldable pub bump : Text → Map ℕ → Map ℕ
bump k m = insert k (inc64 (count_at k m)) m

-- One half of decrementTopCounters.
unfoldable pub drop_one : Text → Map ℕ → Map ℕ
drop_one k m =
    let count = dec64 (count_at k m) in if is_positive64 count then insert k count m else delete k m

unfoldable pub decrement_top_counters : Stats → Option LogEntry → Stats
unfolding drop_one
decrement_top_counters s none = s
decrement_top_counters s (some entry) = record s {
  top_clients = drop_one entry.client_ip s.top_clients;
  top_domains = drop_one entry.domain s.top_domains;
}

unfoldable pub update_totals : LogEntry → Stats → Stats
update_totals entry s =
    if contains entry.upstream (codes "CN")
    then record s { total_queries = inc64 s.total_queries; total_cn = inc64 s.total_cn }
    else if contains entry.upstream (codes "Overseas")
    then record s { total_queries = inc64 s.total_queries; total_overseas = inc64 s.total_overseas }
    else record s { total_queries = inc64 s.total_queries }

-- The entry of the logical index `i`, oldest first; `none` where the source would panic.
unfoldable pub log_at : QueryLogger → ℕ → Option LogEntry
log_at l i = get_elem? l.logs ((l.logs_start + i) % length l.logs)

abbrev pub count_entry : LogEntry → Stats → Stats
count_entry entry s = record s {
  top_clients = bump entry.client_ip s.top_clients;
  top_domains = bump entry.domain s.top_domains;
}

unfoldable pub add_to_memory : QueryLogger → LogEntry → QueryLogger
add_to_memory l entry =
    let s = count_entry entry l.stats in
    if ltb (length l.logs) l.max_history
    then record l { logs = l.logs ++ entry ∷ []; stats = s }
    else if length l.logs == 0
    then record l { logs = l.logs ++ entry ∷ []; stats = s }
    else record l {
      logs = set l.logs l.logs_start entry;
      logs_start = (l.logs_start + 1) % length l.logs;
      stats = decrement_top_counters s (get_elem? l.logs l.logs_start);
    }

-- `t.Before(ts.Add(-qpsWindow))`, with the window added on the other side.
abbrev pub is_stale : ℕ → ℕ → Bool
is_stale ts t = ltb (t + qps_window) ts

-- How far the loop of recordRecentLog moves `recentStart`: over the leading stale times.
unfoldable pub stale_prefix : ℕ → List ℕ → ℕ
stale_prefix ts [] = 0
stale_prefix ts (t ∷ rest) = if is_stale ts t then suc (stale_prefix ts rest) else 0

-- `copy` moves the live times to the front, and the slice is cut behind them.
compact : QueryLogger → List ℕ → ℕ → QueryLogger
compact l times start =
    if ltb 0 start && leb (length times) (start * 2)
    then record l { recent_logs = drop start times; recent_start = 0 }
    else record l { recent_logs = times; recent_start = start }

unfoldable pub record_recent_log : QueryLogger → ℕ → QueryLogger
unfolding compact
record_recent_log l ts =
    let times = l.recent_logs ++ ts ∷ [] in
    compact l times (l.recent_start + stale_prefix ts (drop l.recent_start times))

-- The loop of currentQPS runs down from the newest time; the list is newest first.
unfoldable pub fresh_prefix : ℕ → List ℕ → ℕ
fresh_prefix now [] = 0
fresh_prefix now (t ∷ rest) = if is_stale now t then 0 else suc (fresh_prefix now rest)

abbrev pub cons_time : Option ℕ → List ℕ → List ℕ
cons_time none q = q
cons_time (some t) q = t ∷ q

-- The times from index `start` to `start + n - 1`, the last one first, as the loop reads them.
unfoldable pub times_down : List ℕ → ℕ → ℕ → List ℕ
times_down times start zero = []
times_down times start (suc n) = cons_time (get_elem? times (start + n)) (times_down times start n)

unfoldable pub current_qps : QueryLogger → ℕ → ℕ
unfolding fresh_prefix times_down
current_qps l now =
    if leb (length l.recent_logs) l.recent_start
    then 0
    else fresh_prefix now
        (times_down l.recent_logs l.recent_start (length l.recent_logs - l.recent_start))

-- The identity and the time that AddLog gives an entry: one with the zero time gets the time of
-- the call.
unfoldable pub stamp : QueryLogger → LogEntry → ℕ → LogEntry
stamp l entry now = record entry {
  id = l.next_id;
  time = if entry.time == 0 then now else entry.time;
}

-- The window and the totals, before the entry is stored.
unfoldable pub account : QueryLogger → LogEntry → QueryLogger
account l entry =
    let l' = record_recent_log (record l { next_id = inc64 l.next_id }) entry.time in
    record l' { stats = update_totals entry l'.stats }

-- AddLog up to the unlock.
unfoldable pub add_log : QueryLogger → LogEntry → ℕ → QueryLogger
add_log l entry now =
    if not l.enabled || l.closed
    then l
    else add_to_memory (account l (stamp l entry now)) (stamp l entry now)

unfoldable pub clear : QueryLogger → QueryLogger
clear l = record l {
  logs = [];
  logs_start = 0;
  recent_logs = [];
  recent_start = 0;
  stats = record l.stats { top_clients = []; top_domains = [] };
}

unfoldable pub get_stats : Option QueryLogger → ℕ → Stats
get_stats none now = record {
  start_time = now;
  total_queries = 0;
  total_cn = 0;
  total_overseas = 0;
  qps = 0;
  top_clients = [];
  top_domains = [];
}
get_stats (some l) now = record l.stats { qps = current_qps l now }
