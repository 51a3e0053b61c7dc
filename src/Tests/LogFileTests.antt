-- ===== src/Tests/LogFileTests.antt =====
-- A log file of two lines, under an encoding that writes the domain only.
use dns_automatic_traffic_sp.Base.{
  get_elem?, ◌<◌, ℕ, ◌+◌, ◌≡◌, refl, Bool, true, false, if◌then◌else◌, none, some, [], ◌∷◌, ◌++◌,
  arith, length, select, reverse, drop,
}
use dns_automatic_traffic_sp.QueryLog.File.Read.{entries_of}
use dns_automatic_traffic_sp.Base.Text.{trim_suffix, Text, codes, is_empty, to_lower}
use dns_automatic_traffic_sp.Base.Scanner.{scan_lines, segments}
use dns_automatic_traffic_sp.QueryLog.{LogEntry, QueryLogger, new_query_logger}
use dns_automatic_traffic_sp.QueryLog.Pages.{Found, matches, page}
use dns_automatic_traffic_sp.QueryLog.File.{
  Json, newline, count_newlines, append_to_file, limit_bytes,
}
use dns_automatic_traffic_sp.QueryLog.File.Read.{file_entries}
use dns_automatic_traffic_sp.QueryLog.File.Backwards.{
  get_logs, read_logs_from_file_backwards, search_for, buffer_size,
}
use dns_automatic_traffic_sp.QueryLog.File.Logs.{get_logs_lem, read_logs-some}
use dns_automatic_traffic_sp.QueryLog.File.Appended.{
  no_faults, counted, Room, Unpruned, append_to_file-bounded,
}
use dns_automatic_traffic_sp.QueryLog.File.Newest.{append_to_file-get_logs}
use dns_automatic_traffic_sp.QueryLog.File.Restore.{
  open_query_logger, Restored, open_query_logger-Restored,
}

abbrev entry : Text → LogEntry
entry domain = record {
  id = 7;
  time = 1;
  client_ip = codes "10.0.0.1";
  downstream_ecs = [];
  domain = domain;
  qtype = codes "A";
  upstream = codes "Rule(CN)";
  answer = [];
  answer_records = [];
  duration_ms = 3;
  status = codes "NOERROR";
}

abbrev toy : Json
toy = record {
  marshal = λ e. some e.domain;
  unmarshal = λ s. if is_empty s then none else some (entry s);
}

abbrev two_lines : Text
two_lines = codes "a.cn" ++ newline ∷ codes "b.org" ++ newline ∷ []

abbrev logger : QueryLogger
logger = record {
  enabled = true;
  logs = [];
  logs_start = 0;
  max_size_mb = 1;
  max_history = 5;
  next_id = 3;
  file_path = codes "query.log";
  save_to_file = true;
  recent_logs = [];
  recent_start = 0;
  stats = record {
    start_time = 1;
    total_queries = 2;
    total_cn = 2;
    total_overseas = 0;
    qps = 0;
    top_clients = [];
    top_domains = [];
  };
  persisted_log_count = 2;
  has_queue = true;
  closed = false;
}

abbrev always : ℕ → Bool
always p = true

abbrev never : ℕ → Bool
never p = false

get_logs_lem_example :
    let hits =
      select (λ e. matches e (to_lower (codes "A."))) (reverse (file_entries toy two_lines)) in
    get_logs toy always
      (some logger)
      (record { file = some two_lines; count = 2 })
      0
      15
      (codes "A.")
    ≡ (page 0 15 hits, length hits)
get_logs_lem_example =
    get_logs_lem toy always logger two_lines 2 0 15 (codes "A.") refl refl refl (λ p. refl)
      (omega arith) (omega arith)

read_logs-some_example :
    (found : Found) × (read_logs_from_file_backwards toy
        (search_for 0 15 (codes "A.") 2)
        buffer_size
        never
        two_lines
      ≡ some found)
read_logs-some_example =
    read_logs-some toy (search_for 0 15 (codes "A.") 2) buffer_size never two_lines (omega arith)

append_to_file-bounded_example :
    (n : ℕ) × (append_to_file toy no_faults 1 (entry (codes "c.cn")) (counted two_lines)
      ≡ counted (drop n two_lines ++ (codes "c.cn" ++ newline ∷ [])))
    × Room (limit_bytes 1) two_lines (length (codes "c.cn" ++ newline ∷ [])) n
    × Unpruned (limit_bytes 1) two_lines (length (codes "c.cn" ++ newline ∷ [])) n
unfolding count_newlines
append_to_file-bounded_example =
    append_to_file-bounded toy 1 (entry (codes "c.cn")) two_lines (codes "c.cn") refl refl
      (omega arith)

append_to_file-get_logs_example :
    (n : ℕ) × (get_logs toy always
        (some logger)
        (append_to_file toy no_faults 1 (entry (codes "c.cn")) (counted two_lines))
        0
        15
        []
      ≡ (
        page 0 15 (entry (codes "c.cn") ∷ reverse (file_entries toy (drop n two_lines))),
        count_newlines (drop n two_lines) + 1,
      ))
    × Unpruned (limit_bytes 1) two_lines 5 n
append_to_file-get_logs_example =
    append_to_file-get_logs toy always logger (entry (codes "c.cn")) two_lines (codes "c.cn") 0 15
      refl refl refl (λ p. refl) refl refl refl refl refl (omega arith)

open_query_logger-Restored_example :
    let es = entries_of toy.unmarshal (scan_lines two_lines).0 in
    let l = open_query_logger toy (some two_lines) true 5 1 (codes "query.log") true 9 in
    Restored (scan_lines two_lines).0 es 0 (new_query_logger true 5 1 (codes "query.log") true 9) l
    × ((i : ℕ) (e : LogEntry) → get_elem? es i ≡ some e → e.id < l.next_id)
unfolding scan_lines segments trim_suffix
open_query_logger-Restored_example =
    open_query_logger-Restored toy two_lines 5 1 113 (codes "uery.log") 9 (omega arith)
