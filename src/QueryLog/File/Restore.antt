-- ===== src/QueryLog/File/Restore.antt =====
-- internal/querylog/querylog.go: NewQueryLogger with a log file and restoreStatsFromFile, which
-- counts the lines that are there and goes on numbering behind them.
use dns_automatic_traffic_sp.Base.{
  ℕ, suc, ◌+◌, ◌%◌, ◌^◌, ◌≤◌, ◌<◌, ◌≡◌, refl, ap, ◌∙◌, Bool, true, ◌&&◌, not, Bool-cases, inl, inr,
  Option, none, some, List, [], ◌∷◌, ltb, leb64, if◌then◌else◌, length, arith, inc64, max_int64,
  zero, get_elem?,
}
use dns_automatic_traffic_sp.Base.Text.{Text, is_empty}
use mathlib.Core.Option.{some-injective}
use dns_automatic_traffic_sp.Base.Scanner.{scan_lines}
use dns_automatic_traffic_sp.QueryLog.{
  LogEntry, Stats, QueryLogger, new_query_logger, update_totals,
}
use dns_automatic_traffic_sp.QueryLog.File.{Json}
use dns_automatic_traffic_sp.QueryLog.File.Read.{with_entry, entries_of}

-- What one line that parses, or does not, changes.
abbrev pub restore_entry : Option LogEntry → QueryLogger → QueryLogger
restore_entry none l = l
restore_entry (some e) l = record l {
  stats = update_totals e l.stats;
  next_id = if leb64 l.next_id e.id then inc64 e.id else l.next_id;
}

unfoldable pub restore_lines : Json → List Text → QueryLogger → QueryLogger
restore_lines j [] l = l
restore_lines j (s ∷ ls) l =
    restore_lines j ls (
      restore_entry (j.unmarshal s)
        (record l { persisted_log_count = inc64 l.persisted_log_count }))

-- `file` is none if the file does not open. The scanner's error is not looked at: behind a line that
-- is too long nothing is read.
abbrev pub restore_stats_from_file : Json → Option Text → QueryLogger → QueryLogger
restore_stats_from_file j none l = l
restore_stats_from_file j (some file) l = restore_lines j (scan_lines file).0 l

-- NewQueryLogger; the queue of the writer is empty.
unfoldable pub open_query_logger : Json → Option Text → Bool → ℕ → ℕ → Text → Bool → ℕ → QueryLogger
unfolding new_query_logger restore_lines
open_query_logger j file enabled max_history max_size_mb file_path save_to_file now =
    let l = new_query_logger enabled max_history max_size_mb file_path save_to_file now in
    if l.enabled && l.save_to_file && not (is_empty l.file_path)
    then record (restore_stats_from_file j file l) { has_queue = true }
    else l

-- The largest number of some entries, 0 if there are none.
abbrev pub largest_id : ℕ → List LogEntry → ℕ
largest_id top [] = top
largest_id top (e ∷ es) = largest_id (if ltb top e.id then e.id else top) es

-- What the reading of the lines has done to a logger.
pub record Restored (ls : List Text) (es : List LogEntry) (top : ℕ) (l l' : QueryLogger)
    : Type 0 where
  pub next_id : l'.next_id ≡ suc (largest_id top es)
  pub total : l'.stats.total_queries ≡ (l.stats.total_queries + length es) % 2 ^ 64
  pub persisted : l'.persisted_log_count ≡ (l.persisted_log_count + length ls) % 2 ^ 64

total-update :
    (e : LogEntry) (s : Stats) → (update_totals e s).total_queries ≡ inc64 s.total_queries
unfolding update_totals
total-update e s = ground arith

next_larger :
    (top id : ℕ)
    → top < max_int64
    → id < max_int64
    → (if leb64 (suc top) id then inc64 id else suc top) ≡ suc (if ltb top id then id else top)
next_larger top id h k = elim (Bool-cases (ltb top id)) [
  | inl e ↦ ground (arith, e)
  | inr e ↦ ground (arith, e)
]

largest_id-top : (top : ℕ) (es : List LogEntry) → top ≤ largest_id top es
largest_id-top top [] = omega arith
largest_id-top top (e ∷ es) = ground (arith, largest_id-top (if ltb top e.id then e.id else top) es)

restore_lines-Restored :
    (j : Json) (ls : List Text) (l : QueryLogger) (top : ℕ)
    → l.next_id ≡ suc top
    → largest_id top (entries_of j.unmarshal ls) < max_int64
    → l.stats.total_queries < 2 ^ 64
    → l.persisted_log_count < 2 ^ 64
    → Restored ls (entries_of j.unmarshal ls) top l (restore_lines j ls l)
unfolding restore_lines
restore_lines-Restored j [] l top next ids t p = record {
  next_id = next;
  total = omega (arith, t);
  persisted = omega (arith, p);
}
restore_lines-Restored j (s ∷ ls) l top next ids t p =
    by_entry (j.unmarshal s) ids (restore_lines-Restored j ls)
  where
    l1 : QueryLogger
    l1 = record l { persisted_log_count = inc64 l.persisted_log_count }

    by_entry :
        (o : Option LogEntry)
        → largest_id top (with_entry o (entries_of j.unmarshal ls)) < max_int64
        → ((l' : QueryLogger) (top' : ℕ)
            → l'.next_id ≡ suc top'
            → largest_id top' (entries_of j.unmarshal ls) < max_int64
            → l'.stats.total_queries < 2 ^ 64
            → l'.persisted_log_count < 2 ^ 64
            → Restored ls (entries_of j.unmarshal ls) top' l' (restore_lines j ls l'))
        → Restored
            (s ∷ ls)
            (with_entry o (entries_of j.unmarshal ls))
            top
            l
            (restore_lines j ls (restore_entry o l1))
    by_entry none ids' ih =
        let r = ih l1 top next ids' t (omega arith) in
        record { next_id = r.next_id; total = r.total; persisted = r.persisted ∙ omega arith }
    by_entry (some e) ids' ih =
        let top' = if ltb top e.id then e.id else top in
        let below = largest_id-top top' (entries_of j.unmarshal ls) in
        let r =
          ih (restore_entry (some e) l1) top'
            (ap (λ n. if leb64 n e.id then inc64 e.id else n) next
              ∙ next_larger top e.id (ground (arith, below, ids')) (ground (arith, below, ids')))
            ids' (omega (arith, total-update e l.stats)) (omega arith) in
        record {
          next_id = r.next_id;
          total =
              r.total
              ∙ ap (λ k. (k + length (entries_of j.unmarshal ls)) % 2 ^ 64) (total-update e l.stats)
              ∙ omega arith;
          persisted = r.persisted ∙ omega arith;
        }

largest_id-most :
    (top : ℕ) (es : List LogEntry) (i : ℕ) (e : LogEntry)
    → get_elem? es i ≡ some e
    → e.id ≤ largest_id top es
largest_id-most top [] i e h = cc h
largest_id-most top (x ∷ es) zero e h =
    let first = ap (λ (y : LogEntry). y.id) (some-injective x e h) in
    ground (arith, first, largest_id-top (if ltb top x.id then x.id else top) es)
largest_id-most top (x ∷ es) (suc i) e h =
    largest_id-most (if ltb top x.id then x.id else top) es i e h

-- NewQueryLogger for an enabled logger that writes to a file with a name, where the file opens. It
-- reads the lines of the file up to the first one of 65,536 bytes or more. If the entries that these
-- lines parse to have numbers below 2^63 - 1, the next number is one more than the largest of them (1
-- if there are none), so it is larger than the number of each; TotalQueries is the number of these
-- entries, and the count of persisted entries is the number of these lines, both modulo 2^64.
pub open_query_logger-Restored :
    (j : Json) (file : Text) (history mb : ℕ) (c : ℕ) (path : Text) (now : ℕ)
    → let lines = (scan_lines file).0 in
      let es = entries_of j.unmarshal lines in
      largest_id 0 es < max_int64
      → let l = open_query_logger j (some file) true history mb (c ∷ path) true now in
        Restored lines es 0 (new_query_logger true history mb (c ∷ path) true now) l
        × ((i : ℕ) (e : LogEntry) → get_elem? es i ≡ some e → e.id < l.next_id)
unfolding open_query_logger new_query_logger
open_query_logger-Restored j file history mb c path now ids =
    let lines = (scan_lines file).0 in
    let r =
      restore_lines-Restored j lines (new_query_logger true history mb (c ∷ path) true now) 0 refl
        ids (omega arith) (omega arith) in
    (
      record { next_id = r.next_id; total = r.total; persisted = r.persisted },
      λ i e h. omega (arith, largest_id-most 0 (entries_of j.unmarshal lines) i e h, r.next_id),
    )
