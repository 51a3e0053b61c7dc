-- ===== src/QueryLog/File/Backwards.antt =====
-- internal/querylog/querylog.go: readLogsFromFileBackwards, which reads the log file in chunks from
-- its end, and GetLogs on top of it. A line is collected from its last byte to its first.
use dns_automatic_traffic_sp.Base.{
  ℕ, zero, suc, ◌+◌, ◌-◌, Bool, ◌&&◌, not, Option, none, some, is_some, [], ◌∷◌, ◌++◌, reverse, ltb,
  leb, ◌==◌, if◌then◌else◌, length, take, drop, max_int64,
}
use dns_automatic_traffic_sp.Base.Text.{Text, is_empty, to_lower}
use dns_automatic_traffic_sp.QueryLog.{LogEntry, QueryLogger}
use dns_automatic_traffic_sp.QueryLog.Pages.{Found, matches, visit, get_memory_logs}
use dns_automatic_traffic_sp.QueryLog.File.{Json, Disk, newline}

-- The five arguments of a search, the text in lower case. `hint` is none for a negative totalHint.
pub record Search : Type 0 where
  pub offset : ℕ
  pub limit : ℕ
  pub text : Text
  pub stop_after : ℕ
  pub hint : Option ℕ

-- The line so far, and the entries found and counted.
pub record Reader : Type 0 where
  pub line : Text
  pub found : Found

-- Reading goes on, or has ended because the page is full.
pub data Scan : Type 0 where
  going : Reader → Scan
  finished : Found → Scan

abbrev pub stops : Search → ℕ → Bool
stops q count = ltb 0 q.stop_after && is_some q.hint && is_empty q.text && leb q.stop_after count

unfoldable pub parse_reverse_line : Json → Text → Option LogEntry
parse_reverse_line j reversed = j.unmarshal (reverse reversed)

-- processLine, for what the line parses to; the line is empty again behind it.
abbrev pub on_entry : Search → Option LogEntry → Found → Scan
on_entry q none found = going (record { line = []; found = found })
on_entry q (some e) found =
    let found' = visit q.offset q.limit q.text e found in
    if matches e q.text && stops q found'.1
    then finished found'
    else going (record { line = []; found = found' })

abbrev pub and_then : Scan → (Reader → Scan) → Scan
and_then (going r) k = k r
and_then (finished found) k = finished found

abbrev pub read_size : ℕ → ℕ → ℕ
read_size size pos = if ltb pos size then pos else size

abbrev pub chunk_at : Text → ℕ → ℕ → Text
chunk_at file pos n = take n (drop pos file)

abbrev pub next_chunk : Scan → (Reader → Option Scan) → Option Scan
next_chunk (going r) k = k r
next_chunk (finished found) k = some (finished found)

abbrev pub or_zero : Option ℕ → ℕ
or_zero none = 0
or_zero (some hint) = hint

module _ (j : Json) (q : Search) where
  unfoldable pub process_line : Reader → Scan
  unfolding parse_reverse_line
  process_line r = on_entry q (parse_reverse_line j r.line) r.found

  abbrev pub end_line : Reader → Scan
  end_line r = if is_empty r.line then going r else process_line r

  unfoldable pub on_byte : ℕ → Reader → Scan
  unfolding process_line
  on_byte b r = if b == newline then end_line r else going (record r { line = r.line ++ b ∷ [] })

  -- The bytes in the order in which the loop over the buffer takes them.
  unfoldable pub scan_bytes : Text → Reader → Scan
  unfolding on_byte
  scan_bytes [] r = going r
  scan_bytes (b ∷ bs) r = and_then (on_byte b r) (scan_bytes bs)

  -- The buffer's size, and whether Seek and Read succeed at a position.
  module _ (size : ℕ) (readable : ℕ → Bool) (file : Text) where
    -- `for pos > 0`, on fuel; without fuel left it is `none`.
    unfoldable pub scan_chunks : ℕ → ℕ → Reader → Option Scan
    unfolding scan_bytes
    scan_chunks zero pos r = if pos == 0 then some (going r) else none
    scan_chunks (suc fuel) pos r =
        let start = pos - read_size size pos in
        let rest =
          next_chunk (scan_bytes (reverse (chunk_at file start (read_size size pos))) r)
            (scan_chunks fuel start) in
        if pos == 0 then some (going r) else if readable start then rest else some (going r)

  -- The first line of the file, which no newline stands before.
  abbrev pub last_line : Scan → Scan
  last_line s = and_then s end_line

  abbrev pub or_count : Option ℕ → ℕ → ℕ
  or_count none count = count
  or_count (some hint) count = if is_empty q.text then hint else count

  abbrev pub answer : Scan → Found
  answer (finished found) = (found.0, or_zero q.hint)
  answer (going r) = (r.found.0, or_count q.hint r.found.1)

  abbrev pub answer_all : Option Scan → Option Found
  answer_all none = none
  answer_all (some s) = some (answer (last_line s))

  -- With as much fuel as the file has bytes; each round reads one at least.
  unfoldable pub read_logs_from_file_backwards : ℕ → (ℕ → Bool) → Text → Option Found
  unfolding scan_chunks
  read_logs_from_file_backwards size readable file = answer_all (
      scan_chunks size readable file (length file) (length file)
        (record { line = []; found = ([], 0) }))

abbrev pub buffer_size : ℕ
buffer_size = 4096

-- The arguments that GetLogs passes. `offset + limit` is a number that fits in an int; a negative
-- count is no hint.
unfoldable pub search_for : ℕ → ℕ → Text → ℕ → Search
search_for offset limit search count =
    if is_empty search
    then record {
      offset = offset;
      limit = limit;
      text = [];
      stop_after = offset + limit;
      hint = if leb count max_int64 then some count else none;
    }
    else record {
      offset = offset;
      limit = limit;
      text = to_lower search;
      stop_after = 0;
      hint = none;
    }

abbrev pub or_memory : QueryLogger → ℕ → ℕ → Text → Option Found → Found
or_memory l offset limit search none = get_memory_logs l offset limit search
or_memory l offset limit search (some found) = found

abbrev pub from_file : Json → (ℕ → Bool) → Search → Option Text → Option Found
from_file j readable q none = none
from_file j readable q (some file) = read_logs_from_file_backwards j q buffer_size readable file

-- GetLogs; a nil logger is `none`. `file` is none if the file does not open.
unfoldable pub get_logs : Json → (ℕ → Bool) → Option QueryLogger → Disk → ℕ → ℕ → Text → Found
unfolding read_logs_from_file_backwards search_for
get_logs j readable none d offset limit search = ([], 0)
get_logs j readable (some l) d offset limit search =
    if l.enabled
    then (if l.save_to_file && not (is_empty l.file_path)
        then or_memory l offset limit search
            (from_file j readable (search_for offset limit search d.count) d.file)
        else get_memory_logs l offset limit search)
    else ([], 0)
