-- ===== src/QueryLog/File.antt =====
-- internal/querylog/querylog.go: the log file, a sequence of bytes with one JSON line for each entry.
-- Writing and pruning stand here, reading it backwards in Backwards and reading it at the start in
-- Restore. The lock of the file is the atomicity of each function. Sizes in bytes are numbers: the
-- size in MB is one whose bytes fit in an int64, and four fifths of it is what the source computes by
-- a float.
pub mod Backwards
pub mod Lines
pub mod Scanned
pub mod Read
pub mod Paged
pub mod Logs
pub mod Restore
pub mod Appended
pub mod Newest
use dns_automatic_traffic_sp.Base.{
  ℕ, zero, suc, ◌+◌, ◌-◌, ◌*◌, ◌/◌, Bool, true, false, Option, none, some, List, [], ◌∷◌, ◌++◌, ltb,
  leb, ◌==◌, if◌then◌else◌, length, take, drop, inc64,
}
use dns_automatic_traffic_sp.Base.Text.{Text}
use dns_automatic_traffic_sp.QueryLog.{LogEntry}

-- json.Marshal and json.Unmarshal on entries; an error is `none`.
pub record Json : Type 0 where
  pub marshal : LogEntry → Option Text
  pub unmarshal : Text → Option LogEntry

abbrev pub newline : ℕ
newline = 10

-- The file, `none` if there is none, and persistedLogCount, an int64 pattern.
pub record Disk : Type 0 where
  pub file : Option Text
  pub count : ℕ

-- What the file system does to one append: whether Stat fails in another way than by a missing file,
-- whether each step of pruning succeeds, whether the file opens, and after how many bytes the write
-- fails, if it does.
pub record Faults : Type 0 where
  pub stat_fails : Bool
  pub prune_fails : Bool
  pub open_fails : Bool
  pub write_stops : Option ℕ

abbrev pub limit_bytes : ℕ → ℕ
limit_bytes max_size_mb = max_size_mb * 1024 * 1024

-- `int64(float64(limitBytes) * 0.8)`
abbrev pub target_size : ℕ → ℕ
target_size limit = limit * 4 / 5

-- bytes.Count of a newline
unfoldable pub count_newlines : Text → ℕ
count_newlines [] = 0
count_newlines (b ∷ s) = if b == newline then suc (count_newlines s) else count_newlines s

-- What is behind the first newline, in the buffer of 1024 bytes that is read at the cut.
unfoldable pub behind_newline : ℕ → Text → Text → Text
behind_newline zero whole s = whole
behind_newline (suc n) whole [] = whole
behind_newline (suc n) whole (b ∷ s) = if b == newline then s else behind_newline n whole s

-- pruneLogFile: the file that is left, and the number of its lines.
unfoldable pub prune_log_file : ℕ → Text → ℕ → Text × ℕ
unfolding behind_newline count_newlines
prune_log_file limit file count =
    let target = target_size limit in
    let tail = drop (length file - target) file in
    let kept = behind_newline 1024 tail tail in
    if leb (length file) target then (file, count) else (kept, count_newlines kept)

abbrev pub grown : Option ℕ → Text → Text → ℕ → Disk
grown none file line count = record { file = some (file ++ line); count = inc64 count }
grown (some n) file line count = record { file = some (file ++ take n line); count = count }

abbrev pub write_line : Faults → Text → Text → ℕ → Disk → Disk
write_line f file line count d = if f.open_fails then d else grown f.write_stops file line count

-- The file that exists, before the line is written.
abbrev pub make_room : Faults → ℕ → Text → Text → ℕ → Text × ℕ
make_room f limit file line count =
    if ltb limit (length file + length line)
    then (if f.prune_fails then (file, count) else prune_log_file limit file count)
    else (file, count)

abbrev pub append_line : Faults → ℕ → Text → Option Text → Disk → Disk
append_line f limit line none d = write_line f [] line d.count d
append_line f limit line (some file) d =
    let (file', count') = make_room f limit file line d.count in
    write_line f file' line count' (record { file = some file'; count = count' })

abbrev pub append_data : Faults → ℕ → Option Text → Disk → Disk
append_data f limit none d = d
append_data f limit (some json) d =
    if f.stat_fails then d else append_line f limit (json ++ newline ∷ []) d.file d

-- appendToFile
unfoldable pub append_to_file : Json → Faults → ℕ → LogEntry → Disk → Disk
unfolding prune_log_file
append_to_file j f max_size_mb entry d = append_data f (limit_bytes max_size_mb) (j.marshal entry) d
