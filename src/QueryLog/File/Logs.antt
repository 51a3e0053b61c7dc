-- ===== src/QueryLog/File/Logs.antt =====
-- GetLogs on the log file, as a whole.
use dns_automatic_traffic_sp.Base.{
  ℕ, ◌^◌, ◌≤◌, ◌<◌, ◌≡◌, refl, sym, ap, ◌∙◌, Bool, true, false, ◌&&◌, not, none, some, List, [],
  ◌∷◌, reverse, leb, if◌then◌else◌, length, select, arith, length-reverse, max_int64,
}
use dns_automatic_traffic_sp.Base.Text.{Text, is_empty, to_lower}
use dns_automatic_traffic_sp.QueryLog.{LogEntry, QueryLogger}
use dns_automatic_traffic_sp.QueryLog.Pages.{Found, matches, visit_all, page}
use dns_automatic_traffic_sp.QueryLog.Pages.Fold.{visit_all-page, page-nil}
use dns_automatic_traffic_sp.QueryLog.File.{Json}
use dns_automatic_traffic_sp.QueryLog.File.Lines.{lines_from}
use dns_automatic_traffic_sp.QueryLog.File.Scanned.{scan_chunks-some}
use dns_automatic_traffic_sp.QueryLog.File.Backwards.{
  Search, parse_reverse_line, last_line, answer, answer_all, read_logs_from_file_backwards,
  buffer_size, search_for, get_logs, or_memory,
}
use dns_automatic_traffic_sp.QueryLog.File.Read.{entries_of, file_entries, rested, process_lines}
use dns_automatic_traffic_sp.QueryLog.File.Paged.{
  plain_search, process_lines-visit_all, process_lines-page, newest_first, select-matches_nil,
  read_logs-process_lines,
}

-- The branch that reads the file.
from_the_file :
    (enabled save no_path : Bool) (x y z : Found)
    → enabled ≡ true
    → save ≡ true
    → no_path ≡ false
    → (if enabled then (if save && not no_path then x else y) else z) ≡ x
from_the_file enabled save no_path x y z on to_file path = rw (on, to_file, path) refl

hint_fits :
    (count : ℕ)
    → count ≤ max_int64
    → (if leb count max_int64 then some count else none) ≡ some count
hint_fits count fits = ground (arith, fits)

abbrev text_search : ℕ → ℕ → Text → Search
text_search offset limit text = record {
  offset = offset;
  limit = limit;
  text = text;
  stop_after = 0;
  hint = none;
}

module _ (j : Json) (readable : ℕ → Bool) (file : Text) (ok : (p : ℕ) → readable p ≡ true) where
  read_logs_plain :
      (offset limit hint : ℕ)
      → length (file_entries j file) < 2 ^ 64
      → read_logs_from_file_backwards j (plain_search offset limit hint) buffer_size readable file
        ≡ some (page offset limit (reverse (file_entries j file)), hint)
  read_logs_plain offset limit hint small =
      let q = plain_search offset limit hint in
      let ls = lines_from [] (reverse file) in
      read_logs-process_lines j q buffer_size readable file (omega arith) ok
      ∙ ap (λ (p : List LogEntry). some (answer j q (process_lines j q ls (p, 0))))
          (sym (page-nil offset limit))
      ∙ ap some (
          process_lines-page j offset limit hint ls [] (
            omega (
              arith,
              small,
              ap length (newest_first j file),
              length-reverse (file_entries j file),
            )))
      ∙ ap (λ (es : List LogEntry). some (page offset limit es, hint)) (newest_first j file)

  read_logs_search :
      (offset limit c : ℕ) (s : Text)
      → length (file_entries j file) < 2 ^ 64
      → let q = text_search offset limit (to_lower (c ∷ s)) in
        let hits = select (λ e. matches e (to_lower (c ∷ s))) (reverse (file_entries j file)) in
        read_logs_from_file_backwards j q buffer_size readable file
        ≡ some (page offset limit hits, length hits)
  read_logs_search offset limit c s small =
      let q = text_search offset limit (to_lower (c ∷ s)) in
      let ls = lines_from [] (reverse file) in
      read_logs-process_lines j q buffer_size readable file (omega arith) ok
      ∙ ap (λ t. some (answer j q t)) (process_lines-visit_all j q ls ([], 0) (λ _. refl))
      ∙ ap
          (λ (p : List LogEntry). some (
            visit_all offset limit (to_lower (c ∷ s)) (entries_of (parse_reverse_line j) ls)
              (p, 0)))
          (sym (page-nil offset limit))
      ∙ ap some (
          visit_all-page offset limit (to_lower (c ∷ s)) (entries_of (parse_reverse_line j) ls) [] (
            omega (
              arith,
              small,
              ap length (newest_first j file),
              length-reverse (file_entries j file),
            )))
      ∙ ap
          (λ (es : List LogEntry). some (
            page offset limit (select (λ e. matches e (to_lower (c ∷ s))) es),
            length (select (λ e. matches e (to_lower (c ∷ s))) es),
          ))
          (newest_first j file)

-- GetLogs of an enabled logger that writes to a file with a name, where the file exists and every
-- read of it succeeds, and it holds fewer than 2^64 entries
-- and the count of persisted entries is not negative: of the entries that the lines of the
-- file parse to and that match the search text in lower case (all of them, if the text is empty),
-- taken from the last line to the first, it returns those behind the first `offset`, at most
-- `limit` of them. The total is the number of all that match for a search, and the count of
-- persisted entries without one. So neither the chunks nor the early end of the reader change what
-- a full scan of the file would return.
pub get_logs_lem :
    (j : Json) (readable : ℕ → Bool) (l : QueryLogger) (file : Text) (count : ℕ) (offset limit : ℕ)
    (search : Text)
    → l.enabled ≡ true
    → l.save_to_file ≡ true
    → is_empty l.file_path ≡ false
    → ((p : ℕ) → readable p ≡ true)
    → length (file_entries j file) < 2 ^ 64
    → count ≤ max_int64
    → let hits = select (λ e. matches e (to_lower search)) (reverse (file_entries j file)) in
      get_logs j readable (some l) (record { file = some file; count = count }) offset limit search
      ≡ (page offset limit hits, if is_empty search then count else length hits)
unfolding get_logs search_for
get_logs_lem j readable l file count offset limit [] on to_file path ok small fits =
    from_the_file l.enabled l.save_to_file (is_empty l.file_path) _ _ _ on to_file path
    ∙ ap
        (λ h. or_memory l offset limit [] (
          read_logs_from_file_backwards j (record (plain_search offset limit count) { hint = h })
            buffer_size readable file))
        (hint_fits count fits)
    ∙ ap (or_memory l offset limit []) (read_logs_plain j readable file ok offset limit count small)
    ∙ ap (λ (es : List LogEntry). (page offset limit es, count))
        (sym (select-matches_nil (reverse (file_entries j file))))
get_logs_lem j readable l file count offset limit (c ∷ s) on to_file path ok small fits =
    from_the_file l.enabled l.save_to_file (is_empty l.file_path) _ _ _ on to_file path
    ∙ ap (or_memory l offset limit (c ∷ s))
        (read_logs_search j readable file ok offset limit c s small)

-- Reading the log file backwards ends with a result for every file, every buffer that is not empty
-- and every pattern of failing reads: the loop reads at least one byte in each round, so a round for
-- each byte of the file is enough.
pub read_logs-some :
    (j : Json) (q : Search) (size : ℕ) (readable : ℕ → Bool) (file : Text)
    → 0 < size
    → (found : Found) × (read_logs_from_file_backwards j q size readable file ≡ some found)
unfolding read_logs_from_file_backwards
read_logs-some j q size readable file positive =
    let (s, eq) =
      scan_chunks-some j q size file positive readable (length file) (length file) (rested ([], 0))
        (omega arith) in
    (answer j q (last_line j q s), ap (answer_all j q) eq)
