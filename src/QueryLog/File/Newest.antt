-- ===== src/QueryLog/File/Newest.antt =====
-- An entry that has been appended to the log file is the newest that GetLogs returns.
use dns_automatic_traffic_sp.Base.{
  ℕ, zero, suc, ◌+◌, ◌≤◌, ◌<◌, ◌≡◌, refl, ap, ap₂, ◌∙◌, Bool, true, false, Bool-cases, inl, inr,
  Option, none, some, List, [], ◌∷◌, ◌++◌, reverse, ◌==◌, if◌then◌else◌, length, drop, arith,
  length-append, length-drop, max_int64, subst,
}
use mathlib.Core.List.{reverse-append}
use dns_automatic_traffic_sp.Base.Text.{Text, is_empty}
use dns_automatic_traffic_sp.QueryLog.{LogEntry, QueryLogger}
use dns_automatic_traffic_sp.QueryLog.Pages.{page}
use dns_automatic_traffic_sp.QueryLog.File.{
  Json, newline, limit_bytes, count_newlines, append_to_file,
}
use dns_automatic_traffic_sp.QueryLog.File.Lines.{
  keep, lines_from, keep-append, lines_from-newline, lines_from-one, has_newline,
}
use dns_automatic_traffic_sp.QueryLog.File.Read.{with_entry, entries_of, file_entries}
use dns_automatic_traffic_sp.QueryLog.File.Paged.{entries_of-append, select-matches_nil}
use dns_automatic_traffic_sp.QueryLog.File.Backwards.{get_logs}
use dns_automatic_traffic_sp.QueryLog.File.Logs.{get_logs_lem}
use dns_automatic_traffic_sp.QueryLog.File.Appended.{
  no_faults, counted, Unpruned, append_to_file-bounded, count_newlines-append, count_newlines-line,
}

-- The file is empty or its last byte is a newline.
abbrev pub ends_line : Text → Bool
ends_line [] = true
ends_line (b ∷ s) = if is_empty s then b == newline else ends_line s

ends_line-drop : (n : ℕ) (s : Text) → ends_line s ≡ true → ends_line (drop n s) ≡ true
ends_line-drop zero s h = h
ends_line-drop (suc n) [] h = refl
ends_line-drop (suc n) (b ∷ []) h = ends_line-drop n [] refl
ends_line-drop (suc n) (b ∷ c ∷ s) h = ends_line-drop n (c ∷ s) h

-- Behind a whole line a new one starts.
lines_from-ends_line :
    (cur : Text) (b : ℕ) (s t : Text)
    → ends_line (b ∷ s) ≡ true
    → lines_from cur (b ∷ s ++ t) ≡ lines_from cur (b ∷ s) ++ lines_from [] t
lines_from-ends_line cur b [] t h = rw h (keep-append cur [] (lines_from [] t))
lines_from-ends_line cur b (c ∷ s) t h = elim (Bool-cases (b == newline)) [
  | inl e ↦ rw e (
      ap (keep cur) (lines_from-ends_line [] c s t h)
      ∙ keep-append cur (lines_from [] (c ∷ s)) (lines_from [] t))
  | inr e ↦ rw e (lines_from-ends_line (cur ++ b ∷ []) c s t h)
]

lines_from-append :
    (s t : Text) → ends_line s ≡ true → lines_from [] (s ++ t) ≡ lines_from [] s ++ lines_from [] t
lines_from-append [] t h = refl
lines_from-append (b ∷ s) t h = lines_from-ends_line [] b s t h

keep-nonempty : (s : Text) → is_empty s ≡ false → keep s [] ≡ s ∷ []
keep-nonempty [] h = absurd (ground (arith, h))
keep-nonempty (c ∷ s) h = refl

has_newline-count : (s : Text) → has_newline s ≡ false → count_newlines s ≡ 0
unfolding count_newlines
has_newline-count [] h = refl
has_newline-count (b ∷ s) h = ground (arith, h, has_newline-count s)

-- No more entries than bytes.
length-keep : (cur : Text) (ls : List Text) → length (keep cur ls) ≤ length cur + length ls
length-keep [] ls = omega arith
length-keep (c ∷ s) ls = omega arith

length-lines_from : (cur s : Text) → length (lines_from cur s) ≤ length cur + length s
length-lines_from cur [] = length-keep cur []
length-lines_from cur (b ∷ s) = elim (Bool-cases (b == newline)) [
  | inl e ↦ rw e (omega (arith, length-keep cur (lines_from [] s), length-lines_from [] s))
  | inr e ↦ rw e (omega (arith, length-lines_from (cur ++ b ∷ []) s, length-append cur (b ∷ [])))
]

length-with_entry :
    (o : Option LogEntry) (es : List LogEntry) → length (with_entry o es) ≤ suc (length es)
length-with_entry none es = omega arith
length-with_entry (some e) es = omega arith

length-entries_of :
    (parse : Text → Option LogEntry) (ls : List Text) → length (entries_of parse ls) ≤ length ls
length-entries_of parse [] = omega arith
length-entries_of parse (s ∷ ls) =
    omega (arith, length-with_entry (parse s) (entries_of parse ls), length-entries_of parse ls)

length-file_entries : (j : Json) (s : Text) → length (file_entries j s) ≤ length s
length-file_entries j s =
    omega (arith, length-entries_of j.unmarshal (lines_from [] s), length-lines_from [] s)

count_newlines-length : (s : Text) → count_newlines s ≤ length s
unfolding count_newlines
count_newlines-length [] = omega arith
count_newlines-length (b ∷ s) = ground (arith, count_newlines-length s)

file_entries-line :
    (j : Json) (entry : LogEntry) (kept json : Text)
    → j.unmarshal json ≡ some entry
    → has_newline json ≡ false
    → is_empty json ≡ false
    → ends_line kept ≡ true
    → file_entries j (kept ++ (json ++ newline ∷ [])) ≡ file_entries j kept ++ entry ∷ []
file_entries-line j entry kept json u one_line some_bytes h =
    ap (entries_of j.unmarshal) (
      lines_from-append kept (json ++ newline ∷ []) h
      ∙ ap (λ (t : List Text). lines_from [] kept ++ t)
          (lines_from-newline [] json []
            ∙ ap (λ (t : List Text). t ++ [])
                (lines_from-one [] json one_line ∙ keep-nonempty json some_bytes)))
    ∙ entries_of-append j.unmarshal (lines_from [] kept) (json ∷ [])
    ∙ ap (λ o. file_entries j kept ++ with_entry o []) u

-- An entry that is appended to a log file and read back. The logger is enabled and writes to a file
-- with a name, which is empty or ends with a newline and whose newlines the count of persisted
-- entries is; no call of the file system fails; the entry has an encoding that decodes to it, is not
-- empty and has no newline; and the file with the new line has fewer than 2^63 - 1 bytes. Then GetLogs
-- without a search text pages through the new entry followed by the entries of what is left of the
-- old file, newest first, and its total is one more than the lines of what is left. What is left is
-- the whole old file unless that would have become larger than the limit.
pub append_to_file-get_logs :
    (j : Json) (readable : ℕ → Bool) (l : QueryLogger) (entry : LogEntry) (file json : Text)
    (offset limit : ℕ)
    → l.enabled ≡ true
    → l.save_to_file ≡ true
    → is_empty l.file_path ≡ false
    → ((p : ℕ) → readable p ≡ true)
    → j.marshal entry ≡ some json
    → j.unmarshal json ≡ some entry
    → has_newline json ≡ false
    → is_empty json ≡ false
    → ends_line file ≡ true
    → length file + length json + 1 < max_int64
    → (n : ℕ) × (get_logs j readable
          (some l)
          (append_to_file j no_faults l.max_size_mb entry (counted file))
          offset
          limit
          []
        ≡ (
          page offset limit (entry ∷ reverse (file_entries j (drop n file))),
          count_newlines (drop n file) + 1,
        ))
      × Unpruned (limit_bytes l.max_size_mb) file (length json + 1) n
append_to_file-get_logs j readable l entry file json offset limit on to_file path ok m u one_line
      some_bytes h small =
    let one = has_newline-count json one_line in
    let (n, e, _, unpruned) =
      append_to_file-bounded j l.max_size_mb entry file json m one
        (omega (arith, count_newlines-length file, small)) in
    let kept = drop n file in
    let s = kept ++ (json ++ newline ∷ []) in
    let bytes = length-append kept (json ++ newline ∷ []) in
    let line = length-append json (newline ∷ []) in
    let total =
      count_newlines-append kept (json ++ newline ∷ [])
      ∙ ap (λ k. count_newlines kept + k) (count_newlines-line json one) in
    (
      n,
      ap (λ d. get_logs j readable (some l) d offset limit []) e
          ∙ get_logs_lem j readable l s (count_newlines s) offset limit [] on to_file path ok
              (omega (arith, length-file_entries j s, bytes, line, length-drop n file, small))
              (omega (arith, count_newlines-length s, bytes, line, length-drop n file, small))
          ∙ ap₂ (λ (es : List LogEntry) (k : ℕ). (page offset limit es, k))
              (select-matches_nil (reverse (file_entries j s))
                ∙ ap (λ (es : List LogEntry). reverse es)
                    (file_entries-line j entry kept json u one_line some_bytes
                      (ends_line-drop n file h))
                ∙ reverse-append (file_entries j kept) (entry ∷ []))
              total,
      subst (λ k. Unpruned (limit_bytes l.max_size_mb) file k n) line unpruned,
    )
