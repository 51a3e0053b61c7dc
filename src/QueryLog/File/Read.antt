-- ===== src/QueryLog/File/Read.antt =====
-- readLogsFromFileBackwards as a loop over whole lines.
use dns_automatic_traffic_sp.Base.{
  ◌≡◌, refl, sym, ◌∙◌, Bool, true, false, ◌&&◌, Bool-cases, inl, inr, Option, none, some, List, [],
  ◌∷◌, ◌++◌, ◌==◌, if◌then◌else◌,
}
use dns_automatic_traffic_sp.Base.Text.{Text}
use dns_automatic_traffic_sp.QueryLog.{LogEntry}
use dns_automatic_traffic_sp.QueryLog.Pages.{Found, matches, visit}
use dns_automatic_traffic_sp.QueryLog.File.{Json, newline}
use dns_automatic_traffic_sp.QueryLog.File.Lines.{keep, lines_from}
use dns_automatic_traffic_sp.QueryLog.File.Scanned.{and_then_assoc, and_then_cong}
use dns_automatic_traffic_sp.QueryLog.File.Backwards.{
  Search, Reader, Scan, going, finished, stops, on_entry, parse_reverse_line, process_line,
  end_line, and_then, scan_bytes,
}

-- What the lines of a file parse to; a line that does not parse is left out.
abbrev pub with_entry : Option LogEntry → List LogEntry → List LogEntry
with_entry none l = l
with_entry (some e) l = e ∷ l

abbrev pub entries_of : (Text → Option LogEntry) → List Text → List LogEntry
entries_of parse [] = []
entries_of parse (s ∷ ls) = with_entry (parse s) (entries_of parse ls)

-- The entries of a file, oldest first.
abbrev pub file_entries : Json → Text → List LogEntry
file_entries j file = entries_of j.unmarshal (lines_from [] file)

abbrev pub rested : Found → Reader
rested found = record { line = []; found = found }

module _ (j : Json) (q : Search) where
  -- The loop over whole lines, each from its last byte.
  abbrev pub process_lines : List Text → Found → Scan
  process_lines [] found = going (rested found)
  process_lines (s ∷ ls) found =
      and_then (on_entry q (parse_reverse_line j s) found) (λ r. process_lines ls r.found)

  -- Behind an entry the line is empty.
  on_entry_then :
      (o : Option LogEntry) (found : Found) (k : Reader → Scan)
      → and_then (on_entry q o found) k ≡ and_then (on_entry q o found) (λ r. k (rested r.found))
  on_entry_then none found k = refl
  on_entry_then (some e) found k =
      by_test (matches e q.text && stops q (visit q.offset q.limit q.text e found).1)
        (visit q.offset q.limit q.text e found)
    where
      by_test :
          (c : Bool) (f : Found)
          → and_then (if c then finished f else going (rested f)) k
            ≡ and_then (if c then finished f else going (rested f)) (λ r. k (rested r.found))
      by_test true f = refl
      by_test false f = refl

  and_then-going : (s : Scan) → and_then s (λ r. going r) ≡ s
  and_then-going (going r) = refl
  and_then-going (finished f) = refl

  end_line-process_lines :
      (line : Text) (found : Found) (ls : List Text) (k : Reader → Scan)
      → ((f : Found) → k (rested f) ≡ process_lines ls f)
      → and_then (end_line j q (record { line = line; found = found })) k
        ≡ process_lines (keep line ls) found
  unfolding process_line
  end_line-process_lines [] found ls k h = h found
  end_line-process_lines (c ∷ s) found ls k h =
      on_entry_then (parse_reverse_line j (c ∷ s)) found k
      ∙ and_then_cong (on_entry q (parse_reverse_line j (c ∷ s)) found) _ _ (λ r. h r.found)

  pub scan_bytes-process_lines :
      (bs line : Text) (found : Found)
      → and_then (scan_bytes j q bs (record { line = line; found = found })) (end_line j q)
        ≡ process_lines (lines_from line bs) found
  unfolding scan_bytes
  scan_bytes-process_lines [] line found =
      sym (and_then-going (end_line j q (record { line = line; found = found })))
      ∙ end_line-process_lines line found [] (λ r. going r) (λ f. refl)
  scan_bytes-process_lines (b ∷ bs) line found = elim (Bool-cases (b == newline)) [
    | inl e ↦ rw e (
        and_then_assoc (end_line j q (record { line = line; found = found })) (scan_bytes j q bs)
          (end_line j q)
        ∙ end_line-process_lines line found (lines_from [] bs) _
            (λ f. scan_bytes-process_lines bs [] f))
    | inr e ↦ rw e (scan_bytes-process_lines bs (line ++ b ∷ []) found)
  ]
