-- ===== src/QueryLog/File/Paged.antt =====
-- What GetLogs returns from the log file: pages of the entries that are there, newest first.
use dns_automatic_traffic_sp.Base.{
  ℕ, ◌+◌, ◌^◌, ◌≤◌, ◌<◌, ◌≡◌, refl, sym, ap, ap₂, ◌∙◌, Bool, true, false, ◌&&◌, Bool-cases, inl,
  inr, Option, none, some, List, [], ◌∷◌, ◌++◌, map, reverse, reverse-cons, append-nil,
  append_assoc, if◌then◌else◌, length, take, drop, select, arith, length-append, length-drop,
  take-append_left, drop-append_left, take-length,
}
use mathlib.Core.List.{reverse-reverse}
use dns_automatic_traffic_sp.Base.Text.{Text}
use dns_automatic_traffic_sp.QueryLog.{LogEntry}
use dns_automatic_traffic_sp.QueryLog.Pages.{Found, matches, visit, visit_all, page}
use dns_automatic_traffic_sp.QueryLog.Pages.Fold.{visit-match}
use dns_automatic_traffic_sp.QueryLog.File.{Json}
use dns_automatic_traffic_sp.QueryLog.File.Lines.{lines_from, lines-reverse}
use dns_automatic_traffic_sp.QueryLog.File.Scanned.{scan_chunks-scan_bytes}
use dns_automatic_traffic_sp.QueryLog.File.Backwards.{
  Search, Reader, Scan, going, finished, stops, on_entry, parse_reverse_line, and_then, scan_bytes,
  last_line, answer, answer_all, read_logs_from_file_backwards,
}
use dns_automatic_traffic_sp.QueryLog.File.Read.{
  with_entry, entries_of, file_entries, rested, process_lines, scan_bytes-process_lines,
}

any_matches : (e : LogEntry) → matches e [] ≡ true
unfolding matches
any_matches e = refl

pub select-matches_nil : (es : List LogEntry) → select (λ e. matches e []) es ≡ es
select-matches_nil [] = refl
select-matches_nil (e ∷ es) = rw (any_matches e) (ap (λ t. e ∷ t) (select-matches_nil es))

and_false : (b : Bool) → (b && false) ≡ false
and_false true = refl
and_false false = refl

module _ (j : Json) (q : Search) where
  -- Where nothing stops the loop, every entry is visited.
  on_entry-going :
      (e : LogEntry) (found : Found)
      → ((count : ℕ) → stops q count ≡ false)
      → on_entry q (some e) found ≡ going (rested (visit q.offset q.limit q.text e found))
  on_entry-going e found never =
      let found' = visit q.offset q.limit q.text e found in
      ap (λ c. if matches e q.text && c then finished found' else going (rested found'))
        (never found'.1)
      ∙ ap (λ c. if c then finished found' else going (rested found')) (and_false _)

  pub process_lines-visit_all :
      (ls : List Text) (found : Found)
      → ((count : ℕ) → stops q count ≡ false)
      → process_lines j q ls found
        ≡ going (
            rested (visit_all q.offset q.limit q.text (entries_of (parse_reverse_line j) ls) found))
  process_lines-visit_all [] found never = refl
  process_lines-visit_all (s ∷ ls) found never =
      by_entry (parse_reverse_line j s) (λ f. process_lines-visit_all ls f never)
    where
      by_entry :
          (o : Option LogEntry)
          → ((f : Found)
              → process_lines j q ls f
                ≡ going (
                    rested
                      (visit_all q.offset q.limit q.text (entries_of (parse_reverse_line j) ls) f)))
          → and_then (on_entry q o found) (λ r. process_lines j q ls r.found)
            ≡ going (
                rested (
                  visit_all q.offset q.limit q.text
                    (with_entry o (entries_of (parse_reverse_line j) ls))
                    found))
      by_entry none ih = ih found
      by_entry (some e) ih =
          ap (λ o. and_then o (λ r. process_lines j q ls r.found)) (on_entry-going e found never)
          ∙ ih (visit q.offset q.limit q.text e found)

-- A page that has all its entries does not change any more.
page-full :
    (offset limit : ℕ) (xs ys : List LogEntry)
    → offset + limit ≤ length xs
    → page offset limit (xs ++ ys) ≡ page offset limit xs
page-full offset limit xs ys h =
    ap (take limit) (drop-append_left offset xs ys (omega (arith, h)))
    ∙ take-append_left limit (drop offset xs) ys (omega (arith, h, length-drop offset xs))

-- The search without a text, which stops behind the page.
abbrev pub plain_search : ℕ → ℕ → ℕ → Search
plain_search offset limit hint = record {
  offset = offset;
  limit = limit;
  text = [];
  stop_after = offset + limit;
  hint = some hint;
}

module _ (j : Json) (offset limit hint : ℕ) where
  stopped-page :
      (done : List LogEntry) (rest : List LogEntry)
      → stops (plain_search offset limit hint) (length done) ≡ true
      → page offset limit (done ++ rest) ≡ page offset limit done
  stopped-page done rest h = page-full offset limit done rest (ground (arith, h))

  -- One more entry fills the page, or the loop goes on.
  on_entry-page :
      (e : LogEntry) (done rest : List LogEntry) (k : Reader → Scan)
      → length done + 1 < 2 ^ 64
      → answer j
          (plain_search offset limit hint)
          (k (rested (page offset limit (done ++ e ∷ []), length (done ++ e ∷ []))))
        ≡ (page offset limit (done ++ e ∷ rest), hint)
      → answer j (plain_search offset limit hint) (
          and_then
            (on_entry
              (plain_search offset limit hint)
              (some e)
              (page offset limit done, length done))
            k)
        ≡ (page offset limit (done ++ e ∷ rest), hint)
  on_entry-page e done rest k small go_on =
      let q = plain_search offset limit hint in
      ap
        (λ f.
          answer j q
            (and_then (if matches e [] && stops q f.1 then finished f else going (rested f)) k))
        (visit-match offset limit [] e done (any_matches e) small)
      ∙ (elim (Bool-cases (stops q (length (done ++ e ∷ [])))) [
        | inl full ↦
            rw (any_matches e, full)
              (ap (λ t. (t, hint))
                (sym (stopped-page (done ++ e ∷ []) rest full)
                  ∙ ap (page offset limit) (append_assoc done (e ∷ []) rest)))
        | inr more ↦ rw (any_matches e, more) go_on
      ])

  pub process_lines-page :
      (ls : List Text) (done : List LogEntry)
      → length done + length (entries_of (parse_reverse_line j) ls) < 2 ^ 64
      → answer j (plain_search offset limit hint) (
          process_lines j (plain_search offset limit hint) ls (page offset limit done, length done))
        ≡ (page offset limit (done ++ entries_of (parse_reverse_line j) ls), hint)
  process_lines-page [] done small = ap (λ t. (page offset limit t, hint)) (sym (append-nil done))
  process_lines-page (s ∷ ls) done small =
      by_entry (parse_reverse_line j s) small (process_lines-page ls)
    where
      by_entry :
          (o : Option LogEntry)
          → length done + length (with_entry o (entries_of (parse_reverse_line j) ls)) < 2 ^ 64
          → ((done' : List LogEntry)
              → length done' + length (entries_of (parse_reverse_line j) ls) < 2 ^ 64
              → answer j (plain_search offset limit hint) (
                  process_lines j
                    (plain_search offset limit hint)
                    ls
                    (page offset limit done', length done'))
                ≡ (page offset limit (done' ++ entries_of (parse_reverse_line j) ls), hint))
          → answer j (plain_search offset limit hint) (
              and_then
                (on_entry (plain_search offset limit hint) o (page offset limit done, length done))
                (λ r. process_lines j (plain_search offset limit hint) ls r.found))
            ≡ (
              page offset limit (done ++ with_entry o (entries_of (parse_reverse_line j) ls)),
              hint,
            )
      by_entry none small' ih = ih done small'
      by_entry (some e) small' ih =
          on_entry-page e done (entries_of (parse_reverse_line j) ls)
            (λ r. process_lines j (plain_search offset limit hint) ls r.found) (omega arith)
            (ih (done ++ e ∷ []) (omega (arith, length-append done (e ∷ [])))
              ∙ ap (λ t. (page offset limit t, hint))
                  (append_assoc done (e ∷ []) (entries_of (parse_reverse_line j) ls)))

-- The entries of the lines in reverse order.
with_entry-append :
    (o : Option LogEntry) (es fs : List LogEntry) → with_entry o es ++ fs ≡ with_entry o (es ++ fs)
with_entry-append none es fs = refl
with_entry-append (some e) es fs = refl

pub entries_of-append :
    (parse : Text → Option LogEntry) (ls ms : List Text)
    → entries_of parse (ls ++ ms) ≡ entries_of parse ls ++ entries_of parse ms
entries_of-append parse [] ms = refl
entries_of-append parse (s ∷ ls) ms =
    ap (with_entry (parse s)) (entries_of-append parse ls ms)
    ∙ sym (with_entry-append (parse s) (entries_of parse ls) (entries_of parse ms))

with_entry-reverse :
    (o : Option LogEntry) (es : List LogEntry)
    → reverse es ++ with_entry o [] ≡ reverse (with_entry o es)
with_entry-reverse none es = append-nil (reverse es)
with_entry-reverse (some e) es = sym (reverse-cons e es)

entries_of-reverse :
    (j : Json) (ls : List Text)
    → entries_of (parse_reverse_line j) (reverse (map reverse ls))
      ≡ reverse (entries_of j.unmarshal ls)
unfolding parse_reverse_line
entries_of-reverse j [] = refl
entries_of-reverse j (s ∷ ls) =
    ap (entries_of (parse_reverse_line j)) (reverse-cons (reverse s) (map reverse ls))
    ∙ entries_of-append (parse_reverse_line j) (reverse (map reverse ls)) (reverse s ∷ [])
    ∙ ap₂ (λ (x y : List LogEntry). x ++ y) (entries_of-reverse j ls)
        (ap (λ t. with_entry (j.unmarshal t) []) (reverse-reverse s))
    ∙ with_entry-reverse (j.unmarshal s) (entries_of j.unmarshal ls)

pub newest_first :
    (j : Json) (file : Text)
    → entries_of (parse_reverse_line j) (lines_from [] (reverse file))
      ≡ reverse (file_entries j file)
newest_first j file =
    ap (entries_of (parse_reverse_line j)) (lines-reverse file)
    ∙ entries_of-reverse j (lines_from [] file)

-- The whole reader is the loop over the lines.
pub read_logs-process_lines :
    (j : Json) (q : Search) (size : ℕ) (readable : ℕ → Bool) (file : Text)
    → 0 < size
    → ((p : ℕ) → readable p ≡ true)
    → read_logs_from_file_backwards j q size readable file
      ≡ some (answer j q (process_lines j q (lines_from [] (reverse file)) ([], 0)))
unfolding read_logs_from_file_backwards
read_logs-process_lines j q size readable file positive ok =
    ap (answer_all j q) (
      scan_chunks-scan_bytes j q size file positive readable (length file) (length file)
        (rested ([], 0)) ok (omega arith))
    ∙ ap (λ t. some (answer j q (last_line j q (scan_bytes j q (reverse t) (rested ([], 0))))))
        (take-length file (length file) (omega arith))
    ∙ ap (λ t. some (answer j q t)) (scan_bytes-process_lines j q (reverse file) [] ([], 0))
