-- ===== src/QueryLog/Pages.antt =====
-- GetLogs of querylog.go over the entries in memory: pages of the newest entries, with and without
-- a search. `offset` and `limit` are numbers: the only caller, the web server's log handler, passes
-- 15 for `limit` and sets a negative `offset` to 0. So the test `offset < 0` does not appear.
pub mod Fold
pub mod Result
use dns_automatic_traffic_sp.Base.{
  ℕ, zero, suc, ◌+◌, ◌-◌, ◌*◌, ◌^◌, ◌≤◌, ◌<◌, ◌≡◌, refl, sym, ap, ap₂, ◌∙◌, inl, inr, Bool, true,
  false, ◌||◌, ◌&&◌, Option, none, some, List, [], ◌∷◌, ◌++◌, reverse, append-nil, append_assoc,
  arith, ltb, leb, ◌==◌, if◌then◌else◌, length, get_elem?, take, drop, select, inc64, max_int64,
  Bool-cases, length-append, length-take, length-drop, take-append_left, take-append-drop, lt→ltb,
  drop-append_left, drop-length, take-length, drop-eq-cons, reverse-cons, length-select-le,
  length-reverse,
}
use mathlib.Core.List.{reverse-append}
use native.Mathlib.Decide.{dec_lt, dec_le}
use dns_automatic_traffic_sp.Base.Text.{Text, contains, to_lower, is_empty}
use dns_automatic_traffic_sp.QueryLog.{LogEntry, QueryLogger, log_at}
use dns_automatic_traffic_sp.QueryLog.Ring.{IsRing, contents, length-contents, log_at-get_elem?}

unfoldable pub matches : LogEntry → Text → Bool
matches entry search_lower =
    is_empty search_lower
    || contains (to_lower entry.client_ip) search_lower
    || contains (to_lower entry.downstream_ecs) search_lower
    || contains (to_lower entry.domain) search_lower
    || contains (to_lower entry.qtype) search_lower
    || contains (to_lower entry.upstream) search_lower
    || contains (to_lower entry.answer) search_lower
    || contains (to_lower entry.status) search_lower

-- `append(result, p)` for a pointer; an index out of range, where the source panics, adds nothing.
abbrev pub append_entry : List LogEntry → Option LogEntry → List LogEntry
append_entry result none = result
append_entry result (some e) = result ++ e ∷ []

-- `for i := n - 1; i >= 0 && len(result) < limit; i--`
unfoldable pub page_loop : QueryLogger → ℕ → ℕ → List LogEntry → List LogEntry
page_loop l limit zero result = result
page_loop l limit (suc i) result =
    let rest = page_loop l limit i (append_entry result (log_at l i)) in
    if ltb (length result) limit then rest else result

-- The result so far, and the number of matches.
abbrev pub Found : Type 0
Found = List LogEntry × ℕ

-- The body of both search loops of the file, for one entry.
unfoldable pub visit : ℕ → ℕ → Text → LogEntry → Found → Found
visit offset limit search_lower entry (result, count) =
    if matches entry search_lower
    then (
      if leb offset count && ltb (length result) limit then result ++ entry ∷ [] else result,
      inc64 count,
    )
    else (result, count)

abbrev pub visit_at : ℕ → ℕ → Text → Option LogEntry → Found → Found
visit_at offset limit search_lower none acc = acc
visit_at offset limit search_lower (some e) acc = visit offset limit search_lower e acc

-- `for i := n - 1; i >= 0; i--`
unfoldable pub search_loop : QueryLogger → ℕ → ℕ → Text → ℕ → Found → Found
search_loop l offset limit search_lower zero acc = acc
search_loop l offset limit search_lower (suc i) acc =
    search_loop l offset limit search_lower i (visit_at offset limit search_lower (log_at l i) acc)

unfoldable pub get_memory_logs : QueryLogger → ℕ → ℕ → Text → Found
get_memory_logs l offset limit search =
    let total = length l.logs in
    if is_empty search
    then (if total == 0 || leb total offset
        then ([], total)
        else (page_loop l limit (total - offset) [], total))
    else search_loop l offset limit (to_lower search) total ([], 0)

-- The page of a list: at most `limit` elements behind the first `offset`.
abbrev pub page {ℓ} : {A : Type ℓ} → ℕ → ℕ → List A → List A
page offset limit xs = take limit (drop offset xs)

-- The loops as a fold over a list of entries.
abbrev pub visit_all : ℕ → ℕ → Text → List LogEntry → Found → Found
visit_all offset limit s [] acc = acc
visit_all offset limit s (e ∷ q) acc = visit_all offset limit s q (visit offset limit s e acc)
