-- ===== src/QueryLog/Pages/Result.antt =====
-- What GetLogs returns from memory.
use dns_automatic_traffic_sp.Base.{
  reverse-take, reverse-take-drop, ℕ, zero, suc, ◌-◌, ◌≤◌, ◌<◌, ◌≡◌, refl, sym, ap, ap₂, ◌∙◌, some,
  List, [], ◌∷◌, ◌++◌, reverse, append-nil, arith, length, get_elem?, take, select, max_int64,
  lt→ltb, drop-length, take-length, drop-eq-cons, length-reverse,
}
use native.Mathlib.Decide.{dec_lt, dec_le}
use dns_automatic_traffic_sp.Base.Text.{Text, to_lower}
use dns_automatic_traffic_sp.QueryLog.{LogEntry, QueryLogger, log_at}
use dns_automatic_traffic_sp.QueryLog.Ring.{IsRing, contents, length-contents, log_at-get_elem?}
use dns_automatic_traffic_sp.QueryLog.Pages.{
  Found, matches, page_loop, visit, search_loop, get_memory_logs, page, visit_all,
}
use dns_automatic_traffic_sp.QueryLog.Pages.Fold.{
  visit_all-page, page-nil, append-take_room, append-take_full,
}

module _ (l : QueryLogger) (v : IsRing l) where
  -- The entry that the loops read at an index in range.
  entry_at :
      (i : ℕ)
      → i < length l.logs
      → (e : LogEntry) × (log_at l i ≡ some e) × (get_elem? (contents l) i ≡ some e)
  entry_at i h =
      let (e, g, _) = drop-eq-cons (contents l) i (omega (arith, length-contents l)) in
      (e, log_at-get_elem? l i v h ∙ g, g)

  search_loop-visit_all :
      (offset limit : ℕ) (s : Text) (n : ℕ) (acc : Found)
      → n ≤ length l.logs
      → search_loop l offset limit s n acc
        ≡ visit_all offset limit s (reverse (take n (contents l))) acc
  unfolding search_loop
  search_loop-visit_all offset limit s zero acc h = refl
  search_loop-visit_all offset limit s (suc i) acc h =
      let (e, g, c) = entry_at i h in
      rw (g, reverse-take (contents l) i e c)
        (search_loop-visit_all offset limit s i (visit offset limit s e acc) (omega arith))

  page_loop-take :
      (limit n : ℕ) (result : List LogEntry)
      → n ≤ length l.logs
      → page_loop l limit n result
        ≡ result ++ take (limit - length result) (reverse (take n (contents l)))
  unfolding page_loop
  page_loop-take limit zero result h = sym (
      ap (λ t. result ++ t) (take-length [] (limit - length result) (omega arith))
      ∙ append-nil result)
  page_loop-take limit (suc i) result h =
      let (e, g, c) = entry_at i h in
      elim (dec_lt (length result) limit) [
        | yes room ↦
            rw (lt→ltb (length result) limit room, g, reverse-take (contents l) i e c)
              (page_loop-take limit i (result ++ e ∷ []) (omega arith)
                ∙ append-take_room limit result (reverse (take i (contents l))) e room)
        | no full ↦ ground (
          arith,
          append-take_full limit result (reverse (take (suc i) (contents l))) (omega arith),
        )
      ]

  get_memory_logs-page :
      (offset limit : ℕ)
      → get_memory_logs l offset limit []
        ≡ (page offset limit (reverse (contents l)), length (contents l))
  unfolding get_memory_logs
  get_memory_logs-page offset limit = elim (dec_le (length l.logs) offset) [
    | yes past ↦ ground (
      arith,
      length-contents l,
      ap (take limit) (
          drop-length (reverse (contents l)) offset
            (omega (arith, length-reverse (contents l), length-contents l))),
      take-length {A = LogEntry} [] limit (omega arith),
    )
    | no within ↦ ground (
      arith,
      length-contents l,
      page_loop-take limit (length l.logs - offset) [] (omega arith),
      reverse-take-drop (contents l) offset (omega (arith, length-contents l)),
    )
  ]

  get_memory_logs_search :
      (offset limit : ℕ) (c : ℕ) (s : Text)
      → length l.logs < max_int64
      → get_memory_logs l offset limit (c ∷ s) ≡ (
        page offset limit (select (λ e. matches e (to_lower (c ∷ s))) (reverse (contents l))),
        length (select (λ e. matches e (to_lower (c ∷ s))) (reverse (contents l))),
      )
  unfolding get_memory_logs
  get_memory_logs_search offset limit c s h =
      search_loop-visit_all offset limit (to_lower (c ∷ s)) (length l.logs) ([], 0) (omega arith)
      ∙ ap (λ q. visit_all offset limit (to_lower (c ∷ s)) (reverse q) ([], 0))
          (take-length (contents l) (length l.logs) (omega (arith, length-contents l)))
      ∙ ap (λ q. visit_all offset limit (to_lower (c ∷ s)) (reverse (contents l)) (q, 0))
          (sym (page-nil offset limit))
      ∙ visit_all-page offset limit (to_lower (c ∷ s)) (reverse (contents l)) []
          (omega (arith, length-reverse (contents l), length-contents l))

select-matches_nil : (q : List LogEntry) → select (λ e. matches e []) q ≡ q
unfolding matches
select-matches_nil [] = refl
select-matches_nil (e ∷ q) = ap (λ t. e ∷ t) (select-matches_nil q)

-- GetLogs on a logger that keeps its entries in memory only, and whose ring buffer is valid and
-- shorter than the largest `int64`: of the buffered entries that match the search text in lower
-- case (all of them, if the text is empty), taken newest first, it returns those behind the first
-- `offset`, at most `limit` of them, and the number of all that match.
pub get_memory_logs_lem :
    (l : QueryLogger) (offset limit : ℕ) (search : Text)
    → IsRing l
    → length l.logs < max_int64
    → let hits = select (λ e. matches e (to_lower search)) (reverse (contents l)) in
      get_memory_logs l offset limit search ≡ (page offset limit hits, length hits)
get_memory_logs_lem l offset limit [] v h =
    get_memory_logs-page l v offset limit
    ∙ ap₂ (λ (a : List LogEntry) (b : ℕ). (a, b))
        (ap (page offset limit) (sym (select-matches_nil (reverse (contents l)))))
        (sym (length-reverse (contents l))
          ∙ ap length (sym (select-matches_nil (reverse (contents l)))))
get_memory_logs_lem l offset limit (c ∷ s) v h = get_memory_logs_search l v offset limit c s h
