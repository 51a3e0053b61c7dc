-- ===== src/QueryLog/Counters.antt =====
-- TopClients and TopDomains of querylog.go, and the entries in the ring buffer.
use dns_automatic_traffic_sp.Base.{
  ℕ, zero, suc, ◌+◌, ◌≤◌, ◌<◌, ◌≡◌, refl, sym, ap, ◌∙◌, Option, none, some, List, [], ◌∷◌, ◌++◌,
  arith, if◌then◌else◌, length, get_elem?, max_int64, length-append,
}
use native.Mathlib.Decide.{dec_lt}
use dns_automatic_traffic_sp.Base.Text.{Text, text_eq, text_eq_iff}
use dns_automatic_traffic_sp.Base.Maps.{Map, lookup, lookup-insert, lookup-delete}
use dns_automatic_traffic_sp.QueryLog.{
  LogEntry, QueryLogger, bump, drop_one, count_entry, decrement_top_counters, add_to_memory,
}
use dns_automatic_traffic_sp.QueryLog.Ring.{
  IsRing, contents, length-contents, contents-add_to_memory, evicted-head,
}

-- What a counter map holds for a count: a key with count 0 is absent.
abbrev pub tally : ℕ → Option ℕ
tally zero = none
tally (suc n) = some (suc n)

abbrev pub occurrences : (LogEntry → Text) → Text → List LogEntry → ℕ
occurrences f k [] = 0
occurrences f k (e ∷ q) = if text_eq (f e) k then suc (occurrences f k q) else occurrences f k q

abbrev pub Counts : (LogEntry → Text) → Map ℕ → List LogEntry → Type 0
Counts f m q = (k : Text) → lookup k m ≡ tally (occurrences f k q)

pub record IsCounted (l : QueryLogger) : Type 0 where
  pub clients : Counts (λ e. e.client_ip) l.stats.top_clients (contents l)
  pub domains : Counts (λ e. e.domain) l.stats.top_domains (contents l)

occurrences-append :
    (f : LogEntry → Text) (k : Text) (p q : List LogEntry)
    → occurrences f k (p ++ q) ≡ occurrences f k p + occurrences f k q
occurrences-append f k [] q = omega arith
occurrences-append f k (e ∷ p) q = ground (arith, occurrences-append f k p q)

occurrences-le : (f : LogEntry → Text) (k : Text) (q : List LogEntry) → occurrences f k q ≤ length q
occurrences-le f k [] = omega arith
occurrences-le f k (e ∷ q) = ground (arith, occurrences-le f k q)

lookup-bump :
    (k j : Text) (m : Map ℕ) (c : ℕ)
    → lookup k m ≡ tally c
    → c < max_int64
    → lookup j (bump k m) ≡ (if text_eq k j then some (suc c) else lookup j m)
unfolding bump
lookup-bump k j m zero e h = ground (arith, lookup-insert k j 1 m)
lookup-bump k j m (suc c) e h = ground (arith, lookup-insert k j (suc (suc c)) m)

lookup-drop_one :
    (k j : Text) (m : Map ℕ) (c : ℕ)
    → lookup k m ≡ tally (suc c)
    → c < max_int64
    → lookup j (drop_one k m) ≡ (if text_eq k j then tally c else lookup j m)
unfolding drop_one
lookup-drop_one k j m zero e h = ground (arith, lookup-delete k j m)
lookup-drop_one k j m (suc c) e h = ground (arith, lookup-insert k j (suc c) m)

bump-Counts :
    (f : LogEntry → Text) (m : Map ℕ) (q : List LogEntry) (e : LogEntry)
    → length q < max_int64
    → Counts f m q
    → Counts f (bump (f e) m) (q ++ e ∷ [])
bump-Counts f m q e h c k = ground (
  arith,
  lookup-bump (f e) k m (occurrences f (f e) q),
  c (f e),
  c k,
  occurrences-le f (f e) q,
  occurrences-append f k q (e ∷ []),
  text_eq_iff (f e) k,
)

drop_one-Counts :
    (f : LogEntry → Text) (m : Map ℕ) (q : List LogEntry) (e : LogEntry)
    → length q < max_int64
    → Counts f m (e ∷ q)
    → Counts f (drop_one (f e) m) q
drop_one-Counts f m q e h c k = ground (
  arith,
  lookup-drop_one (f e) k m (occurrences f (f e) q),
  c (f e),
  c k,
  occurrences-le f (f e) q,
  text_eq_iff (f e) k,
  text_eq_iff (f e) (f e),
)

stats-add_room :
    (l : QueryLogger) (e : LogEntry)
    → length l.logs < l.max_history
    → (add_to_memory l e).stats ≡ count_entry e l.stats
unfolding add_to_memory
stats-add_room l e h = ground arith

stats-add_full :
    (l : QueryLogger) (e x : LogEntry)
    → IsRing l
    → l.max_history ≤ length l.logs
    → get_elem? l.logs l.logs_start ≡ some x
    → (add_to_memory l e).stats ≡ decrement_top_counters (count_entry e l.stats) (some x)
unfolding add_to_memory
stats-add_full l e x v h g = ground arith

add_room-IsCounted :
    (l : QueryLogger) (e : LogEntry)
    → IsRing l
    → l.max_history < max_int64
    → length l.logs < l.max_history
    → IsCounted l
    → IsCounted (add_to_memory l e)
add_room-IsCounted l e v small room c = record {
  clients =
      rw (stats-add_room l e room, grown)
        (bump-Counts (λ x. x.client_ip) l.stats.top_clients (contents l) e fits c.clients);
  domains =
      rw (stats-add_room l e room, grown)
        (bump-Counts (λ x. x.domain) l.stats.top_domains (contents l) e fits c.domains);
}
  where
    fits : length (contents l) < max_int64
    fits = omega (arith, length-contents l)

    grown : contents (add_to_memory l e) ≡ contents l ++ e ∷ []
    grown = contents-add_to_memory l e v ∙ ground (arith, length-contents l)

add_full-IsCounted :
    (l : QueryLogger) (e x : LogEntry) (rest : List LogEntry)
    → IsRing l
    → l.max_history < max_int64
    → l.max_history ≤ length l.logs
    → contents l ≡ x ∷ rest
    → IsCounted l
    → IsCounted (add_to_memory l e)
unfolding decrement_top_counters
add_full-IsCounted l e x rest v small full q c = record {
  clients =
      rw (stats-add_full l e x v full evicted, shifted)
        (counted (λ y. y.client_ip) l.stats.top_clients c.clients);
  domains =
      rw (stats-add_full l e x v full evicted, shifted)
        (counted (λ y. y.domain) l.stats.top_domains c.domains);
}
  where
    len : suc (length rest) ≡ length l.logs
    len = sym (ap length q) ∙ length-contents l

    evicted : get_elem? l.logs l.logs_start ≡ some x
    evicted = evicted-head l v (omega (arith, len)) ∙ ap (λ p. get_elem? p 0) q

    shifted : contents (add_to_memory l e) ≡ rest ++ e ∷ []
    shifted = contents-add_to_memory l e v ∙ rw q (ground (arith, len))

    counted :
        (f : LogEntry → Text) (m : Map ℕ)
        → Counts f m (contents l)
        → Counts f (drop_one (f x) (bump (f e) m)) (rest ++ e ∷ [])
    counted f m h =
        drop_one-Counts f (bump (f e) m) (rest ++ e ∷ []) x
          (omega (arith, length-append rest (e ∷ []), len, v.bounded))
          (bump-Counts f m (x ∷ rest) e (omega (arith, len, v.bounded)) (rw q at h))

-- Storing an entry keeps TopClients and TopDomains equal to the counts over the buffer.
pub add_to_memory-IsCounted :
    (l : QueryLogger) (e : LogEntry)
    → IsRing l
    → l.max_history < max_int64
    → IsCounted l
    → IsCounted (add_to_memory l e)
add_to_memory-IsCounted l e v small c = elim (dec_lt (length l.logs) l.max_history) [
  | yes room ↦ add_room-IsCounted l e v small room c
  | no full ↦ at_full (omega arith) (contents l) refl
]
  where
    at_full :
        l.max_history ≤ length l.logs
        → (q : List LogEntry) → contents l ≡ q
        → IsCounted (add_to_memory l e)
    at_full full [] q = absurd (omega (arith, ap length q, length-contents l, v.positive))
    at_full full (x ∷ rest) q = add_full-IsCounted l e x rest v small full q c
