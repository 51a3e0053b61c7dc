-- ===== src/QueryLog/History.antt =====
-- The logger over its whole life: sequences of its operations and their invariant.
use dns_automatic_traffic_sp.Base.{
  ℕ, ◌<◌, ◌≡◌, refl, inl, inr, ◌≢◌, Bool, not, ◌||◌, List, [], ◌∷◌, arith, max_int64, Bool-cases,
}
use dns_automatic_traffic_sp.Base.Text.{Text}
use dns_automatic_traffic_sp.Base.Maps.{lookup}
use dns_automatic_traffic_sp.QueryLog.{
  LogEntry, QueryLogger, new_query_logger, update_totals, record_recent_log, stamp, account,
  add_log, add_to_memory, clear,
}
use dns_automatic_traffic_sp.QueryLog.Ring.{IsRing, add_to_memory-IsRing}
use dns_automatic_traffic_sp.QueryLog.Counters.{IsCounted, add_to_memory-IsCounted}

-- What a client of the logger can do to its memory.
pub data Op : Type 0 where
  add : LogEntry → ℕ → Op
  wipe : Op

abbrev pub apply : QueryLogger → Op → QueryLogger
apply l (add entry now) = add_log l entry now
apply l wipe = clear l

abbrev pub run : QueryLogger → List Op → QueryLogger
run l [] = l
run l (op ∷ ops) = run (apply l op) ops

pub record IsSound (l : QueryLogger) : Type 0 where
  pub ring : IsRing l
  pub counted : IsCounted l
  pub small : l.max_history < max_int64

-- What `account` leaves alone.
pub record SameStore (l m : QueryLogger) : Type 0 where
  pub logs : m.logs ≡ l.logs
  pub start : m.logs_start ≡ l.logs_start
  pub history : m.max_history ≡ l.max_history
  pub clients : m.stats.top_clients ≡ l.stats.top_clients
  pub domains : m.stats.top_domains ≡ l.stats.top_domains

pub account-SameStore : (l : QueryLogger) (e : LogEntry) → SameStore l (account l e)
unfolding account record_recent_log update_totals
account-SameStore l e = ground arith

pub SameStore-IsRing : {l m : QueryLogger} → SameStore l m → IsRing l → IsRing m
SameStore-IsRing {l} {m} s v = record {
  positive = rw s.history v.positive;
  bounded = rw (s.history, s.logs) v.bounded;
  start_in = rw (s.start, s.logs) v.start_in;
  start_zero = rw (s.history, s.logs, s.start) v.start_zero;
}

SameStore-IsCounted : {l m : QueryLogger} → SameStore l m → IsCounted l → IsCounted m
SameStore-IsCounted {l} {m} s c = record {
  clients = rw (s.clients, s.logs, s.start) c.clients;
  domains = rw (s.domains, s.logs, s.start) c.domains;
}

max_history-add_to_memory :
    (l : QueryLogger) (e : LogEntry) → (add_to_memory l e).max_history ≡ l.max_history
unfolding add_to_memory
max_history-add_to_memory l e = ground arith

pub add_log-IsSound :
    (l : QueryLogger) (e : LogEntry) (now : ℕ) → IsSound l → IsSound (add_log l e now)
unfolding add_log
add_log-IsSound l e now v = elim (Bool-cases (not l.enabled || l.closed)) [
  | inl off ↦ rw off v
  | inr on ↦ rw on stored
]
  where
    e' : LogEntry
    e' = stamp l e now

    kept : SameStore l (account l e')
    kept = account-SameStore l e'

    small : (account l e').max_history < max_int64
    small = rw kept.history v.small

    stored : IsSound (add_to_memory (account l e') e')
    stored = record {
      ring = add_to_memory-IsRing (account l e') e' (SameStore-IsRing kept v.ring);
      counted =
          add_to_memory-IsCounted (account l e') e' (SameStore-IsRing kept v.ring) small
            (SameStore-IsCounted kept v.counted);
      small = rw max_history-add_to_memory small;
    }

pub clear-IsSound : (l : QueryLogger) → IsSound l → IsSound (clear l)
unfolding clear lookup
clear-IsSound l v = record {
  ring = record {
    positive = v.ring.positive;
    bounded = omega arith;
    start_in = inl refl;
    start_zero = λ _. refl;
  };
  counted = record { clients = λ k. refl; domains = λ k. refl };
  small = v.small;
}

run-IsSound : (l : QueryLogger) (ops : List Op) → IsSound l → IsSound (run l ops)
run-IsSound l [] v = v
run-IsSound l (add e now ∷ ops) v = run-IsSound (add_log l e now) ops (add_log-IsSound l e now v)
run-IsSound l (wipe ∷ ops) v = run-IsSound (clear l) ops (clear-IsSound l v)

pub new_query_logger-IsSound :
    (enabled save : Bool) (history mb now : ℕ) (path : Text)
    → history ≢ max_int64
    → IsSound (new_query_logger enabled history mb path save now)
unfolding new_query_logger lookup
new_query_logger-IsSound enabled save history mb now path h = record {
  ring = record {
    positive = ground arith;
    bounded = omega arith;
    start_in = inl refl;
    start_zero = λ _. refl;
  };
  counted = record { clients = λ k. refl; domains = λ k. refl };
  small = ground arith;
}

-- A logger made by NewQueryLogger, with any `maxHistory` but the largest `int`, keeps this after
-- any sequence of AddLog and Clear: the ring buffer holds at most `maxHistory` entries and its
-- start index is in range, and TopClients and TopDomains hold for every key exactly the number of
-- buffered entries with that client or domain, and no key with count 0.
pub run-new_query_logger-IsSound :
    (enabled save : Bool) (history mb now : ℕ) (path : Text) (ops : List Op)
    → history ≢ max_int64
    → IsSound (run (new_query_logger enabled history mb path save now) ops)
run-new_query_logger-IsSound enabled save history mb now path ops h =
    run-IsSound _ ops (new_query_logger-IsSound enabled save history mb now path h)
