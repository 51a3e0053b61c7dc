-- ===== src/Client/Race.antt =====
-- RaceResolve of internal/client/resolver.go: all upstreams are asked at once, and the loop reads
-- what arrives. The `i`-th turn of the loop sees the `i`-th event of the run: a reply, the timer of
-- five seconds, or the end of the caller's context. A turn always ends, since the timer fires.
pub mod Definite
pub mod Order
use dns_automatic_traffic_sp.Base.{
  ℕ, zero, suc, ◌≡◌, refl, Bool, false, true, Option, none, some, inl, inr, arith, ◌==◌,
  if◌then◌else◌,
}
use dns_automatic_traffic_sp.Dns.{Msg, rcode_success}
use dns_automatic_traffic_sp.Client.{
  Cause, Error, Reply, answered, failed, no_clients, race_timeout, empty_response, nothing_received,
  context_error, all_failed,
}

pub data Event : Type 0 where
  arrived : Reply → Event
  timer_fired : Event
  context_done : Cause → Event

-- `bestFail` and `lastErr`
pub record Best : Type 0 where
  pub best_fail : Option Msg
  pub last_err : Option Error

pub data Turn : Type 0 where
  returns : Reply → Turn
  goes_on : Best → Turn

abbrev pub or_first : Option Msg → Msg → Option Msg
or_first none m = some m
or_first (some b) m = some b

-- The cases of one result, in the order of the source.
unfoldable pub on_reply : Option Msg → Option Error → Best → Turn
on_reply resp (some e) b = goes_on (record b { last_err = some e })
on_reply none none b = goes_on (record b { last_err = some empty_response })
on_reply (some m) none b =
    if m.rcode == rcode_success
    then returns (answered m)
    else goes_on (record b { best_fail = or_first b.best_fail m })

abbrev pub on_timer : Option Msg → Reply
on_timer none = failed race_timeout
on_timer (some m) = answered m

unfoldable pub on_event : Event → Best → Turn
unfolding on_reply
on_event (arrived r) b = on_reply r.resp r.err b
on_event timer_fired b = returns (on_timer b.best_fail)
on_event (context_done c) b = returns (failed (context_error c))

-- After the loop.
unfoldable pub finish : Option Msg → Option Error → Reply
finish (some m) err = answered m
finish none (some e) = failed (all_failed e)
finish none none = failed nothing_received

unfoldable pub race_loop : ℕ → (ℕ → Event) → Best → Reply
race_loop zero events b = finish b.best_fail b.last_err
race_loop (suc n) events b = elim (on_event (events 0) b) [
  | returns r ↦ r
  | goes_on b' ↦ race_loop n (λ i. events (suc i)) b'
]

abbrev pub nothing_yet : Best
nothing_yet = record { best_fail = none; last_err = none }

-- RaceResolve over as many clients.
unfoldable pub race_resolve : ℕ → (ℕ → Event) → Reply
race_resolve zero events = failed no_clients
race_resolve (suc n) events = race_loop (suc n) events nothing_yet
