-- ===== src/Client/Race/Definite.antt =====
-- The two parts of what RaceResolve returns.
use dns_automatic_traffic_sp.Base.{
  ℕ, zero, suc, refl, Option, none, some, inl, inr, Bool-cases, ◌==◌,
}
use dns_automatic_traffic_sp.Dns.{Msg, rcode_success}
use dns_automatic_traffic_sp.Client.{
  Error, Reply, IsDefinite, no_clients, race_timeout, nothing_received, context_error, all_failed,
}
use dns_automatic_traffic_sp.Client.Race.{
  Event, arrived, timer_fired, context_done, Best, Turn, returns, goes_on, on_reply, on_timer,
  on_event, finish, race_loop, race_resolve, nothing_yet,
}

finish-IsDefinite : (m : Option Msg) (e : Option Error) → IsDefinite (finish m e)
unfolding finish
finish-IsDefinite (some m) e = inl (m, refl, refl)
finish-IsDefinite none (some e) = inr (all_failed e, refl, refl)
finish-IsDefinite none none = inr (nothing_received, refl, refl)

-- What a turn returns satisfies `P`.
abbrev pub Returns : (Reply → Type 0) → Turn → Type 0
Returns P (returns r) = P r
Returns P (goes_on b) = Unit

on_reply-IsDefinite :
    (resp : Option Msg) (err : Option Error) (b : Best) → Returns IsDefinite (on_reply resp err b)
unfolding on_reply
on_reply-IsDefinite resp (some e) b = tt
on_reply-IsDefinite none none b = tt
on_reply-IsDefinite (some m) none b = elim (Bool-cases (m.rcode == rcode_success)) [
  | inl good ↦ rw good (inl (m, refl, refl))
  | inr bad ↦ rw bad tt
]

on_timer-IsDefinite : (m : Option Msg) → IsDefinite (on_timer m)
on_timer-IsDefinite none = inr (race_timeout, refl, refl)
on_timer-IsDefinite (some m) = inl (m, refl, refl)

on_event-IsDefinite : (e : Event) (b : Best) → Returns IsDefinite (on_event e b)
unfolding on_event
on_event-IsDefinite (arrived r) b = on_reply-IsDefinite r.resp r.err b
on_event-IsDefinite timer_fired b = on_timer-IsDefinite b.best_fail
on_event-IsDefinite (context_done c) b = inr (context_error c, refl, refl)

-- A property of all replies that a turn returns, and of what follows, holds of the turn's end.
pub by_turn :
    (P : Reply → Type 0) (t : Turn) (f : Best → Reply)
    → Returns P t
    → ((b : Best) → P (f b))
    → P (elim t [ returns r ↦ r | goes_on b ↦ f b ])
by_turn P (returns r) f now later = now
by_turn P (goes_on b) f now later = later b

race_loop-IsDefinite : (n : ℕ) (events : ℕ → Event) (b : Best) → IsDefinite (race_loop n events b)
unfolding race_loop
race_loop-IsDefinite zero events b = finish-IsDefinite b.best_fail b.last_err
race_loop-IsDefinite (suc n) events b =
    by_turn IsDefinite (on_event (events 0) b) (race_loop n (λ i. events (suc i)))
      (on_event-IsDefinite (events 0) b) (race_loop-IsDefinite n (λ i. events (suc i)))

-- Whatever arrives and in whatever order, with any number of clients, RaceResolve returns either a
-- response and no error, or an error and no response, also where a client returned neither or both.
pub race_resolve-IsDefinite : (n : ℕ) (events : ℕ → Event) → IsDefinite (race_resolve n events)
unfolding race_resolve
race_resolve-IsDefinite zero events = inr (no_clients, refl, refl)
race_resolve-IsDefinite (suc n) events = race_loop-IsDefinite (suc n) events nothing_yet
