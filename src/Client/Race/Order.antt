-- ===== src/Client/Race/Order.antt =====
-- Which of the replies RaceResolve returns, where all arrive before the timer.
use dns_automatic_traffic_sp.Base.{
  ℕ, zero, suc, ◌≡◌, refl, ap, ◌∙◌, Bool, false, Option, none, some, List, [], ◌∷◌, arith, ◌==◌,
  if◌then◌else◌, length,
}
use mathlib.Core.Path.{fun_ext}
use dns_automatic_traffic_sp.Dns.{Msg, rcode_success}
use dns_automatic_traffic_sp.Client.{
  Error, Reply, answered, failed, all_failed, nothing_received, valid, empty_response,
}
use dns_automatic_traffic_sp.Client.Race.{
  Event, arrived, timer_fired, Best, Turn, returns, goes_on, on_reply, on_event, finish, race_loop,
  race_resolve, nothing_yet,
}

-- The run in which these replies arrive in this order.
abbrev pub in_order : List Reply → ℕ → Event
in_order [] i = timer_fired
in_order (r ∷ rs) zero = arrived r
in_order (r ∷ rs) (suc i) = in_order rs i

abbrev pub has_rcode_success : Option Msg → Bool
has_rcode_success none = false
has_rcode_success (some m) = m.rcode == rcode_success

abbrev pub is_success : Reply → Bool
is_success r = has_rcode_success (valid r)

-- The error that a reply leaves behind.
abbrev pub error_of : Option Msg → Option Error → Option Error
error_of resp (some e) = some e
error_of none none = some empty_response
error_of (some m) none = none

abbrev pub or_else {ℓ} : {A : Type ℓ} → Option A → Option A → Option A
or_else none b = b
or_else (some a) b = some a

-- The first success, the first other response, and the last error of a list of replies.
abbrev pub first_success : List Reply → Option Msg
first_success [] = none
first_success (r ∷ rs) = if is_success r then valid r else first_success rs

abbrev pub first_valid : List Reply → Option Msg
first_valid [] = none
first_valid (r ∷ rs) = or_else (valid r) (first_valid rs)

abbrev pub last_error : List Reply → Option Error
last_error [] = none
last_error (r ∷ rs) = or_else (last_error rs) (error_of r.resp r.err)

-- What a race over replies is to return.
abbrev pub verdict : Option Msg → Option Msg → Option Error → Reply
verdict (some m) fallback e = answered m
verdict none (some m) e = answered m
verdict none none (some e) = failed (all_failed e)
verdict none none none = failed nothing_received

-- The verdict on a state and the replies still to come.
abbrev verdict_on : Best → List Reply → Reply
verdict_on b rs =
    verdict (first_success rs) (or_else b.best_fail (first_valid rs))
      (or_else (last_error rs) b.last_err)

abbrev after_turn : (Best → Reply) → Turn → Reply
after_turn f (returns r) = r
after_turn f (goes_on b) = f b

turn-verdict :
    (resp : Option Msg) (err : Option Error) (b : Best) (rs : List Reply)
    → after_turn (λ b'. verdict_on b' rs) (on_reply resp err b)
      ≡ verdict_on b (record { resp = resp; err = err } ∷ rs)
unfolding on_reply
turn-verdict resp (some e) b rs = ground arith
turn-verdict none none b rs = ground arith
turn-verdict (some m) none b rs = ground arith

finish-verdict :
    (fallback : Option Msg) (err : Option Error)
    → finish fallback err ≡ verdict none (or_else fallback none) err
unfolding finish
finish-verdict none none = refl
finish-verdict none (some e) = refl
finish-verdict (some m) err = refl

race_loop-verdict :
    (rs : List Reply) (b : Best) → race_loop (length rs) (in_order rs) b ≡ verdict_on b rs
unfolding race_loop
race_loop-verdict [] b = finish-verdict b.best_fail b.last_err
race_loop-verdict (r ∷ rs) b =
    ap (λ f. after_turn f (on_event (arrived r) b)) (fun_ext (race_loop-verdict rs))
    ∙ unfold on_event in turn-verdict r.resp r.err b rs

-- Where the replies of all clients, at least one, arrive before the timer and the context's end,
-- RaceResolve returns the first success (no error and NOERROR) in the order of arrival; without
-- one the first other response that came with no error; without one the last error, wrapped as the
-- failure of all clients.
pub race_resolve-verdict :
    (r : Reply) (rs : List Reply)
    → race_resolve (length (r ∷ rs)) (in_order (r ∷ rs))
      ≡ verdict (first_success (r ∷ rs)) (first_valid (r ∷ rs)) (last_error (r ∷ rs))
unfolding race_resolve
race_resolve-verdict r rs = race_loop-verdict (r ∷ rs) nothing_yet ∙ ground arith
