-- ===== src/Bootstrap/Conclusions.antt =====
-- internal/resolver/bootstrap.go: where the answers of one step of LookupIP come from.
use dns_automatic_traffic_sp.Base.{
  ℕ, ◌+◌, ◌≡◌, refl, subst, Bool, true, false, Option, none, some, List, [], ◌∷◌, if◌then◌else◌,
  ltb, arith,
}
use dns_automatic_traffic_sp.Base.Text.{Text}
use dns_automatic_traffic_sp.Base.Maps.{lookup, delete}
use dns_automatic_traffic_sp.Client.{Error}
use dns_automatic_traffic_sp.Bootstrap.{Lookup, found, not_found}
use dns_automatic_traffic_sp.Bootstrap.Flights.{
  Entry, Waiter, Bootstrapper, Answer, wait, on_entry, ask, left, fall_back, conclude, Outcome,
  answer_now, and_answer, stale_ttl,
}
use dns_automatic_traffic_sp.Bootstrap.Sound.{
  some_inj, Known, Gave, Sourced, literal, waited_for, cached, refused, IsSound, left-IsSound,
  wait-IsSound,
}
use dns_automatic_traffic_sp.Bootstrap.Sources.{evicted-IsSound}

module _ (is_ip : Text → Bool) (gives : Text → ℕ → Lookup) where
  pub data AllSourced : List Answer → Type 0 where
    no_answer : AllSourced []
    and_sourced :
        (a : Answer) (l : List Answer) → Sourced is_ip gives a → AllSourced l → AllSourced (a ∷ l)

  abbrev pub IsGood : Outcome → Type 0
  IsGood (b, a) = IsSound is_ip gives b × AllSourced (and_answer is_ip gives a [])

  pub silent : (b : Bootstrapper) → IsSound is_ip gives b → IsGood (b, none)
  silent b v = (v, no_answer)

  answering :
      (b : Bootstrapper) (host : Text) (l : Lookup) (now : ℕ)
      → IsSound is_ip gives b
      → Sourced is_ip gives (record { host = host; result = l; time = now })
      → IsGood (b, answer_now host l now)
  answering b host l now v s = (v, and_sourced _ [] s no_answer)

  on_entry-IsGood :
      (caller : ℕ) (host : Text) (now : ℕ) (o : Option Entry) (b : Bootstrapper)
      → IsSound is_ip gives b
      → lookup host b.cache ≡ o
      → IsGood (on_entry caller host now o b)
  on_entry-IsGood caller host now none b v h =
      silent _ (wait-IsSound is_ip gives caller host none b v (λ e q. cc q))
  on_entry-IsGood caller host now (some e) b v h = by_time (ltb now e.expiry) refl
    where
      known : Known is_ip gives host e
      known = v.cached host e h

      by_time :
          (fresh : Bool)
          → ltb now e.expiry ≡ fresh
          → IsGood (
              if fresh
              then (b, answer_now host (found e.ip) now)
              else (wait caller host (some e) b, none))
      by_time true t = answering _ _ _ now v (cached known.0 known.1 (ground (arith, t, known.2)))
      by_time false t = silent _ (
          wait-IsSound is_ip gives caller host (some e) b v
            (λ x q. subst (Known is_ip gives host) (some_inj q) known))

  pub ask-IsGood :
      (numeric : Bool) (caller : ℕ) (host : Text) (now : ℕ) (b : Bootstrapper)
      → is_ip host ≡ numeric
      → IsSound is_ip gives b
      → IsGood (ask numeric caller host now b)
  unfolding ask
  ask-IsGood true caller host now b e v = answering _ _ _ now v (literal e refl)
  ask-IsGood false caller host now b e v =
      on_entry-IsGood caller host now (lookup host b.cache) b v refl

  pub fall_back-IsGood :
      (caller : ℕ) (w : Waiter) (e : Error) (now : ℕ) (b : Bootstrapper)
      → IsSound is_ip gives b
      → b.waiters caller ≡ some w
      → IsGood (fall_back caller w e now b)
  unfolding fall_back
  fall_back-IsGood caller w e now b v at = on_stale w.stale refl
    where
      gone : IsSound is_ip gives (left caller b)
      gone = left-IsSound is_ip gives caller b v

      on_stale :
          (o : Option Entry)
          → w.stale ≡ o
          → IsGood (fall_back caller (record w { stale = o }) e now b)
      on_stale none q =
          answering _ _ _ now (evicted-IsSound is_ip gives w.host (left caller b) gone)
            (refused e refl)
      on_stale (some s) q = by_time (ltb now (s.expiry + stale_ttl)) refl
        where
          known : Known is_ip gives w.host s
          known = v.stale caller w s at q

          by_time :
              (recent : Bool)
              → ltb now (s.expiry + stale_ttl) ≡ recent
              → IsGood (
                  if recent then (left caller b, answer_now w.host (found s.ip) now) else (
                    record (left caller b) { cache = delete w.host b.cache },
                    answer_now w.host (not_found e) now,
                  ))
          by_time true t =
              answering _ _ _ now gone (cached known.0 known.1 (ground (arith, t, known.2)))
          by_time false t =
              answering _ _ _ now (evicted-IsSound is_ip gives w.host (left caller b) gone)
                (refused e refl)

  pub conclude-IsGood :
      (caller : ℕ) (w : Waiter) (l : Lookup) (now : ℕ) (b : Bootstrapper)
      → IsSound is_ip gives b
      → b.waiters caller ≡ some w
      → Gave is_ip gives w.host l
      → IsGood (conclude caller w l now b)
  unfolding conclude
  conclude-IsGood caller w (found ip) now b v at gave =
      answering _ _ _ now (left-IsSound is_ip gives caller b v) (waited_for gave)
  conclude-IsGood caller w (not_found e) now b v at gave = fall_back-IsGood caller w e now b v at
