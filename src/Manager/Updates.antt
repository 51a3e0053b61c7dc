-- ===== src/Manager/Updates.antt =====
-- What holds of every run of the update loop between reloads and stops.
use dns_automatic_traffic_sp.Base.{
  ℕ, ◌+◌, ◌≤◌, ◌≡◌, ◌≢◌, refl, sym, ap, ◌∙◌, subst, Bool, true, false, Option, none, some, List, [],
  ◌∷◌, arith, if◌then◌else◌,
}
use dns_automatic_traffic_sp.Base.Handles.{count}
use dns_automatic_traffic_sp.Client.{Error}
use dns_automatic_traffic_sp.Settings.{Config}
use dns_automatic_traffic_sp.Manager.{
  ServiceManager, World, Env, Result, reload, reload_current, wrap_restart, stop, start_internal,
  stop_internal, start_after, ensure_geo, start_components,
}
use dns_automatic_traffic_sp.Manager.Failed.{OnlyFailed, reload_current-OnlyFailed, stop-OnlyFailed}
use dns_automatic_traffic_sp.Manager.Owned.{
  Owned, start_internal-Owned, stop_internal-Owned, emptied-IsStopped,
}
use dns_automatic_traffic_sp.Manager.Reloads.{
  IsServing, Reloaded, Ended, geo_fails, reload-Reloaded, start_internal-Ended,
}
use dns_automatic_traffic_sp.Manager.AutoUpdate.{
  Calendar, Loop, idle, downloading, restarting, ended, System, Event, tick, noticed, downloaded,
  restarted, at_idle, at_downloading, at_restarting, reload_asked, stop_asked, should_update,
  too_soon, on_tick, on_noticed, on_restarted, updated, step, run,
}

-- Newest first, each an hour or more after the one before.
pub data Spaced : List ℕ → Type 0 where
  no_attempt : Spaced []
  one_attempt : (t : ℕ) → Spaced (t ∷ [])
  later : (t u : ℕ) (l : List ℕ) → u + 3600 ≤ t → Spaced (u ∷ l) → Spaced (t ∷ u ∷ l)

abbrev pub newest : List ℕ → Option ℕ
newest [] = none
newest (t ∷ l) = some t

pub record IsSound (env : Env) (s : System) : Type 0 where
  pub owned : Owned s.manager s.world
  pub failed : OnlyFailed env s.world
  pub spaced : Spaced s.attempts
  pub last : s.last_attempt ≡ newest s.attempts

abbrev result-Owned : Result → Type 0
result-Owned (err, m, w) = Owned m w

abbrev result-OnlyFailed : Env → Result → Type 0
result-OnlyFailed env (err, m, w) = OnlyFailed env w

Reloaded-Owned :
    (env : Env) (old new : Config) (r : Result) → Reloaded env old new r → result-Owned r
Reloaded-Owned env old new (none, m, w) h = h.0
Reloaded-Owned env old new (some e, m, w) h = h.0

wrap_restart-Owned : (r : Result) → result-Owned r → result-Owned (wrap_restart r)
wrap_restart-Owned (none, m, w) o = o
wrap_restart-Owned (some e, m, w) o = o

reload_current-Owned :
    (env : Env) (m : ServiceManager) (w : World) → Owned m w → result-Owned (reload_current env m w)
unfolding reload_current
reload_current-Owned env m w o =
    let before = record m { geo_manager = none } in
    let (ignored, m1, w1) = stop_internal env before w in
    let (o1, v1, none_live) = stop_internal-Owned env before w (λ k. o k) in
    wrap_restart-Owned (start_internal env m1 w1) (start_internal-Owned env m1 w1 v1 o1)

stop-Owned :
    (env : Env) (m : ServiceManager) (w : World)
    → Owned m w
    → let (err, m', w') = stop env m w in Owned m' w' × ((k : ℕ) → count k w'.live ≡ 0)
unfolding stop
stop-Owned env m w o =
    let (o', v, none_live) =
      stop_internal-Owned env (record m { stop_requested = true }) w (λ k. o k) in
    (o', none_live)

attempts-Spaced :
    (l : List ℕ) (now : ℕ) → Spaced l → too_soon (newest l) now ≡ false → Spaced (now ∷ l)
attempts-Spaced [] now s e = one_attempt now
attempts-Spaced (u ∷ l) now s e = later now u l (ground (arith, e)) s

on_tick-IsSound :
    (env : Env) (cal : Calendar) (now : ℕ) (modified : Option ℕ) (s : System)
    → IsSound env s
    → IsSound env (on_tick cal now modified s)
unfolding on_tick
on_tick-IsSound env cal now modified s h =
    by_tests (should_update cal s.manager.config.geo_data.auto_update modified now)
      (too_soon s.last_attempt now) refl
  where
    by_tests :
        (old soon : Bool)
        → too_soon s.last_attempt now ≡ soon
        → IsSound env (
            if old
            then (if soon then s else record s {
              loop = downloading;
              last_attempt = some now;
              attempts = now ∷ s.attempts;
            })
            else s)
    by_tests false soon e = h
    by_tests true true e = h
    by_tests true false e = record {
      owned = h.owned;
      failed = h.failed;
      spaced = attempts-Spaced s.attempts now h.spaced (ap (λ o. too_soon o now) (sym h.last) ∙ e);
      last = refl;
    }

loop-IsSound :
    {env : Env} (s : System) (l : Loop) (stopped : Bool)
    → IsSound env s
    → IsSound env (if stopped then record s { loop = ended } else record s { loop = l })
loop-IsSound s l true h = record {
  owned = h.owned;
  failed = h.failed;
  spaced = h.spaced;
  last = h.last;
}
loop-IsSound s l false h = record {
  owned = h.owned;
  failed = h.failed;
  spaced = h.spaced;
  last = h.last;
}

-- A step at which the components were owned before and after.
updated-IsSound :
    {env : Env} (s : System) (l : Loop) (r : Result)
    → IsSound env s
    → result-Owned r
    → result-OnlyFailed env r
    → IsSound env (record (updated s r) { loop = l })
updated-IsSound s l (err, m, w) h o f = record {
  owned = o;
  failed = f;
  spaced = h.spaced;
  last = h.last;
}

on_noticed-IsSound :
    {env : Env} (s : System) (stopped : Bool)
    → IsSound env s
    → IsSound env (if stopped then record s { loop = ended } else s)
on_noticed-IsSound s true h = record {
  owned = h.owned;
  failed = h.failed;
  spaced = h.spaced;
  last = h.last;
}
on_noticed-IsSound s false h = h

at_idle-IsSound :
    {env : Env} (l : Loop) (s' s : System)
    → IsSound env s'
    → IsSound env s
    → IsSound env (at_idle l s' s)
at_idle-IsSound idle s' s h' h = h'
at_idle-IsSound downloading s' s h' h = h
at_idle-IsSound restarting s' s h' h = h
at_idle-IsSound ended s' s h' h = h

at_downloading-IsSound :
    {env : Env} (l : Loop) (s' s : System)
    → IsSound env s'
    → IsSound env s
    → IsSound env (at_downloading l s' s)
at_downloading-IsSound idle s' s h' h = h
at_downloading-IsSound downloading s' s h' h = h'
at_downloading-IsSound restarting s' s h' h = h
at_downloading-IsSound ended s' s h' h = h

at_restarting-IsSound :
    {env : Env} (l : Loop) (s' s : System)
    → IsSound env s'
    → IsSound env s
    → IsSound env (at_restarting l s' s)
at_restarting-IsSound idle s' s h' h = h
at_restarting-IsSound downloading s' s h' h = h
at_restarting-IsSound restarting s' s h' h = h'
at_restarting-IsSound ended s' s h' h = h

step-IsSound :
    (env : Env) (cal : Calendar) (e : Event) (s : System)
    → IsSound env s
    → IsSound env (step env cal e s)
unfolding step
step-IsSound env cal (reload_asked new) s h =
    let (r, f) = reload-Reloaded env new s.manager s.world h.owned h.failed in
    updated-IsSound s s.loop (reload env new s.manager s.world) h
      (Reloaded-Owned env s.manager.config new _ r) f
step-IsSound env cal stop_asked s h =
    updated-IsSound s s.loop (stop env s.manager s.world) h
      (stop-Owned env s.manager s.world h.owned).0 (stop-OnlyFailed env s.manager s.world h.failed)
step-IsSound env cal (tick now modified) s h =
    at_idle-IsSound s.loop _ s (on_tick-IsSound env cal now modified s h) h
step-IsSound env cal noticed s h =
    at_idle-IsSound s.loop _ s (on_noticed-IsSound s s.manager.stop_requested h) h
step-IsSound env cal downloaded s h =
    at_downloading-IsSound s.loop _ s (loop-IsSound s restarting s.manager.stop_requested h) h
step-IsSound env cal restarted s h =
    at_restarting-IsSound s.loop _ s
      (updated-IsSound s idle (reload_current env s.manager s.world) h
        (reload_current-Owned env s.manager s.world h.owned)
        (reload_current-OnlyFailed env s.manager s.world h.failed))
      h

-- Whatever the order in which ticks, downloads, restarts, reloads and stops come, from a state in
-- which every started component that was not asked to stop is in a field of the manager, and those
-- that were asked and may run on had a Stop that failed: it stays so, and two updates of the geo
-- databases begin an hour apart at least.
pub run-IsSound :
    (env : Env) (cal : Calendar) (es : List Event) (s : System)
    → IsSound env s
    → IsSound env (run env cal es s)
unfolding run
run-IsSound env cal [] s h = h
run-IsSound env cal (e ∷ es) s h =
    run-IsSound env cal es (step env cal e s) (step-IsSound env cal e s h)

-- The steps that the loop has left after a stop.
abbrev pub rest_of_loop : List Event
rest_of_loop = downloaded ∷ restarted ∷ noticed ∷ []

abbrev pub Settled : Env → System → System → Type 0
Settled env s s' =
    (s'.loop ≡ ended)
    × IsSound env s'
    × (s.loop ≢ restarting → (k : ℕ) → count k s'.world.live ≡ 0)
    × (s.loop ≡ restarting → geo_fails env s.manager.config ≡ false → IsServing env s'.manager)

wrap_restart-IsServing :
    (env : Env) (m : ServiceManager) (w : World) (r : Result)
    → Ended env m w r
    → geo_fails env m.config ≡ false
    → let (err, m', w') = wrap_restart r in IsServing env m'
wrap_restart-IsServing env m w (none, m', w') e fine = e.1
wrap_restart-IsServing env m w (some f, m', w') e fine = cc (e.2, fine)

wrap_restart-stop_requested : (r : Result) → (wrap_restart r).1.stop_requested ≡ r.1.stop_requested
wrap_restart-stop_requested (none, m, w) = refl
wrap_restart-stop_requested (some e, m, w) = refl

start_after-stop_requested :
    (env : Env) (m : ServiceManager) (w : World) (e : Option Error)
    → (start_after env m w e).1.stop_requested ≡ m.stop_requested
unfolding start_components
start_after-stop_requested env m w none = refl
start_after-stop_requested env m w (some e) = refl

-- After a stop, the restart that was about to happen.
restart-Settled :
    (env : Env) (m : ServiceManager) (w : World)
    → let (err, m', w') = reload_current env m w in
      (m'.stop_requested ≡ m.stop_requested) × (geo_fails env m.config ≡ false → IsServing env m')
unfolding reload_current start_internal stop_internal
restart-Settled env m w =
    let (ignored, m1, w1) = stop_internal env (record m { geo_manager = none }) w in
    (
      wrap_restart-stop_requested (start_internal env m1 w1)
          ∙ start_after-stop_requested env m1 w1 (ensure_geo env m1.config m1.geo_manager),
      wrap_restart-IsServing env m1 w1 (start_internal env m1 w1)
          (start_internal-Ended env m1 w1 (emptied-IsStopped m1)),
    )

noticed_lem :
    (s : System) → s.manager.stop_requested ≡ true → on_noticed s ≡ record s { loop = ended }
noticed_lem s e = rw (e) refl

stop_lem : (env : Env) (m : ServiceManager) (w : World) → (stop env m w).1.stop_requested ≡ true
unfolding stop stop_internal
stop_lem env m w = refl

rest_of_loop-Settled :
    (env : Env) (cal : Calendar) (l : Loop) (s : System)
    → IsSound env (record s { loop = l })
    → Settled env
        (record s { loop = l })
        (run env cal (stop_asked ∷ rest_of_loop) (record s { loop = l }))
unfolding run
rest_of_loop-Settled env cal idle s h = (
  refl,
  run-IsSound env cal (stop_asked ∷ rest_of_loop) _ h,
  λ busy. (stop-Owned env s.manager s.world h.owned).1,
  λ e. cc e,
)
rest_of_loop-Settled env cal downloading s h = (
  refl,
  run-IsSound env cal (stop_asked ∷ rest_of_loop) _ h,
  λ busy. (stop-Owned env s.manager s.world h.owned).1,
  λ e. cc e,
)
rest_of_loop-Settled env cal ended s h = (
  refl,
  run-IsSound env cal (stop_asked ∷ rest_of_loop) _ h,
  λ busy. (stop-Owned env s.manager s.world h.owned).1,
  λ e. cc e,
)
rest_of_loop-Settled env cal restarting s h =
    let (err, m, w) = stop env s.manager s.world in
    let (keeps, serves) = restart-Settled env m w in
    let again = on_restarted env (updated (record s { loop = restarting }) (err, m, w)) in
    let over = noticed_lem again (keeps ∙ stop_lem env s.manager s.world) in
    (
      ap (λ (x : System). x.loop) over,
      run-IsSound env cal (stop_asked ∷ rest_of_loop) _ h,
      λ busy. absurd (busy refl),
      λ e fine. subst (λ (x : System). IsServing env x.manager) (sym over) (serves fine),
    )

-- Stop, at any point of the update loop, followed by the steps that the loop has left: the loop has
-- ended, every started component that was not asked to stop is in a field of the manager, and those
-- that were asked and may run on had a Stop that failed. If the loop was not about to restart the
-- services, all were asked to stop. If it was (the downloads were over and the stop not yet asked for
-- when it looked) and the geo databases load, the services that the configuration asks for run again
-- after the stop.
pub stop-Settled :
    (env : Env) (cal : Calendar) (s : System)
    → IsSound env s
    → Settled env s (run env cal (stop_asked ∷ rest_of_loop) s)
stop-Settled env cal s h = rest_of_loop-Settled env cal s.loop s h
