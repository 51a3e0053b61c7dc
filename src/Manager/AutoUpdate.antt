-- ===== src/Manager/AutoUpdate.antt =====
-- internal/manager/manager.go: the loop that updates the geo databases, and its interleavings with
-- Reload and Stop. A step of the loop is one of the pieces between which it holds no lock: the tick,
-- the end of the download, the restart, and the moment it notices the stop. Times are in seconds.
use dns_automatic_traffic_sp.Base.{
  ℕ, ◌+◌, ◌-◌, Bool, true, false, ◌&&◌, Option, none, some, List, [], ◌∷◌, if◌then◌else◌, ltb, leb,
}
use dns_automatic_traffic_sp.Base.Text.{Text, is_empty}
use dns_automatic_traffic_sp.Settings.{Config}
use dns_automatic_traffic_sp.Manager.{
  ServiceManager, World, Env, Result, reload, reload_current, stop,
}

-- The seconds of the day of a text like 15:04, if it is one, and the day's start in the time zone.
pub record Calendar : Type 0 where
  pub time_of_day : Text → Option ℕ
  pub midnight : ℕ → ℕ

-- The database's file is as old as the target time, or missing.
abbrev pub is_old : Option ℕ → ℕ → Bool
is_old none target = true
is_old (some modified) target = ltb modified target

abbrev pub at_target : Option ℕ → ℕ → Option ℕ → ℕ → Bool
at_target none midnight modified now = false
at_target (some t) midnight modified now = leb (midnight + t) now && is_old modified (midnight + t)

unfoldable pub should_update : Calendar → Text → Option ℕ → ℕ → Bool
should_update cal auto_update modified now =
    if is_empty auto_update
    then false
    else at_target (cal.time_of_day auto_update) (cal.midnight now) modified now

-- The zero time is further back than any interval.
abbrev pub too_soon : Option ℕ → ℕ → Bool
too_soon none now = false
too_soon (some last) now = ltb (now - last) 3600

pub data Loop : Type 0 where
  idle : Loop
  downloading : Loop
  restarting : Loop
  ended : Loop

-- `attempts` are the times at which updates began, newest first.
pub record System : Type 0 where
  pub manager : ServiceManager
  pub world : World
  pub loop : Loop
  pub last_attempt : Option ℕ
  pub attempts : List ℕ

pub data Event : Type 0 where
  tick : ℕ → Option ℕ → Event
  noticed : Event
  downloaded : Event
  restarted : Event
  reload_asked : Config → Event
  stop_asked : Event

abbrev pub updated : System → Result → System
updated s (err, m, w) = record s { manager = m; world = w }

unfoldable pub on_tick : Calendar → ℕ → Option ℕ → System → System
unfolding should_update
on_tick cal now modified s =
    if should_update cal s.manager.config.geo_data.auto_update modified now
    then (if too_soon s.last_attempt now
        then s
        else record s { loop = downloading; last_attempt = some now; attempts = now ∷ s.attempts })
    else s

abbrev pub on_noticed : System → System
on_noticed s = if s.manager.stop_requested then record s { loop = ended } else s

abbrev pub on_downloaded : System → System
on_downloaded s =
    if s.manager.stop_requested then record s { loop = ended } else record s { loop = restarting }

abbrev pub on_restarted : Env → System → System
on_restarted env s = record (updated s (reload_current env s.manager s.world)) { loop = idle }

-- An event that the loop is not at changes nothing.
abbrev pub at_idle : Loop → System → System → System
at_idle idle s' s = s'
at_idle _ s' s = s

abbrev pub at_downloading : Loop → System → System → System
at_downloading downloading s' s = s'
at_downloading _ s' s = s

abbrev pub at_restarting : Loop → System → System → System
at_restarting restarting s' s = s'
at_restarting _ s' s = s

unfoldable pub step : Env → Calendar → Event → System → System
unfolding on_tick reload_current reload stop
step env cal (reload_asked new) s = updated s (reload env new s.manager s.world)
step env cal stop_asked s = updated s (stop env s.manager s.world)
step env cal (tick now modified) s = at_idle s.loop (on_tick cal now modified s) s
step env cal noticed s = at_idle s.loop (on_noticed s) s
step env cal downloaded s = at_downloading s.loop (on_downloaded s) s
step env cal restarted s = at_restarting s.loop (on_restarted env s) s

unfoldable pub run : Env → Calendar → List Event → System → System
unfolding step
run env cal [] s = s
run env cal (e ∷ es) s = run env cal es (step env cal e s)
