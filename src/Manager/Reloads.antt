-- ===== src/Manager/Reloads.antt =====
-- What a reload leaves running, with the new configuration or with the old one.
use dns_automatic_traffic_sp.Base.{
  ℕ, ◌≡◌, refl, sym, ap, ◌∙◌, Bool, true, false, ◌&&◌, ◌||◌, not, Option, none, some, arith,
  if◌then◌else◌, is_some, inl, inr, ◌⊎◌, subst,
}
use dns_automatic_traffic_sp.Base.Text.{is_empty}
use dns_automatic_traffic_sp.Base.Handles.{count}
use dns_automatic_traffic_sp.Client.{Error}
use dns_automatic_traffic_sp.Settings.{Config}
use dns_automatic_traffic_sp.Manager.{
  ServiceManager, World, Env, Geo, Result, place, start_components, ensure_geo, geo_of, start_after,
  start_internal, stop_internal, new_cert_manager, tls_ready, roll_back, reload, geo_changed,
  remove_log, restart_failed,
}
use dns_automatic_traffic_sp.Manager.Failed.{OnlyFailed, reload-OnlyFailed}
use dns_automatic_traffic_sp.Manager.Owned.{
  Owned, IsStopped, start_internal-Owned, stop_internal-Owned,
}

-- Each component runs exactly if the manager's configuration asks for it, a server with TLS only if
-- there are certificates.
pub record IsServing (env : Env) (m : ServiceManager) : Type 0 where
  pub router : is_some m.router ≡ true
  pub query_log : is_some m.query_log ≡ true
  pub dns :
      is_some m.dns_server
      ≡ (not (is_empty m.config.listen.dns_udp) || not (is_empty m.config.listen.dns_tcp))
  pub dot : is_some m.dot_server ≡ (
      not (is_empty m.config.listen.dot)
      && tls_ready env m.config (new_cert_manager env m.config.auto_cert))
  pub doq : is_some m.doq_server ≡ not (is_empty m.config.listen.doq)
  pub doh : is_some m.doh_server ≡ (
      not (is_empty m.config.listen.doh)
      && tls_ready env m.config (new_cert_manager env m.config.auto_cert))
  pub acme :
      is_some m.acme_server
      ≡ (m.config.auto_cert.enabled && is_some (new_cert_manager env m.config.auto_cert))

place-is_some :
    (configured ready : Bool) (old : Option ℕ) (w : World)
    → old ≡ none
    → is_some (place configured ready old w).0 ≡ (configured && ready)
unfolding place
place-is_some true true old w e = refl
place-is_some true false old w e = refl
place-is_some false ready old w e = ground (arith, e)

and_true : (b : Bool) → (b && true) ≡ b
and_true true = refl
and_true false = refl

start_components-IsServing :
    (env : Env) (m : ServiceManager) (w : World)
    → IsStopped m
    → IsServing env (start_components env m w).0
unfolding start_components
start_components-IsServing env m w v = record {
  router = refl;
  query_log = refl;
  dns = place-is_some _ true m.dns_server _ v.dns ∙ and_true _;
  dot = place-is_some _ _ m.dot_server _ v.dot;
  doq = place-is_some _ true m.doq_server _ v.doq ∙ and_true _;
  doh = place-is_some _ _ m.doh_server _ v.doh;
  acme = place-is_some _ true m.acme_server _ v.acme ∙ and_true _;
}

abbrev pub geo_fails : Env → Config → Bool
geo_fails env cfg = is_some (env.load_geo cfg.geo_data.geoip_dat cfg.geo_data.geosite_dat)

-- The two ends of a start: all that the configuration asks for, or the database's error and nothing.
abbrev pub Ended : Env → ServiceManager → World → Result → Type 0
Ended env m w (none, m', w') = (m'.config ≡ m.config) × IsServing env m'
Ended env m w (some e, m', w') = (m' ≡ m) × (w' ≡ w) × (geo_fails env m.config ≡ true)

pub start_internal-Ended :
    (env : Env) (m : ServiceManager) (w : World)
    → IsStopped m
    → Ended env m w (start_internal env m w)
unfolding start_internal
start_internal-Ended env m w v = by_geo m.geo_manager
  where
    m_with : Option Geo → ServiceManager
    m_with geo = record m { geo_manager = geo_of m.config geo }

    v_with : (geo : Option Geo) → IsStopped (m_with geo)
    v_with geo = record {
      acme = v.acme;
      dns = v.dns;
      dot = v.dot;
      doq = v.doq;
      doh = v.doh;
      router = v.router;
      query_log = v.query_log;
    }

    by_load :
        (loaded : Option Error)
        → (is_some loaded ≡ true → geo_fails env m.config ≡ true)
        → Ended env m w (start_after env m w loaded)
    by_load none fails =
        (refl, start_components-IsServing env (m_with m.geo_manager) w (v_with m.geo_manager))
    by_load (some e) fails = (refl, refl, fails refl)

    by_geo : (geo : Option Geo) → Ended env m w (start_after env m w (ensure_geo env m.config geo))
    by_geo (some geo) = by_load none (λ h. cc h)
    by_geo none =
        by_load (env.load_geo m.config.geo_data.geoip_dat m.config.geo_data.geosite_dat) (λ h. h)

-- The ends of a reload from the configuration `old` to `new`.
abbrev pub Reloaded : Env → Config → Config → Result → Type 0
Reloaded env old new (none, m, w) = Owned m w × (m.config ≡ new) × IsServing env m
Reloaded env old new (some e, m, w) =
    Owned m w
    × (m.config ≡ old)
    × (geo_fails env new ≡ true)
    × (IsServing env m ⊎ (IsStopped m × (geo_fails env old ≡ true)))

-- The second start, with the old configuration.
again_lem :
    (env : Env) (old new : Config) (e : Error) (m : ServiceManager) (w : World) (r : Result)
    → m.config ≡ old
    → IsStopped m
    → geo_fails env new ≡ true
    → Ended env m w r
    → (let (err, m', w') = r in Owned m' w')
    → Reloaded env old new (some (restart_failed e), r.1, r.2)
again_lem env old new e m w (none, m', w') c v bad ended o = (o, ended.0 ∙ c, bad, inl ended.1)
again_lem env old new e m w (some f, m', w') c v bad ended o = (
  o,
  ap (λ (x : ServiceManager). x.config) ended.0 ∙ c,
  bad,
  inr (subst IsStopped (sym ended.0) v, ap (geo_fails env) (sym c) ∙ ended.2),
)

roll_back-Reloaded :
    (env : Env) (old new : Config) (m : ServiceManager) (w : World) (r : Result)
    → m.config ≡ new
    → Owned m w
    → Ended env m w r
    → (let (err, m', w') = r in Owned m' w')
    → Reloaded env old new (roll_back env old r)
unfolding roll_back
roll_back-Reloaded env old new m w (none, m', w') c o ended o' = (o', ended.0 ∙ c, ended.1)
roll_back-Reloaded env old new m w (some e, m', w') c o ended o' =
    let back = record m' { config = old; geo_manager = none } in
    let (o1, v1, none_live) = stop_internal-Owned env back w' o' in
    let (ignored, m1, w1) = stop_internal env back w' in
    again_lem env old new e m1 w1 (start_internal env m1 w1) refl v1
      (ap (geo_fails env) (sym c) ∙ ended.2) (start_internal-Ended env m1 w1 v1)
      (start_internal-Owned env m1 w1 v1 o1)

reload-Ended :
    (env : Env) (new : Config) (m : ServiceManager) (w : World)
    → Owned m w
    → Reloaded env m.config new (reload env new m w)
unfolding reload
reload-Ended env new m w o =
    let geo = if geo_changed m.config new then none else m.geo_manager in
    let before = record m { geo_manager = geo } in
    let (ignored, m1, w1) = stop_internal env before w in
    let (o1, v1, none_live) = stop_internal-Owned env before w (λ k. o k) in
    let m2 = record m1 { config = new } in
    let w2 = remove_log m.config new w1 in
    let v2 : IsStopped m2 = moved m1 v1 in
    let o2 : Owned m2 w2 = λ k. remove_log-count k m.config new w1 ∙ o1 k in
    roll_back-Reloaded env m.config new m2 w2 (start_internal env m2 w2) refl o2
      (start_internal-Ended env m2 w2 v2) (start_internal-Owned env m2 w2 v2 o2)
  where
    moved : (m1 : ServiceManager) → IsStopped m1 → IsStopped (record m1 { config = new })
    moved m1 v = record {
      acme = v.acme;
      dns = v.dns;
      dot = v.dot;
      doq = v.doq;
      doh = v.doh;
      router = v.router;
      query_log = v.query_log;
    }

    remove_log-count :
        (k : ℕ) (old new : Config) (w : World)
        → count k (remove_log old new w).live ≡ count k w.live
    remove_log-count k old new w = ground arith

-- Reload, where every started component that was not asked to stop is in a field of the manager, and
-- those that were asked and may run on had a Stop that failed. Both stay so: no other component is
-- left behind. Without an error it leaves the new configuration and exactly the components that it
-- asks for. With an error, which only a geo database that does not load gives, the configuration is
-- the old one, and either exactly its components run, or none, if the old database does not load
-- either.
pub reload-Reloaded :
    (env : Env) (new : Config) (m : ServiceManager) (w : World)
    → Owned m w
    → OnlyFailed env w
    → Reloaded env m.config new (reload env new m w) × OnlyFailed env (reload env new m w).2
reload-Reloaded env new m w o f = (reload-Ended env new m w o, reload-OnlyFailed env new m w f)
