-- ===== src/Manager.antt =====
-- internal/manager/manager.go: which components run, and what Start, Stop and Reload do to them.
-- A component that has been created and started (a server, the router, the query log) is known by a
-- number, and the `World` has the numbers of those that are started and not yet stopped. What the
-- outside decides is an `Env`. A component whose Stop returns an error may run on although no field
-- has it any more (a DNS server whose goroutine has not begun to listen does); it is `leaked`. The
-- lock is the atomicity of each operation; log output and the release of memory are left out.
pub mod Owned
pub mod Failed
pub mod Reloads
pub mod AutoUpdate
pub mod Updates
use dns_automatic_traffic_sp.Base.{
  ℕ, zero, suc, ◌+◌, Bool, true, false, ◌&&◌, ◌||◌, not, Option, none, some, List, [], ◌∷◌, ◌==◌,
  if◌then◌else◌, is_some,
}
use dns_automatic_traffic_sp.Base.Text.{Text, codes, text_eq, is_empty}
use dns_automatic_traffic_sp.Base.Handles.{remove}
use dns_automatic_traffic_sp.Client.{Error, wrapped}
use dns_automatic_traffic_sp.Settings.{
  Config, ListenConfig, GeoDataConfig, QueryLogConfig, AutoCertConfig,
}

-- The two paths that the geo database was loaded from.
abbrev pub Geo : Type 0
Geo = Text × Text

-- `stop_requested` is that the channel stopAutoUpdate is closed.
pub record ServiceManager : Type 0 where
  pub config : Config
  pub geo_manager : Option Geo
  pub router : Option ℕ
  pub query_log : Option ℕ
  pub dns_server : Option ℕ
  pub dot_server : Option ℕ
  pub doh_server : Option ℕ
  pub doq_server : Option ℕ
  pub acme_server : Option ℕ
  pub stop_requested : Bool

-- What is started and not asked to stop, what was asked to stop and gave an error, and the files that
-- were removed.
pub record World : Type 0 where
  pub next : ℕ
  pub live : List ℕ
  pub leaked : List ℕ
  pub removed : List Text

-- Whether the database files load, a directory can be made, and the servers' own certificates load;
-- and the errors of stopping a component.
pub record Env : Type 0 where
  pub load_geo : Text → Text → Option Error
  pub make_dir : Text → Bool
  pub certificates : Config → Bool
  pub stop_error : ℕ → Option Error

unfoldable pub new_service_manager : Config → ServiceManager
new_service_manager cfg = record {
  config = cfg;
  geo_manager = none;
  router = none;
  query_log = none;
  dns_server = none;
  dot_server = none;
  doh_server = none;
  doq_server = none;
  acme_server = none;
  stop_requested = false;
}

-- A component is started.
abbrev pub launch : World → ℕ × World
launch w = (w.next, record w { next = w.next + 1; live = w.next ∷ w.live })

abbrev pub stopped : ℕ → World → World
stopped n w = record w { live = remove n w.live }

-- A field that is assigned if its part of the configuration is there: a new component, or nil where
-- it cannot be made.
unfoldable pub place : Bool → Bool → Option ℕ → World → Option ℕ × World
place configured ready old w =
    if configured then (if ready then (some w.next, (launch w).1) else (none, w)) else (old, w)

abbrev pub is_nil {ℓ} : {A : Type ℓ} → List A → Bool
is_nil [] = true
is_nil (x ∷ xs) = false

abbrev pub close_logger : Option ℕ → World → World
close_logger none w = w
close_logger (some n) w = stopped n w

-- NewCertManager of internal/util/certmanager.go: its `enabled`, or none for an error.
unfoldable pub new_cert_manager : Env → AutoCertConfig → Option Bool
new_cert_manager env c =
    if not c.enabled
    then some false
    else if is_nil c.domains
    then none
    else if is_empty c.email
    then none
    else if env.make_dir (if is_empty c.cert_dir then codes "certs" else c.cert_dir)
    then some true
    else none

-- cm != nil && cm.GetCertificateFunc() != nil, or certificates that load
abbrev pub tls_ready : Env → Config → Option Bool → Bool
tls_ready env cfg none = env.certificates cfg
tls_ready env cfg (some enabled) = enabled || env.certificates cfg

-- startInternal behind the geo database.
unfoldable pub start_components : Env → ServiceManager → World → ServiceManager × World
unfolding place
start_components env m w =
    let cfg = m.config in
    let cert = new_cert_manager env cfg.auto_cert in
    let w1 = close_logger m.query_log w in
    let (query_log, w2) = launch w1 in
    let (router, w3) = launch w2 in
    let (acme, w4) = place (cfg.auto_cert.enabled && is_some cert) true m.acme_server w3 in
    let (dns, w5) =
      place (not (is_empty cfg.listen.dns_udp) || not (is_empty cfg.listen.dns_tcp)) true
        m.dns_server w4 in
    let (dot, w6) =
      place (not (is_empty cfg.listen.dot)) (tls_ready env cfg cert) m.dot_server w5 in
    let (doq, w7) = place (not (is_empty cfg.listen.doq)) true m.doq_server w6 in
    let (doh, w8) =
      place (not (is_empty cfg.listen.doh)) (tls_ready env cfg cert) m.doh_server w7 in
    (
      record m {
        query_log = some query_log;
        router = some router;
        acme_server = acme;
        dns_server = dns;
        dot_server = dot;
        doq_server = doq;
        doh_server = doh;
      },
      w8,
    )

-- The database that is there, one that loads, or the error of loading it.
abbrev pub ensure_geo : Env → Config → Option Geo → Option Error
ensure_geo env cfg (some geo) = none
ensure_geo env cfg none = env.load_geo cfg.geo_data.geoip_dat cfg.geo_data.geosite_dat

abbrev pub geo_of : Config → Option Geo → Option Geo
geo_of cfg (some geo) = some geo
geo_of cfg none = some (cfg.geo_data.geoip_dat, cfg.geo_data.geosite_dat)

abbrev pub Result : Type 0
Result = Option Error × ServiceManager × World

abbrev pub start_after : Env → ServiceManager → World → Option Error → Result
start_after env m w (some e) = (some (wrapped (codes "GeoManager init failed") e), m, w)
start_after env m w none =
    let (m', w') =
      start_components env (record m { geo_manager = geo_of m.config m.geo_manager }) w in
    (none, m', w')

unfoldable pub start_internal : Env → ServiceManager → World → Result
unfolding start_components
start_internal env m w = start_after env m w (ensure_geo env m.config m.geo_manager)

abbrev pub first_error : Option Error → Option Error → Option Error
first_error none e = e
first_error (some e) e' = some e

-- Behind a Stop with its error.
abbrev pub given_up : Option Error → ℕ → World → World
given_up none n w = w
given_up (some e) n w = record w { leaked = n ∷ w.leaked }

-- One field of stopInternal: asked to stop if it is not nil.
unfoldable pub stop_one : Env → Option ℕ → Option Error × World → Option Error × World
stop_one env none (err, w) = (err, w)
stop_one env (some n) (err, w) =
    (first_error err (env.stop_error n), given_up (env.stop_error n) n (stopped n w))

abbrev pub emptied : ServiceManager → ServiceManager
emptied m = record m {
  acme_server = none;
  dns_server = none;
  dot_server = none;
  doq_server = none;
  doh_server = none;
  router = none;
  query_log = none;
}

unfoldable pub stop_internal : Env → ServiceManager → World → Result
unfolding stop_one
stop_internal env m w =
    let s1 = stop_one env m.acme_server (none, w) in
    let s2 = stop_one env m.dns_server s1 in
    let s3 = stop_one env m.dot_server s2 in
    let s4 = stop_one env m.doq_server s3 in
    let s5 = stop_one env m.doh_server s4 in
    let s6 = stop_one env m.router s5 in
    let (err, w') = stop_one env m.query_log s6 in (err, emptied m, w')

-- Start, without the update loop that it starts.
unfoldable pub start : Env → ServiceManager → World → Result
unfolding start_internal
start env m w = start_internal env m w

unfoldable pub stop : Env → ServiceManager → World → Result
unfolding stop_internal
stop env m w = stop_internal env (record m { stop_requested = true }) w

abbrev pub geo_changed : Config → Config → Bool
geo_changed old new =
    not (text_eq old.geo_data.geoip_dat new.geo_data.geoip_dat)
    || not (text_eq old.geo_data.geosite_dat new.geo_data.geosite_dat)

abbrev pub log_file : QueryLogConfig → Text
log_file q = if is_empty q.file then codes "query.log" else q.file

-- The log file goes when persisting it is switched off.
abbrev pub remove_log : Config → Config → World → World
remove_log old new w =
    if old.query_log.save_to_file && not new.query_log.save_to_file
    then record w { removed = log_file old.query_log ∷ w.removed }
    else w

abbrev pub restart_failed : Error → Error
restart_failed e = wrapped (codes "failed to restart services") e

-- Behind the start with the new configuration.
unfoldable pub roll_back : Env → Config → Result → Result
unfolding start_internal stop_internal
roll_back env old (none, m, w) = (none, m, w)
roll_back env old (some e, m, w) =
    let (ignored, m1, w1) = stop_internal env (record m { config = old; geo_manager = none }) w in
    let (again, m2, w2) = start_internal env m1 w1 in (some (restart_failed e), m2, w2)

unfoldable pub reload : Env → Config → ServiceManager → World → Result
unfolding roll_back
reload env new m w =
    let geo = if geo_changed m.config new then none else m.geo_manager in
    let (ignored, m1, w1) = stop_internal env (record m { geo_manager = geo }) w in
    roll_back env m.config
      (start_internal env (record m1 { config = new }) (remove_log m.config new w1))

abbrev pub wrap_restart : Result → Result
wrap_restart (none, m, w) = (none, m, w)
wrap_restart (some e, m, w) = (some (restart_failed e), m, w)

unfoldable pub reload_current : Env → ServiceManager → World → Result
unfolding start_internal stop_internal
reload_current env m w =
    let (ignored, m1, w1) = stop_internal env (record m { geo_manager = none }) w in
    wrap_restart (start_internal env m1 w1)
