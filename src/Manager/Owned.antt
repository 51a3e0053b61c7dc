-- ===== src/Manager/Owned.antt =====
-- The components that are started, the fields of the manager, and those whose Stop failed.
use dns_automatic_traffic_sp.Base.{
  ◌∙◌, ℕ, ◌+◌, ◌-◌, ◌≡◌, refl, Bool, true, false, ◌&&◌, ◌||◌, not, Option, none, some, arith,
  is_some,
}
use dns_automatic_traffic_sp.Base.Text.{is_empty}
use dns_automatic_traffic_sp.Base.Handles.{count, holds, count-remove}
use dns_automatic_traffic_sp.Client.{Error}
use dns_automatic_traffic_sp.Manager.{
  given_up, ServiceManager, World, Env, launch, place, close_logger, start_components, ensure_geo,
  start_after, start_internal, geo_of, stop_one, emptied, stop_internal, new_cert_manager,
  tls_ready,
}

-- How many fields of the manager hold a component.
abbrev pub held : ℕ → ServiceManager → ℕ
held k m =
    holds k m.acme_server
    + holds k m.dns_server
    + holds k m.dot_server
    + holds k m.doq_server
    + holds k m.doh_server
    + holds k m.router
    + holds k m.query_log

-- Every component that is started and was not asked to stop is in one field, and every field holds
-- such a one.
abbrev pub Owned : ServiceManager → World → Type 0
Owned m w = (k : ℕ) → count k w.live ≡ held k m

-- No field holds a component.
pub record IsStopped (m : ServiceManager) : Type 0 where
  pub acme : m.acme_server ≡ none
  pub dns : m.dns_server ≡ none
  pub dot : m.dot_server ≡ none
  pub doq : m.doq_server ≡ none
  pub doh : m.doh_server ≡ none
  pub router : m.router ≡ none
  pub query_log : m.query_log ≡ none

given_up-live :
    (e : Option Error) (n : ℕ) (w : World) (k : ℕ) → count k (given_up e n w).live ≡ count k w.live
given_up-live none n w k = refl
given_up-live (some e) n w k = refl

stop_one-count :
    (env : Env) (k : ℕ) (o : Option ℕ) (s : Option Error × World)
    → count k (stop_one env o s).1.live ≡ count k s.1.live - holds k o
unfolding stop_one
stop_one-count env k none s = omega arith
stop_one-count env k (some n) s = given_up-live (env.stop_error n) n _ k ∙ count-remove k n s.1.live

pub stop_internal-live :
    (env : Env) (m : ServiceManager) (w : World) (k : ℕ)
    → count k (stop_internal env m w).2.live ≡ count k w.live - held k m
unfolding stop_internal
stop_internal-live env m w k =
    let s1 = stop_one env m.acme_server (none, w) in
    let s2 = stop_one env m.dns_server s1 in
    let s3 = stop_one env m.dot_server s2 in
    let s4 = stop_one env m.doq_server s3 in
    let s5 = stop_one env m.doh_server s4 in
    let s6 = stop_one env m.router s5 in
    omega (
      arith,
      stop_one-count env k m.acme_server (none, w),
      stop_one-count env k m.dns_server s1,
      stop_one-count env k m.dot_server s2,
      stop_one-count env k m.doq_server s3,
      stop_one-count env k m.doh_server s4,
      stop_one-count env k m.router s5,
      stop_one-count env k m.query_log s6,
    )

pub stop_internal-fields :
    (env : Env) (m : ServiceManager) (w : World) → (stop_internal env m w).1 ≡ emptied m
unfolding stop_internal
stop_internal-fields env m w = refl

place-count :
    (k : ℕ) (configured ready : Bool) (old : Option ℕ) (w : World)
    → old ≡ none
    → count k (place configured ready old w).1.live
      ≡ count k w.live + holds k (place configured ready old w).0
unfolding place
place-count k true true old w e = ground arith
place-count k true false old w e = omega arith
place-count k false ready old w e = ground (arith, e)

launch-count :
    (k : ℕ) (w : World) → count k (launch w).1.live ≡ count k w.live + holds k (some (launch w).0)
launch-count k w = ground arith

close_logger-count :
    (k : ℕ) (o : Option ℕ) (w : World) → o ≡ none → count k (close_logger o w).live ≡ count k w.live
close_logger-count k none w e = refl
close_logger-count k (some n) w e = ground (arith, e)

start_components-live :
    (env : Env) (m : ServiceManager) (w : World) (k : ℕ)
    → IsStopped m
    → let (m', w') = start_components env m w in count k w'.live ≡ count k w.live + held k m'
unfolding start_components
start_components-live env m w k v =
    let cfg = m.config in
    let listen = cfg.listen in
    let cert = new_cert_manager env cfg.auto_cert in
    let w1 = close_logger m.query_log w in
    let w2 = (launch w1).1 in
    let w3 = (launch w2).1 in
    let acme = cfg.auto_cert.enabled && is_some cert in
    let w4 = (place acme true m.acme_server w3).1 in
    let dns = not (is_empty listen.dns_udp) || not (is_empty listen.dns_tcp) in
    let w5 = (place dns true m.dns_server w4).1 in
    let dot = not (is_empty listen.dot) in
    let w6 = (place dot (tls_ready env cfg cert) m.dot_server w5).1 in
    let doq = not (is_empty listen.doq) in
    let w7 = (place doq true m.doq_server w6).1 in
    let doh = not (is_empty listen.doh) in
    omega (
      arith,
      close_logger-count k m.query_log w v.query_log,
      launch-count k w1,
      launch-count k w2,
      place-count k acme true m.acme_server w3 v.acme,
      place-count k dns true m.dns_server w4 v.dns,
      place-count k dot (tls_ready env cfg cert) m.dot_server w5 v.dot,
      place-count k doq true m.doq_server w6 v.doq,
      place-count k doh (tls_ready env cfg cert) m.doh_server w7 v.doh,
    )

held-none : (m : ServiceManager) (k : ℕ) → IsStopped m → held k m ≡ 0
held-none m k v = ground (arith, v.acme, v.dns, v.dot, v.doq, v.doh, v.router, v.query_log)

-- Starting from nothing, with the outcome of the geo database: an error starts nothing.
start_after-Owned :
    (env : Env) (m : ServiceManager) (w : World) (geo : Option Error)
    → IsStopped m
    → Owned m w
    → let (err, m', w') = start_after env m w geo in Owned m' w'
start_after-Owned env m w (some e) v o = λ k. o k
start_after-Owned env m w none v o = λ k. omega (
  arith,
  start_components-live env (record m { geo_manager = geo_of m.config m.geo_manager }) w k
      (record {
        acme = v.acme;
        dns = v.dns;
        dot = v.dot;
        doq = v.doq;
        doh = v.doh;
        router = v.router;
        query_log = v.query_log;
      }),
  held-none m k v,
  o k,
)

pub start_internal-Owned :
    (env : Env) (m : ServiceManager) (w : World)
    → IsStopped m
    → Owned m w
    → let (err, m', w') = start_internal env m w in Owned m' w'
unfolding start_internal
start_internal-Owned env m w v o =
    start_after-Owned env m w (ensure_geo env m.config m.geo_manager) v o

pub emptied-IsStopped : (m : ServiceManager) → IsStopped (emptied m)
emptied-IsStopped m = record {
  acme = refl;
  dns = refl;
  dot = refl;
  doq = refl;
  doh = refl;
  router = refl;
  query_log = refl;
}

-- stopInternal stops all that is started, whatever errors it meets.
pub stop_internal-Owned :
    (env : Env) (m : ServiceManager) (w : World)
    → Owned m w
    → let (err, m', w') = stop_internal env m w in
      Owned m' w' × IsStopped m' × ((k : ℕ) → count k w'.live ≡ 0)
unfolding stop_internal
stop_internal-Owned env m w o = (
  λ k. omega (arith, stop_internal-live env m w k, o k),
  emptied-IsStopped m,
  λ k. omega (arith, stop_internal-live env m w k, o k),
)
