-- ===== src/Manager/Failed.antt =====
-- The components whose Stop failed: nothing else is lost sight of.
use dns_automatic_traffic_sp.Base.{
  if◌then◌else◌, ◌<◌, ◌∙◌, sym, ap, subst, Bool-cases, inl, inr, ◌==◌, ==_iff, ℕ, ◌≡◌, refl, Bool,
  true, false, ◌&&◌, ◌||◌, not, Option, none, some, arith, is_some,
}
use dns_automatic_traffic_sp.Base.Text.{is_empty}
use dns_automatic_traffic_sp.Base.Handles.{count}
use dns_automatic_traffic_sp.Client.{Error}
use dns_automatic_traffic_sp.Settings.{Config}
use dns_automatic_traffic_sp.Manager.{
  geo_changed, Result, given_up, stopped, roll_back, remove_log, reload, wrap_restart,
  reload_current, stop, ServiceManager, World, Env, launch, place, close_logger, start_components,
  ensure_geo, start_after, start_internal, geo_of, stop_one, stop_internal, new_cert_manager,
  tls_ready,
}

-- A component that was asked to stop and may run on has a Stop that failed.
abbrev pub OnlyFailed : Env → World → Type 0
OnlyFailed env w = (k : ℕ) → 0 < count k w.leaked → is_some (env.stop_error k) ≡ true

given_up-OnlyFailed :
    (env : Env) (n : ℕ) (w : World) (o : Option Error)
    → env.stop_error n ≡ o
    → OnlyFailed env w
    → OnlyFailed env (given_up o n w)
given_up-OnlyFailed env n w none e f = f
given_up-OnlyFailed env n w (some x) e f = λ k h. elim (Bool-cases (n == k)) [
  | inl same ↦ ap (λ i. is_some (env.stop_error i)) (sym ((==_iff n k).0 same)) ∙ ap is_some e
  | inr other ↦ f k (rw other at h)
]

stop_one-OnlyFailed :
    (env : Env) (o : Option ℕ) (s : Option Error × World)
    → OnlyFailed env s.1
    → OnlyFailed env (stop_one env o s).1
unfolding stop_one
stop_one-OnlyFailed env none s f = f
stop_one-OnlyFailed env (some n) s f =
    given_up-OnlyFailed env n (stopped n s.1) (env.stop_error n) refl f

stop_internal-OnlyFailed :
    (env : Env) (m : ServiceManager) (w : World)
    → OnlyFailed env w
    → OnlyFailed env (stop_internal env m w).2
unfolding stop_internal
stop_internal-OnlyFailed env m w f =
    let s1 = stop_one env m.acme_server (none, w) in
    let s2 = stop_one env m.dns_server s1 in
    let s3 = stop_one env m.dot_server s2 in
    let s4 = stop_one env m.doq_server s3 in
    let s5 = stop_one env m.doh_server s4 in
    let s6 = stop_one env m.router s5 in
    stop_one-OnlyFailed env m.query_log s6 (
      stop_one-OnlyFailed env m.router s5 (
        stop_one-OnlyFailed env m.doh_server s4 (
          stop_one-OnlyFailed env m.doq_server s3 (
            stop_one-OnlyFailed env m.dot_server s2 (
              stop_one-OnlyFailed env m.dns_server s1
                (stop_one-OnlyFailed env m.acme_server (none, w) f))))))

place-leaked :
    (configured ready : Bool) (old : Option ℕ) (w : World)
    → (place configured ready old w).1.leaked ≡ w.leaked
unfolding place
place-leaked true true old w = refl
place-leaked true false old w = refl
place-leaked false ready old w = refl

close_logger-leaked : (o : Option ℕ) (w : World) → (close_logger o w).leaked ≡ w.leaked
close_logger-leaked none w = refl
close_logger-leaked (some n) w = refl

start_components-leaked :
    (env : Env) (m : ServiceManager) (w : World) → (start_components env m w).1.leaked ≡ w.leaked
unfolding start_components
start_components-leaked env m w =
    let cfg = m.config in
    let listen = cfg.listen in
    let cert = new_cert_manager env cfg.auto_cert in
    let w3 = (launch (launch (close_logger m.query_log w)).1).1 in
    let acme = cfg.auto_cert.enabled && is_some cert in
    let w4 = (place acme true m.acme_server w3).1 in
    let dns = not (is_empty listen.dns_udp) || not (is_empty listen.dns_tcp) in
    let w5 = (place dns true m.dns_server w4).1 in
    let dot = not (is_empty listen.dot) in
    let w6 = (place dot (tls_ready env cfg cert) m.dot_server w5).1 in
    let doq = not (is_empty listen.doq) in
    let w7 = (place doq true m.doq_server w6).1 in
    place-leaked (not (is_empty listen.doh)) (tls_ready env cfg cert) m.doh_server w7
    ∙ place-leaked doq true m.doq_server w6
    ∙ place-leaked dot (tls_ready env cfg cert) m.dot_server w5
    ∙ place-leaked dns true m.dns_server w4
    ∙ place-leaked acme true m.acme_server w3
    ∙ close_logger-leaked m.query_log w

start_after-leaked :
    (env : Env) (m : ServiceManager) (w : World) (geo : Option Error)
    → (start_after env m w geo).2.leaked ≡ w.leaked
start_after-leaked env m w none =
    start_components-leaked env (record m { geo_manager = geo_of m.config m.geo_manager }) w
start_after-leaked env m w (some e) = refl

start_internal-OnlyFailed :
    (env : Env) (m : ServiceManager) (w : World)
    → OnlyFailed env w
    → OnlyFailed env (start_internal env m w).2
unfolding start_internal
start_internal-OnlyFailed env m w f = λ k h. f k (
    subst (λ l. 0 < count k l) (start_after-leaked env m w (ensure_geo env m.config m.geo_manager))
      h)

roll_back-OnlyFailed :
    (env : Env) (old : Config) (r : Result)
    → OnlyFailed env r.2
    → OnlyFailed env (roll_back env old r).2
unfolding roll_back
roll_back-OnlyFailed env old (none, m, w) f = f
roll_back-OnlyFailed env old (some e, m, w) f =
    let back = record m { config = old; geo_manager = none } in
    let (ignored, m1, w1) = stop_internal env back w in
    start_internal-OnlyFailed env m1 w1 (stop_internal-OnlyFailed env back w f)

remove_log-leaked : (old new : Config) (w : World) → (remove_log old new w).leaked ≡ w.leaked
remove_log-leaked old new w = ground arith

pub reload-OnlyFailed :
    (env : Env) (new : Config) (m : ServiceManager) (w : World)
    → OnlyFailed env w
    → OnlyFailed env (reload env new m w).2
unfolding reload
reload-OnlyFailed env new m w f =
    let before = record m {
      geo_manager = if geo_changed m.config new then none else m.geo_manager;
    } in
    let (ignored, m1, w1) = stop_internal env before w in
    let m2 = record m1 { config = new } in
    let w2 = remove_log m.config new w1 in
    roll_back-OnlyFailed env m.config (start_internal env m2 w2) (
      start_internal-OnlyFailed env m2 w2 (λ k h.
        stop_internal-OnlyFailed env before w f k
          (subst (λ l. 0 < count k l) (remove_log-leaked m.config new w1) h)))

wrap_restart-OnlyFailed :
    (env : Env) (r : Result) → OnlyFailed env r.2 → OnlyFailed env (wrap_restart r).2
wrap_restart-OnlyFailed env (none, m, w) f = f
wrap_restart-OnlyFailed env (some e, m, w) f = f

pub reload_current-OnlyFailed :
    (env : Env) (m : ServiceManager) (w : World)
    → OnlyFailed env w
    → OnlyFailed env (reload_current env m w).2
unfolding reload_current
reload_current-OnlyFailed env m w f =
    let before = record m { geo_manager = none } in
    let (ignored, m1, w1) = stop_internal env before w in
    wrap_restart-OnlyFailed env (start_internal env m1 w1)
      (start_internal-OnlyFailed env m1 w1 (stop_internal-OnlyFailed env before w f))

pub stop-OnlyFailed :
    (env : Env) (m : ServiceManager) (w : World)
    → OnlyFailed env w
    → OnlyFailed env (stop env m w).2
unfolding stop
stop-OnlyFailed env m w f = stop_internal-OnlyFailed env (record m { stop_requested = true }) w f
