-- ===== src/Router/Contract.antt =====
-- What the callers of Route rely on.
use dns_automatic_traffic_sp.Base.{
  ℕ, zero, suc, refl, ap, Bool, true, false, Option, none, some, List, [], ◌∷◌, inl, inr,
  if◌then◌else◌, Option-cases,
}
use dns_automatic_traffic_sp.Base.Text.{Text, codes, text_eq, to_lower, is_empty}
use dns_automatic_traffic_sp.Base.Maps.{lookup}
use dns_automatic_traffic_sp.Dns.{Ip, Question, Msg, DnsLib}
use dns_automatic_traffic_sp.Client.{
  Error, Reply, answered, failed, IsDefinite, no_question, bad_host_ip, context_error,
  dual_incomplete,
}
use dns_automatic_traffic_sp.Client.Race.Definite.{race_resolve-IsDefinite}
use dns_automatic_traffic_sp.QueryLog.{QueryLogger}
use dns_automatic_traffic_sp.Router.{
  Router, Net, DualEvent, from_overseas, from_cn, dual_done, Outcome, resolve_cn, resolve_overseas,
  lookup_rule, lookup_regex_rule, lookup_geo_site,
}
use dns_automatic_traffic_sp.Router.Names.{normal_name, match_names}
use dns_automatic_traffic_sp.Router.Judge.{outcome, judge-IsDefinite}
use dns_automatic_traffic_sp.Router.Internal.{
  or_next, host_override_response, host_step, target_step, rule_step, regex_step, geo_step,
  dual_end, dual_loop, route_internal,
}
use dns_automatic_traffic_sp.Router.Route.{
  settle, settle_parts, cleared, clear_ttls, Call, log_outcome, route,
}

failed-IsDefinite : (e : Error) → IsDefinite (failed e)
failed-IsDefinite e = inr (e, refl, refl)

answered-IsDefinite : (m : Msg) → IsDefinite (answered m)
answered-IsDefinite m = inl (m, refl, refl)

-- The reply of a step that decides.
abbrev Decides : Option Outcome → Type 0
Decides none = Unit
Decides (some o) = IsDefinite o.reply

or_next-IsDefinite :
    (a : Option Outcome) (o : Outcome)
    → Decides a
    → IsDefinite o.reply
    → IsDefinite (or_next a o).reply
or_next-IsDefinite none o d h = h
or_next-IsDefinite (some a) o d h = d

module _ (lib : DnsLib) (r : Router) (net : Net) (req : Msg) where
  cn-IsDefinite : IsDefinite (resolve_cn r net req)
  unfolding resolve_cn
  cn-IsDefinite = race_resolve-IsDefinite r.cn_clients (net.cn req)

  overseas-IsDefinite : IsDefinite (resolve_overseas r net req)
  unfolding resolve_overseas
  overseas-IsDefinite = race_resolve-IsDefinite r.overseas_clients (net.overseas req)

  host_step-Decides : (name : Text) → Decides (host_step lib r req name)
  unfolding host_step
  host_step-Decides name = elim (Option-cases (lookup name r.hosts)) [
    | inl e ↦ rw (Decides, e) tt
    | inr (t, e) ↦ elim (Option-cases (lib.parse_ip t)) [
      | inl p ↦ rw (Decides, e, p) (failed-IsDefinite (bad_host_ip t name))
      | inr (ip, p) ↦ elim (Option-cases (host_override_response lib req req.question ip)) [
        | inl h ↦ rw (Decides, e, p, h) tt
        | inr (m, h) ↦ rw (Decides, e, p, h) (answered-IsDefinite m)
      ]
    ]
  ]

  if-Decides :
      (b : Bool) (x y : Option Outcome) → Decides x → Decides y → Decides (if b then x else y)
  if-Decides true x y dx dy = dx
  if-Decides false x y dx dy = dy

  target_step-Decides :
      (cl ol : Text) (rule : Option Text) → Decides (target_step lib r net req cl ol rule)
  unfolding target_step
  target_step-Decides cl ol none = tt
  target_step-Decides cl ol (some rule) =
      if-Decides (text_eq (to_lower rule) (codes "cn")) (some (outcome (resolve_cn r net req) cl))
        (if text_eq (to_lower rule) (codes "overseas")
          then some (outcome (resolve_overseas r net req) ol)
          else none)
        cn-IsDefinite
        (if-Decides (text_eq (to_lower rule) (codes "overseas"))
          (some (outcome (resolve_overseas r net req) ol)) none overseas-IsDefinite tt)

  geo_step-Decides : (site : Text) → Decides (geo_step lib r net req site)
  unfolding geo_step
  geo_step-Decides site =
      if-Decides (is_empty site) none
        (if text_eq (to_lower site) (codes "cn")
          then some (outcome (resolve_cn r net req) (codes "GeoSite(CN)"))
          else some (outcome (resolve_overseas r net req) (codes "GeoSite(Overseas)")))
        tt
        (if-Decides (text_eq (to_lower site) (codes "cn"))
          (some (outcome (resolve_cn r net req) (codes "GeoSite(CN)")))
          (some (outcome (resolve_overseas r net req) (codes "GeoSite(Overseas)"))) cn-IsDefinite
          overseas-IsDefinite)

  dual_end-IsDefinite : (o c : Option Reply) → IsDefinite (dual_end lib r net req o c).reply
  unfolding dual_end
  dual_end-IsDefinite none c = failed-IsDefinite dual_incomplete
  dual_end-IsDefinite (some o) none = failed-IsDefinite dual_incomplete
  dual_end-IsDefinite (some o) (some c) = judge-IsDefinite r.geo o c

  dual_loop-IsDefinite :
      (n : ℕ) (events : ℕ → DualEvent) (o c : Option Reply)
      → IsDefinite (dual_loop lib r net req n events o c).reply
  unfolding dual_loop
  dual_loop-IsDefinite zero events o c = dual_end-IsDefinite o c
  dual_loop-IsDefinite (suc n) events o c =
      by_event (events 0) (dual_loop-IsDefinite n (λ i. events (suc i)))
    where
      by_event :
          (e : DualEvent)
          → ((o c : Option Reply)
              → IsDefinite (dual_loop lib r net req n (λ i. events (suc i)) o c).reply)
          → IsDefinite
              (elim e as (λ _. Outcome) [
                | from_overseas ↦
                    dual_loop lib r net req n
                      (λ i. events (suc i))
                      (some (resolve_overseas r net req))
                      c
                | from_cn ↦
                    dual_loop lib r net req n (λ i. events (suc i)) o (some (resolve_cn r net req))
                | dual_done cause ↦ outcome (failed (context_error cause)) (codes "GeoIP(Timeout)")
              ]).reply
      by_event from_overseas ih = ih (some (resolve_overseas r net req)) c
      by_event from_cn ih = ih o (some (resolve_cn r net req))
      by_event (dual_done cause) ih = failed-IsDefinite (context_error cause)

  pub route_internal-IsDefinite : (q : Question) → IsDefinite (route_internal lib r net req q).reply
  unfolding route_internal rule_step regex_step
  route_internal-IsDefinite q =
      let name = normal_name q.name in
      let names = match_names lib.split_domain_name name in
      let by_dual = dual_loop lib r net req 2 net.dual none none in
      let by_geo = or_next (geo_step lib r net req (lookup_geo_site r.geo names)) by_dual in
      let by_regex = or_next (regex_step lib r net req names) by_geo in
      let by_rule = or_next (rule_step lib r net req names) by_regex in
      or_next-IsDefinite (host_step lib r req name) by_rule (host_step-Decides name) (
        or_next-IsDefinite (rule_step lib r net req names) by_regex
          (target_step-Decides (codes "Rule(CN)") (codes "Rule(Overseas)")
            (lookup_rule r.rules names))
          (or_next-IsDefinite (regex_step lib r net req names) by_geo
            (target_step-Decides (codes "Rule(Regex/CN)") (codes "Rule(Regex/Overseas)")
              (lookup_regex_rule r.regex_rules names))
            (or_next-IsDefinite (geo_step lib r net req (lookup_geo_site r.geo names)) by_dual
              (geo_step-Decides (lookup_geo_site r.geo names))
              (dual_loop-IsDefinite 2 net.dual none none))))

settle-IsDefinite :
    (lib : DnsLib) (r : Router) (net : Net) (req : Msg) (q : Question) (o : Outcome)
    → IsDefinite o.reply
    → IsDefinite (settle lib r net req q o).reply
unfolding settle settle_parts
settle-IsDefinite lib r net req q o (inl (m, e, f)) = rw (e, f) (answered-IsDefinite _)
settle-IsDefinite lib r net req q o (inr (x, e, f)) = rw (e, f) (failed-IsDefinite x)

cleared-IsDefinite :
    (r : Reply) → IsDefinite r → IsDefinite (record { resp = clear_ttls r.resp; err = r.err })
unfolding clear_ttls
cleared-IsDefinite r (inl (m, e, f)) = inl (cleared m, ap clear_ttls e, f)
cleared-IsDefinite r (inr (x, e, f)) = inr (x, ap clear_ttls e, f)

-- Route returns exactly one of a response and an error, for every request, configuration, logger
-- and behaviour of the network: never neither, which the callers would dereference, and never both.
pub route-IsDefinite :
    (lib : DnsLib) (format_ip : Ip → Text) (r : Router) (logger : Option QueryLogger) (call : Call)
    (req : Msg)
    → IsDefinite (route lib format_ip r logger call req).0
unfolding route
route-IsDefinite lib format_ip r logger call req = by_question req.question
  where
    by_question :
        (qs : List Question)
        → IsDefinite
            (elim qs as (λ _. Reply × Option QueryLogger) [
              | [] ↦ (failed no_question, logger)
              | q ∷ rest ↦
                  let o = settle lib r call.check_net req q (route_internal lib r call.net req q) in
                  (
                    record { resp = clear_ttls o.reply.resp; err = o.reply.err },
                    log_outcome lib format_ip logger call req q o,
                  )
            ]).0
    by_question [] = failed-IsDefinite no_question
    by_question (q ∷ rest) =
        cleared-IsDefinite
          (settle lib r call.check_net req q (route_internal lib r call.net req q)).reply
          (settle-IsDefinite lib r call.check_net req q (route_internal lib r call.net req q)
            (route_internal-IsDefinite lib r call.net req q))
