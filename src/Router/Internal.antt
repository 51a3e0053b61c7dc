-- ===== src/Router/Internal.antt =====
-- hostOverrideResponse and routeInternal of internal/router/router.go. The result of each step is
-- `none` where the source goes on to the next one. `q` is `req.Question[0]`, which both callers have.
use dns_automatic_traffic_sp.Base.{
  ℕ, zero, suc, Bool, ◌&&◌, ◌||◌, not, Option, none, some, List, [], ◌∷◌, ◌++◌, ◌==◌, if◌then◌else◌,
  is_some,
}
use dns_automatic_traffic_sp.Base.Text.{Text, codes, text_eq, to_lower, is_empty}
use dns_automatic_traffic_sp.Base.Maps.{lookup}
use dns_automatic_traffic_sp.Dns.{
  Ip, to4, a_record, aaaa_record, Rr, Question, Msg, type_a, type_aaaa, type_any, class_inet,
  DnsLib,
}
use dns_automatic_traffic_sp.Client.{
  Reply, answered, failed, bad_host_ip, context_error, dual_incomplete,
}
use dns_automatic_traffic_sp.Router.{
  Router, Net, DualEvent, from_overseas, from_cn, dual_done, Outcome, lookup_rule,
  lookup_regex_rule, lookup_geo_site, resolve_cn, resolve_overseas,
}
use dns_automatic_traffic_sp.Router.Names.{normal_name, match_names}
use dns_automatic_traffic_sp.Router.Judge.{outcome, judge}

-- The record that answers for an address, an A record if it has an IPv4 form.
unfoldable pub override_record : Question → Ip → Option Ip → Rr
override_record q ip (some v4) = record {
  name = q.name;
  rrtype = type_a;
  class = class_inet;
  ttl = 60;
  body = a_record v4;
}
override_record q ip none = record {
  name = q.name;
  rrtype = type_aaaa;
  class = class_inet;
  ttl = 60;
  body = aaaa_record ip;
}

-- The guard on the type of the question.
abbrev pub refuses : ℕ → Bool → Bool
refuses qtype is_v4 =
    not (qtype == type_any)
    && ((qtype == type_a && not is_v4)
        || (qtype == type_aaaa && is_v4)
        || (not (qtype == type_a) && not (qtype == type_aaaa)))

-- The address is not nil: the caller returns an error for one that does not parse.
unfoldable pub host_override_response : DnsLib → Msg → List Question → Ip → Option Msg
unfolding override_record to4
host_override_response lib req [] ip = none
host_override_response lib req (q ∷ rest) ip =
    if refuses q.qtype (is_some (to4 ip))
    then none
    else let m = lib.set_reply req in
      some (record m { answer = m.answer ++ override_record q ip (to4 ip) ∷ [] })

abbrev pub or_next : Option Outcome → Outcome → Outcome
or_next none o = o
or_next (some a) o = a

module _ (lib : DnsLib) (r : Router) where
  -- An entry of Hosts for the name of the question.
  unfoldable pub host_step : Msg → Text → Option Outcome
  host_step req name = elim (lookup name r.hosts) [
    | none ↦ none
    | some ip_text ↦ elim (lib.parse_ip ip_text) [
      | none ↦ some (outcome (failed (bad_host_ip ip_text name)) (codes "Hosts"))
      | some ip ↦ elim (host_override_response lib req req.question ip) [
        | none ↦ none
        | some m ↦ some (outcome (answered m) (codes "Hosts"))
      ]
    ]
  ]

  module _ (net : Net) (req : Msg) where
    -- A rule's target, cn or overseas; any other is passed over.
    unfoldable pub target_step : Text → Text → Option Text → Option Outcome
    target_step cn_label overseas_label none = none
    target_step cn_label overseas_label (some rule) =
        if text_eq (to_lower rule) (codes "cn")
        then some (outcome (resolve_cn r net req) cn_label)
        else if text_eq (to_lower rule) (codes "overseas")
        then some (outcome (resolve_overseas r net req) overseas_label)
        else none

    unfoldable pub rule_step : List Text → Option Outcome
    unfolding target_step
    rule_step names =
        target_step (codes "Rule(CN)") (codes "Rule(Overseas)") (lookup_rule r.rules names)

    unfoldable pub regex_step : List Text → Option Outcome
    unfolding target_step
    regex_step names =
        target_step (codes "Rule(Regex/CN)") (codes "Rule(Regex/Overseas)")
          (lookup_regex_rule r.regex_rules names)

    unfoldable pub geo_step : Text → Option Outcome
    geo_step site =
        if is_empty site
        then none
        else if text_eq (to_lower site) (codes "cn")
        then some (outcome (resolve_cn r net req) (codes "GeoSite(CN)"))
        else some (outcome (resolve_overseas r net req) (codes "GeoSite(Overseas)"))

    -- Behind the loop of two turns.
    unfoldable pub dual_end : Option Reply → Option Reply → Outcome
    dual_end none cn = outcome (failed dual_incomplete) (codes "GeoIP(Error)")
    dual_end (some o) none = outcome (failed dual_incomplete) (codes "GeoIP(Error)")
    dual_end (some o) (some c) = judge r.geo o c

    unfoldable pub dual_loop : ℕ → (ℕ → DualEvent) → Option Reply → Option Reply → Outcome
    unfolding dual_end
    dual_loop zero events overseas cn = dual_end overseas cn
    dual_loop (suc n) events overseas cn = elim (events 0) [
      | from_overseas ↦ dual_loop n (λ i. events (suc i)) (some (resolve_overseas r net req)) cn
      | from_cn ↦ dual_loop n (λ i. events (suc i)) overseas (some (resolve_cn r net req))
      | dual_done c ↦ outcome (failed (context_error c)) (codes "GeoIP(Timeout)")
    ]

    unfoldable pub route_internal : Question → Outcome
    route_internal q =
        let name = normal_name q.name in
        let names = match_names lib.split_domain_name name in
        or_next (host_step req name) (
          or_next (rule_step names) (
            or_next (regex_step names)
              (or_next (geo_step (lookup_geo_site r.geo names)) (dual_loop 2 net.dual none none))))
