-- ===== src/Router.antt =====
-- internal/router: the router's data, the geo database and the lookups that choose an upstream
-- group. `Router.Names` has the candidate names, `Router.Internal` routeInternal and
-- `Router.Route` the public entry point. The geo database is a third-party lookup: a nil pointer is
-- `none`. Compiled regular expressions are functions from a text to a truth value.
pub mod Names
pub mod Judge
pub mod Internal
pub mod Assigned
pub mod Route
pub mod Contract
pub mod Negative
use dns_automatic_traffic_sp.Base.{
  ℕ, Bool, true, false, Option, none, some, List, [], ◌∷◌, ◌==◌, ◌||◌, if◌then◌else◌, any,
}
use dns_automatic_traffic_sp.Base.Text.{
  Text, codes, text_eq, to_lower, to_upper, has_prefix, trim_prefix, is_empty,
}
use dns_automatic_traffic_sp.Base.Maps.{Map, lookup}
use dns_automatic_traffic_sp.Dns.{Ip, Msg, Question, type_https, type_svcb}
use dns_automatic_traffic_sp.Client.{Cause, Reply}
use dns_automatic_traffic_sp.Client.Race.{Event, race_resolve}

pub record RegexRule : Type 0 where
  pub pattern : Text → Bool
  pub target : Text

pub record GeoDataManager : Type 0 where
  pub geoip : Option (Ip → List Text)
  pub geosite : Option (Text → List Text)

-- The clients of a group are known by their number: what they answer is in `Net`.
pub record Router : Type 0 where
  pub hosts : Map Text
  pub rules : Map Text
  pub regex_rules : List RegexRule
  pub geo : Option GeoDataManager
  pub cn_clients : ℕ
  pub overseas_clients : ℕ

-- What the two-turn loop over both groups sees.
pub data DualEvent : Type 0 where
  from_overseas from_cn : DualEvent
  dual_done : Cause → DualEvent

-- What the network does during one call of routeInternal.
pub record Net : Type 0 where
  pub cn : Msg → ℕ → Event
  pub overseas : Msg → ℕ → Event
  pub dual : ℕ → DualEvent

-- `(resp, upstream, err)`
pub record Outcome : Type 0 where
  pub reply : Reply
  pub upstream : Text

-- The loop of NewRouter over the rules: those that compile, with `regexp:` taken off.
unfoldable pub regex_rules_of : (Text → Option (Text → Bool)) → Map Text → List RegexRule
regex_rules_of compile [] = []
regex_rules_of compile ((domain, target) ∷ rules) =
    let rest = regex_rules_of compile rules in
    if has_prefix domain (codes "regexp:")
    then elim (compile (trim_prefix domain (codes "regexp:"))) [
      | none ↦ rest
      | some re ↦ record { pattern = re; target = target } ∷ rest
    ]
    else rest

-- IsCNIP
abbrev pub is_cn_code : Text → Bool
is_cn_code code = text_eq (to_upper code) (codes "CN")

unfoldable pub is_cn_ip : Option GeoDataManager → Ip → Bool
is_cn_ip none ip = false
is_cn_ip (some g) ip = elim g.geoip [
  | none ↦ false
  | some lookup_code ↦ any is_cn_code (lookup_code ip)
]

-- LookupGeoSite; the empty text stands for no answer.
abbrev pub is_cn_site : Text → Bool
is_cn_site code = text_eq (to_lower code) (codes "cn")

unfoldable pub lookup_geo_site_name : Option GeoDataManager → Text → Text
lookup_geo_site_name none domain = []
lookup_geo_site_name (some g) domain = elim g.geosite [
  | none ↦ []
  | some lookup_codes ↦ if any is_cn_site (lookup_codes domain) then codes "cn" else []
]

-- lookupRule
unfoldable pub lookup_rule : Map Text → List Text → Option Text
lookup_rule rules [] = none
lookup_rule rules (name ∷ names) = elim (lookup name rules) [
  | some rule ↦ some rule
  | none ↦ lookup_rule rules names
]

-- lookupRegexRule: for each name the rules in order.
unfoldable pub first_match : List RegexRule → Text → Option Text
first_match [] name = none
first_match (rule ∷ rules) name =
    if rule.pattern name then some rule.target else first_match rules name

unfoldable pub lookup_regex_rule : List RegexRule → List Text → Option Text
unfolding first_match
lookup_regex_rule rules [] = none
lookup_regex_rule rules (name ∷ names) = elim (first_match rules name) [
  | some t ↦ some t
  | none ↦ lookup_regex_rule rules names
]

-- lookupGeoSite
unfoldable pub lookup_geo_site : Option GeoDataManager → List Text → Text
lookup_geo_site geo [] = []
lookup_geo_site geo (name ∷ names) =
    let site = lookup_geo_site_name geo name in
    let rest = lookup_geo_site geo names in if is_empty site then rest else site

unfoldable pub resolve_cn : Router → Net → Msg → Reply
resolve_cn r net req = race_resolve r.cn_clients (net.cn req)

unfoldable pub resolve_overseas : Router → Net → Msg → Reply
resolve_overseas r net req = race_resolve r.overseas_clients (net.overseas req)

-- isServiceBindingQuestion, on the first question
unfoldable pub is_service_binding_question : List Question → Bool
is_service_binding_question [] = false
is_service_binding_question (q ∷ rest) = q.qtype == type_https || q.qtype == type_svcb
