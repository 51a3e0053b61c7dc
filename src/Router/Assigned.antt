-- ===== src/Router/Assigned.antt =====
-- The group of upstreams that a name is assigned to, and the reply of routeInternal.
use dns_automatic_traffic_sp.Base.{
  subst, ℕ, ◌≡◌, refl, true, false, Option, none, some, List, arith, if◌then◌else◌, inc64,
}
use dns_automatic_traffic_sp.Base.Text.{
  Text, codes, text_eq, to_lower, is_empty, contains, has_prefix,
}
use dns_automatic_traffic_sp.Dns.{Question, Msg, DnsLib}
use dns_automatic_traffic_sp.Client.{Reply}
use dns_automatic_traffic_sp.QueryLog.{LogEntry, Stats, update_totals}
use dns_automatic_traffic_sp.Router.{
  Router, Net, Outcome, lookup_rule, lookup_regex_rule, lookup_geo_site, resolve_cn,
  resolve_overseas,
}
use dns_automatic_traffic_sp.Router.Names.{normal_name, match_names}
use dns_automatic_traffic_sp.Router.Judge.{outcome}
use dns_automatic_traffic_sp.Router.Internal.{
  or_next, host_step, target_step, rule_step, regex_step, geo_step, route_internal,
}

pub data Group : Type 0 where
  cn overseas : Group

-- The group that a rule's target names.
abbrev pub target_of : Option Text → Option Group
target_of none = none
target_of (some rule) =
    if text_eq (to_lower rule) (codes "cn")
    then some cn
    else if text_eq (to_lower rule) (codes "overseas")
    then some overseas
    else none

-- The group of a GeoSite answer.
abbrev pub site_target : Text → Option Group
site_target site =
    if is_empty site
    then none
    else if text_eq (to_lower site) (codes "cn")
    then some cn
    else some overseas

abbrev pub first_of {ℓ} : {A : Type ℓ} → Option A → Option A → Option A
first_of none b = b
first_of (some a) b = some a

-- The first of the three sources that names a group decides: rules, regular expressions, GeoSite.
abbrev pub assigned : Router → List Text → Option Group
assigned r names = first_of (target_of (lookup_rule r.rules names)) (
    first_of (target_of (lookup_regex_rule r.regex_rules names))
      (site_target (lookup_geo_site r.geo names)))

abbrev pub ask : Group → Router → Net → Msg → Reply
ask cn = resolve_cn
ask overseas = resolve_overseas

-- The counter of a group in the query log.
abbrev pub counter : Group → Stats → ℕ
counter cn s = s.total_cn
counter overseas s = s.total_overseas

abbrev pub other : Group → Group
other cn = overseas
other overseas = cn

-- The label counts for the group, and not for the other one.
abbrev pub Counted : Group → Text → Type 0
Counted g label =
    (e : LogEntry) (s : Stats)
    → e.upstream ≡ label
    → (counter g (update_totals e s) ≡ inc64 (counter g s))
      × (counter (other g) (update_totals e s) ≡ counter (other g) s)

Counted-cn : (label : Text) → contains label (codes "CN") ≡ true → Counted cn label
unfolding update_totals
Counted-cn label h e s p = ground arith

Counted-overseas :
    (label : Text)
    → contains label (codes "CN") ≡ false
    → contains label (codes "Overseas") ≡ true
    → Counted overseas label
unfolding update_totals
Counted-overseas label h k e s p = ground arith

-- An outcome that comes from one group only.
record IsFrom (g : Group) (r : Router) (net : Net) (req : Msg) (o : Outcome) : Type 0 where
  reply : o.reply ≡ ask g r net req
  label : Counted g o.upstream

module _ (lib : DnsLib) (r : Router) (net : Net) (req : Msg) where
  target_step-IsFrom :
      (cn_label overseas_label : Text) (rule : Option Text) (g : Group)
      → Counted cn cn_label
      → Counted overseas overseas_label
      → target_of rule ≡ some g
      → (o : Outcome) × (target_step lib r net req cn_label overseas_label rule ≡ some o)
        × IsFrom g r net req o
  unfolding target_step
  target_step-IsFrom cl ol none g hc ho h = cc
  target_step-IsFrom cl ol (some rule) cn hc ho h =
      (outcome (resolve_cn r net req) cl, ground arith, record { reply = refl; label = hc })
  target_step-IsFrom cl ol (some rule) overseas hc ho h =
      (outcome (resolve_overseas r net req) ol, ground arith, record { reply = refl; label = ho })

  target_step-none :
      (cn_label overseas_label : Text) (rule : Option Text)
      → target_of rule ≡ none
      → target_step lib r net req cn_label overseas_label rule ≡ none
  unfolding target_step
  target_step-none cl ol none h = refl
  target_step-none cl ol (some rule) h = ground arith

  geo_step-IsFrom :
      (site : Text) (g : Group)
      → site_target site ≡ some g
      → (o : Outcome) × (geo_step lib r net req site ≡ some o) × IsFrom g r net req o
  unfolding geo_step contains has_prefix
  geo_step-IsFrom site cn h = (
    outcome (resolve_cn r net req) (codes "GeoSite(CN)"),
    ground arith,
    record { reply = refl; label = Counted-cn (codes "GeoSite(CN)") refl },
  )
  geo_step-IsFrom site overseas h = (
    outcome (resolve_overseas r net req) (codes "GeoSite(Overseas)"),
    ground arith,
    record { reply = refl; label = Counted-overseas (codes "GeoSite(Overseas)") refl refl },
  )

  geo_step-none : (site : Text) → site_target site ≡ none → geo_step lib r net req site ≡ none
  unfolding geo_step
  geo_step-none site h = ground arith

  -- One step: it decides exactly if its source names a group.
  by_step :
      (t rest_t : Option Group) (step : Option Outcome) (rest : Outcome) (g : Group)
      → ((g' : Group) → t ≡ some g' → (o : Outcome) × (step ≡ some o) × IsFrom g' r net req o)
      → (t ≡ none → step ≡ none)
      → (rest_t ≡ some g → IsFrom g r net req rest)
      → first_of t rest_t ≡ some g
      → IsFrom g r net req (or_next step rest)
  by_step none rest_t step rest g hit miss next h = rw (miss refl) (next h)
  by_step (some g') rest_t step rest g hit miss next h =
      let (o, e, from) = hit g' refl in
      let same : g' ≡ g = cc in rw e (subst (λ k. IsFrom k r net req o) same from)

  steps-IsFrom :
      (names : List Text) (rest : Outcome) (g : Group)
      → assigned r names ≡ some g
      → IsFrom g r net req (
          or_next (rule_step lib r net req names) (
            or_next
              (regex_step lib r net req names)
              (or_next (geo_step lib r net req (lookup_geo_site r.geo names)) rest)))
  unfolding rule_step regex_step contains has_prefix
  steps-IsFrom names rest g h =
      by_step (target_of rule) _ _ _ g
        (λ g' e.
          target_step-IsFrom _ _ rule g' (Counted-cn _ refl) (Counted-overseas _ refl refl) e)
        (target_step-none _ _ rule)
        (by_step (target_of regex) _ _ _ g
          (λ g' e.
            target_step-IsFrom _ _ regex g' (Counted-cn _ refl) (Counted-overseas _ refl refl) e)
          (target_step-none _ _ regex) (by_site))
        h
    where
      rule : Option Text
      rule = lookup_rule r.rules names

      regex : Option Text
      regex = lookup_regex_rule r.regex_rules names

      by_site :
          site_target (lookup_geo_site r.geo names) ≡ some g
          → IsFrom g r net req (or_next (geo_step lib r net req (lookup_geo_site r.geo names)) rest)
      by_site e =
          let (o, step, from) = geo_step-IsFrom (lookup_geo_site r.geo names) g e in rw step from

-- A name that Hosts does not answer and that a rule, a regular expression or GeoSite (the first of
-- these that names a group) assigns to a group: the reply is that of the race among the clients of
-- this group, whatever the network does, and the query log counts the answer for this group and
-- not for the other one.
pub assigned-route_internal :
    (lib : DnsLib) (r : Router) (net : Net) (req : Msg) (q : Question) (g : Group)
    → host_step lib r req (normal_name q.name) ≡ none
    → assigned r (match_names lib.split_domain_name (normal_name q.name)) ≡ some g
    → ((route_internal lib r net req q).reply ≡ ask g r net req)
      × Counted g (route_internal lib r net req q).upstream
unfolding route_internal
assigned-route_internal lib r net req q g no_host h = rw no_host (
  (steps-IsFrom lib r net req (match_names lib.split_domain_name (normal_name q.name)) _ g h).reply,
  (steps-IsFrom lib r net req (match_names lib.split_domain_name (normal_name q.name)) _ g h).label,
)
