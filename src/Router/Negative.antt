-- ===== src/Router/Negative.antt =====
-- The negative answers of Route: their lifetimes, and the names of service bindings.
use dns_automatic_traffic_sp.Base.{
  Bool, ◌≡◌, refl, ap, sym, ◌∙◌, true, false, Option, none, some, List, [], ◌∷◌, ◌++◌, map, arith,
  ◌≢◌, inl, inr, ◌⊎◌, ◌==◌, Bool-cases, All, subst, ==_iff,
}
use mathlib.Core.Option.{some-injective}
use dns_automatic_traffic_sp.Base.Text.{Text}
use dns_automatic_traffic_sp.Dns.{Ip, Rr, Question, Msg, DnsLib, rcode_name_error}
use dns_automatic_traffic_sp.Client.{Error, IsDefinite}
use dns_automatic_traffic_sp.QueryLog.{QueryLogger}
use dns_automatic_traffic_sp.Router.{Router, Net, Outcome, is_service_binding_question}
use dns_automatic_traffic_sp.Router.Names.{match_names}
use dns_automatic_traffic_sp.Router.Internal.{route_internal}
use dns_automatic_traffic_sp.Router.Contract.{route_internal-IsDefinite}
use dns_automatic_traffic_sp.Router.Route.{
  settle, settle_parts, normalize_service_binding, synthesize_no_data_response, has_origin,
  origin_exists, has_success, last_name, new_existence_check_request, is_opt, clear_ttl,
  clear_extra_ttl, cleared, clear_ttls, Call, route,
}

abbrev pub NoTtl : Rr → Type 0
NoTtl rr = rr.ttl ≡ 0

-- No record of the message but an OPT record may be cached.
abbrev pub IsUncachable : Msg → Type 0
IsUncachable m =
    All NoTtl m.answer × All NoTtl m.ns × All (λ (rr : Rr). (is_opt rr ≡ true) ⊎ NoTtl rr) m.extra

map-clear_ttl : (rrs : List Rr) → All NoTtl (map clear_ttl rrs)
map-clear_ttl [] = tt
map-clear_ttl (rr ∷ rrs) = (refl, map-clear_ttl rrs)

clear_extra_ttl_lem : (rr : Rr) → (is_opt (clear_extra_ttl rr) ≡ true) ⊎ NoTtl (clear_extra_ttl rr)
clear_extra_ttl_lem rr = elim (Bool-cases (is_opt rr)) [
  | inl opt ↦ inl (rw opt opt)
  | inr other ↦ inr (rw other refl)
]

map-clear_extra_ttl :
    (rrs : List Rr) → All (λ (rr : Rr). (is_opt rr ≡ true) ⊎ NoTtl rr) (map clear_extra_ttl rrs)
map-clear_extra_ttl [] = tt
map-clear_extra_ttl (rr ∷ rrs) = (clear_extra_ttl_lem rr, map-clear_extra_ttl rrs)

cleared-rcode : (m : Msg) → (cleared m).rcode ≡ m.rcode
cleared-rcode m = ground arith

cleared-IsUncachable : (m : Msg) → (m.rcode == rcode_name_error) ≡ true → IsUncachable (cleared m)
cleared-IsUncachable m gone =
    rw gone (map-clear_ttl m.answer, map-clear_ttl m.ns, map-clear_extra_ttl m.extra)

clear_ttls-some :
    (r : Option Msg) (m : Msg)
    → clear_ttls r ≡ some m
    → (m0 : Msg) × (r ≡ some m0) × (cleared m0 ≡ m)
unfolding clear_ttls
clear_ttls-some none m e = ground arith
clear_ttls-some (some m0) m e = (m0, refl, some-injective (cleared m0) m e)

route-clear_ttls :
    (lib : DnsLib) (format_ip : Ip → Text) (r : Router) (logger : Option QueryLogger) (call : Call)
    (req : Msg) (q : Question) (rest : List Question)
    → req.question ≡ q ∷ rest
    → (route lib format_ip r logger call req).0.resp
      ≡ clear_ttls
          (settle lib r call.check_net req q (route_internal lib r call.net req q)).reply.resp
unfolding route
route-clear_ttls lib format_ip r logger call req q rest asked = rw asked refl

route-no_question :
    (lib : DnsLib) (format_ip : Ip → Text) (r : Router) (logger : Option QueryLogger) (call : Call)
    (req : Msg)
    → req.question ≡ []
    → (route lib format_ip r logger call req).0.resp ≡ none
unfolding route
route-no_question lib format_ip r logger call req asked = rw asked refl

-- A response of Route with the code NXDOMAIN has the lifetime 0 in every record of the answer and
-- authority sections and in every record of the additional section that is not an OPT record.
pub route-IsUncachable :
    (lib : DnsLib) (format_ip : Ip → Text) (r : Router) (logger : Option QueryLogger) (call : Call)
    (req m : Msg)
    → (route lib format_ip r logger call req).0.resp ≡ some m
    → m.rcode ≡ rcode_name_error
    → IsUncachable m
route-IsUncachable lib format_ip r logger call req m got gone = by_question req.question refl
  where
    by_question : (qs : List Question) → req.question ≡ qs → IsUncachable m
    by_question [] asked =
        ground (arith, sym (route-no_question lib format_ip r logger call req asked) ∙ got)
    by_question (q ∷ rest) asked =
        let o = settle lib r call.check_net req q (route_internal lib r call.net req q) in
        let (m0, from, same) =
          clear_ttls-some o.reply.resp m
            (sym (route-clear_ttls lib format_ip r logger call req q rest asked) ∙ got) in
        subst IsUncachable same (
          cleared-IsUncachable m0 (
            (==_iff m0.rcode rcode_name_error).1
              (sym (cleared-rcode m0) ∙ ap (λ (x : Msg). x.rcode) same ∙ gone)))

-- A response that passes the check is not a denial of a service binding at a name whose origin
-- exists.
normalize_service_binding-rcode :
    (lib : DnsLib) (r : Router) (net : Net) (req : Msg) (q : Question) (m : Msg) (upstream : Text)
    → is_service_binding_question req.question ≡ true
    → has_origin lib r net req (match_names lib.split_domain_name q.name) ≡ true
    → ((normalize_service_binding lib r net req q m upstream).0.rcode == rcode_name_error) ≡ false
unfolding normalize_service_binding synthesize_no_data_response
normalize_service_binding-rcode lib r net req q m upstream binding exists =
    elim (Bool-cases (m.rcode == rcode_name_error)) [
      | inl gone ↦ rw (gone, binding, exists) refl
      | inr kept ↦ rw (kept, kept) refl
    ]

settle-rcode :
    (lib : DnsLib) (r : Router) (net : Net) (req : Msg) (q : Question) (o : Outcome) (m : Msg)
    → is_service_binding_question req.question ≡ true
    → has_origin lib r net req (match_names lib.split_domain_name q.name) ≡ true
    → IsDefinite o.reply
    → (settle lib r net req q o).reply.resp ≡ some m
    → (m.rcode == rcode_name_error) ≡ false
unfolding settle settle_parts
settle-rcode lib r net req q o m binding exists (inl (m1, e, f)) got =
    let n = normalize_service_binding lib r net req q m1 o.upstream in
    let same = some-injective n.0 m (rw (e, f) at got) in
    subst (λ (x : Msg). (x.rcode == rcode_name_error) ≡ false) same
      (normalize_service_binding-rcode lib r net req q m1 o.upstream binding exists)
settle-rcode lib r net req q o m binding exists (inr (x, e, f)) got =
    ground (arith, rw (e, f) at got)

route-has_origin :
    (lib : DnsLib) (format_ip : Ip → Text) (r : Router) (logger : Option QueryLogger) (call : Call)
    (req : Msg) (q : Question) (rest : List Question) (m : Msg)
    → req.question ≡ q ∷ rest
    → is_service_binding_question req.question ≡ true
    → has_origin lib r call.check_net req (match_names lib.split_domain_name q.name) ≡ true
    → (route lib format_ip r logger call req).0.resp ≡ some m
    → m.rcode ≢ rcode_name_error
route-has_origin lib format_ip r logger call req q rest m asked binding exists got gone =
    let o = settle lib r call.check_net req q (route_internal lib r call.net req q) in
    let (m0, from, same) =
      clear_ttls-some o.reply.resp m
        (sym (route-clear_ttls lib format_ip r logger call req q rest asked) ∙ got) in
    let kept =
      settle-rcode lib r call.check_net req q (route_internal lib r call.net req q) m0 binding
        exists (route_internal-IsDefinite lib r call.net req q) from in
    let is3 : m0.rcode ≡ rcode_name_error =
      sym (cleared-rcode m0) ∙ ap (λ (x : Msg). x.rcode) same ∙ gone in
    ground (arith, kept, is3)

last_name-append : (n o : Text) (names : List Text) → last_name n (names ++ o ∷ []) ≡ o
last_name-append n o [] = refl
last_name-append n o (m ∷ names) = last_name-append m o names

has_origin-last :
    (lib : DnsLib) (r : Router) (net : Net) (req : Msg) (name origin : Text) (between : List Text)
    → has_origin lib r net req (name ∷ (between ++ origin ∷ []))
      ≡ origin_exists lib r net req origin
unfolding has_origin
has_origin-last lib r net req name origin [] = refl
has_origin-last lib r net req name origin (n ∷ between) =
    ap (origin_exists lib r net req) (last_name-append n origin between)

-- That a name exists, to the program: a query for its A records gives a NOERROR response.
pub record Exists (lib : DnsLib) (r : Router) (net : Net) (req : Msg) (name : Text) : Type 0 where
  pub question : Question
  pub more : List Question
  pub response : Msg
  pub asked : (new_existence_check_request lib req name).question ≡ question ∷ more
  pub resp :
      (route_internal lib r net (new_existence_check_request lib req name) question).reply.resp
      ≡ some response
  pub err :
      (route_internal lib r net (new_existence_check_request lib req name) question).reply.err
      ≡ none
  pub good : response.rcode ≡ 0

has_success-true :
    (resp : Option Msg) (err : Option Error) (m : Msg)
    → err ≡ none
    → resp ≡ some m
    → m.rcode ≡ 0
    → has_success (record { resp = resp; err = err }) ≡ true
has_success-true resp err m e f good = rw (e, f, good) refl

origin_exists-true :
    (lib : DnsLib) (r : Router) (net : Net) (req : Msg) (name : Text)
    → Exists lib r net req name
    → origin_exists lib r net req name ≡ true
unfolding origin_exists
origin_exists-true lib r net req name x =
    let check = new_existence_check_request lib req name in
    ap
      (λ (qs : List Question). elim qs as (λ _. Bool) [
        | [] ↦ false
        | q ∷ rest ↦ has_success (route_internal lib r net check q).reply
      ])
      x.asked
    ∙ has_success-true _ _ x.response x.err x.resp x.good

binding-question :
    (q : Question) (rest : List Question)
    → (q.qtype ≡ 65) ⊎ (q.qtype ≡ 64)
    → is_service_binding_question (q ∷ rest) ≡ true
unfolding is_service_binding_question
binding-question q rest t = ground (arith, t)

-- Route never answers a question of the type HTTPS or SVCB with the code NXDOMAIN where the last name of
-- matchNames, which has all leading service labels taken off, is another than the asked one and a
-- second query, for the A records of that name, gives a NOERROR response.
pub route-binding :
    (lib : DnsLib) (format_ip : Ip → Text) (r : Router) (logger : Option QueryLogger) (call : Call)
    (req : Msg) (q : Question) (rest : List Question) (m : Msg) (name origin : Text)
    (between : List Text)
    → req.question ≡ q ∷ rest
    → (q.qtype ≡ 65) ⊎ (q.qtype ≡ 64)
    → match_names lib.split_domain_name q.name ≡ name ∷ (between ++ origin ∷ [])
    → Exists lib r call.check_net req origin
    → (route lib format_ip r logger call req).0.resp ≡ some m
    → m.rcode ≢ 3
route-binding lib format_ip r logger call req q rest m name origin between asked type names x got =
    route-has_origin lib format_ip r logger call req q rest m asked
      (ap is_service_binding_question asked ∙ binding-question q rest type)
      (ap (has_origin lib r call.check_net req) names
        ∙ has_origin-last lib r call.check_net req name origin between
        ∙ origin_exists-true lib r call.check_net req origin x)
      got
