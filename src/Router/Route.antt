-- ===== src/Router/Route.antt =====
-- Route of internal/router/router.go: the check for service-binding questions, the log entry, and
-- the cleared lifetimes of a negative answer. Writing a lifetime through the response's pointer is
-- a new response here; the log entry is made before it, as in the source.
use dns_automatic_traffic_sp.Base.{
  ℕ, zero, suc, Bool, false, ◌&&◌, ◌||◌, Option, none, some, List, [], ◌∷◌, ◌++◌, map, ◌==◌,
  if◌then◌else◌, length, select,
}
use dns_automatic_traffic_sp.Base.Text.{Text, codes, is_empty, decimal}
use dns_automatic_traffic_sp.Dns.{
  Ip, Rr, Question, Msg, type_a, type_opt, rcode_success, rcode_name_error, DnsLib,
}
use dns_automatic_traffic_sp.Client.{
  Error, Reply, failed, answered, no_question, no_response, valid,
}
use dns_automatic_traffic_sp.Client.Ecs.{extract_ecs}
use dns_automatic_traffic_sp.QueryLog.{AnswerRecord, LogEntry, QueryLogger, is_enabled, add_log}
use dns_automatic_traffic_sp.Router.{Router, Net, Outcome, is_service_binding_question}
use dns_automatic_traffic_sp.Router.Names.{match_names}
use dns_automatic_traffic_sp.Router.Judge.{outcome}
use dns_automatic_traffic_sp.Router.Internal.{route_internal}

abbrev pub is_blank : ℕ → Bool
is_blank c = c == 32 || c == 9

-- `strings.TrimLeft(s, " \t")`
unfoldable pub trim_blanks : Text → Text
trim_blanks [] = []
trim_blanks (c ∷ s) = if is_blank c then trim_blanks s else c ∷ s

-- What stands behind the first blank, if there is one.
unfoldable pub behind_blank : Text → Option Text
behind_blank [] = none
behind_blank (c ∷ s) = if is_blank c then some s else behind_blank s

-- The loop of rrData over the leading fields still to take off.
unfoldable pub drop_fields : ℕ → Text → Option Text
unfolding trim_blanks behind_blank
drop_fields zero s = some s
drop_fields (suc n) s = elim (behind_blank s) [
  | none ↦ none
  | some t ↦ drop_fields n (trim_blanks t)
]

-- rrData, on what RR.String prints
unfoldable pub rr_data : Text → Text
unfolding drop_fields
rr_data s = elim (drop_fields 4 s) [ none ↦ s | some t ↦ if is_empty t then s else t ]

module _ (lib : DnsLib) where
  -- newExistenceCheckRequest
  unfoldable pub new_existence_check_request : Msg → Text → Msg
  new_existence_check_request req name =
      let m = lib.set_question (lib.fqdn name) type_a in
      let check = record m {
        id = req.id;
        recursion_desired = req.recursion_desired;
        checking_disabled = req.checking_disabled;
      } in
      elim (lib.is_edns0 req) [
        | none ↦ check
        | some opt ↦ lib.set_edns0 check opt.udp_size opt.do_bit
      ]

abbrev pub is_opt : Rr → Bool
is_opt rr = rr.rrtype == type_opt

-- synthesizeNoDataResponse
unfoldable pub synthesize_no_data_response : Msg → Msg → Msg
synthesize_no_data_response req resp = record resp {
  rcode = rcode_success;
  answer = [];
  ns = [];
  extra = select is_opt resp.extra;
  question = req.question;
}

abbrev pub last_name : Text → List Text → Text
last_name name [] = name
last_name name (n ∷ names) = last_name n names

-- The response that a reply offers to the callers: nil, or any response without an error.
abbrev pub has_success : Reply → Bool
has_success r = elim (valid r) [ none ↦ false | some m ↦ m.rcode == rcode_success ]

module _ (lib : DnsLib) (r : Router) (check_net : Net) where
  -- The second query of normalizeServiceBindingNegativeResponse, for the name without its service
  -- labels. Its question is the one that SetQuestion makes.
  unfoldable pub origin_exists : Msg → Text → Bool
  origin_exists req origin =
      let check = new_existence_check_request lib req origin in
      elim check.question [
        | [] ↦ false
        | q ∷ rest ↦ has_success (route_internal lib r check_net check q).reply
      ]

  unfoldable pub has_origin : Msg → List Text → Bool
  has_origin req [] = false
  has_origin req (name ∷ []) = false
  has_origin req (name ∷ next ∷ names) = origin_exists req (last_name next names)

  -- normalizeServiceBindingNegativeResponse, for a response that is not nil
  unfoldable pub normalize_service_binding : Msg → Question → Msg → Text → Msg × Text
  unfolding has_origin
  normalize_service_binding req q resp upstream =
      if resp.rcode == rcode_name_error
        && (is_service_binding_question req.question
            && has_origin req (match_names lib.split_domain_name q.name))
      then (synthesize_no_data_response req resp, upstream ++ codes "/Compat-NODATA")
      else (resp, upstream)

  -- The part of Route between the query and the log: never neither a response nor an error.
  unfoldable pub settle_parts : Msg → Question → Outcome → Option Msg → Option Error → Outcome
  unfolding normalize_service_binding
  settle_parts req q o resp (some e) = o
  settle_parts req q o none none = outcome (failed no_response) o.upstream
  settle_parts req q o (some m) none =
      let (m', upstream) = normalize_service_binding req q m o.upstream in
      outcome (answered m') upstream

  unfoldable pub settle : Msg → Question → Outcome → Outcome
  unfolding settle_parts
  settle req q o = settle_parts req q o o.reply.resp o.reply.err

-- The lifetimes of a record in a negative answer; in the additional section an OPT record is left.
abbrev pub clear_ttl : Rr → Rr
clear_ttl rr = record rr { ttl = 0 }

abbrev pub clear_extra_ttl : Rr → Rr
clear_extra_ttl rr = if is_opt rr then rr else clear_ttl rr

abbrev pub cleared : Msg → Msg
cleared m =
    if m.rcode == rcode_name_error
    then record m {
      answer = map clear_ttl m.answer;
      ns = map clear_ttl m.ns;
      extra = map clear_extra_ttl m.extra;
    }
    else m

unfoldable pub clear_ttls : Option Msg → Option Msg
clear_ttls none = none
clear_ttls (some m) = some (cleared m)

-- ` (+%d more)` behind the first answer
unfoldable pub answer_text : DnsLib → List Rr → Text
unfolding rr_data
answer_text lib [] = []
answer_text lib (rr ∷ []) = rr_data (lib.rr_string rr)
answer_text lib (rr ∷ next ∷ more) =
    rr_data (lib.rr_string rr) ++ codes " (+" ++ decimal (length (next ∷ more)) ++ codes " more)"

unfoldable pub answer_record : DnsLib → Rr → AnswerRecord
unfolding rr_data
answer_record lib rr = record {
  name = rr.name;
  rtype = lib.type_string rr.rrtype;
  rdata = rr_data (lib.rr_string rr);
  ttl = rr.ttl;
}

-- The entry that Route logs. AddLog sets its number and its time.
unfoldable pub log_entry : DnsLib → (Ip → Text) → Msg → Question → Text → ℕ → Outcome → LogEntry
unfolding answer_text answer_record
log_entry lib format_ip req q client_ip duration o =
    let m = valid o.reply in
    record {
      id = 0;
      time = 0;
      client_ip = client_ip;
      downstream_ecs = extract_ecs lib format_ip req;
      domain = q.name;
      qtype = lib.type_string q.qtype;
      upstream = o.upstream;
      answer = elim m [ none ↦ [] | some resp ↦ answer_text lib resp.answer ];
      answer_records = elim m [ none ↦ [] | some resp ↦ map (answer_record lib) resp.answer ];
      duration_ms = duration;
      status = elim m [ none ↦ codes "ERROR" | some resp ↦ lib.rcode_string resp.rcode ];
    }

-- The time of the call in nanoseconds, how long the query took in milliseconds, the client's
-- address, and what the network does in the first and in the second query.
pub record Call : Type 0 where
  pub now : ℕ
  pub duration : ℕ
  pub client_ip : Text
  pub net : Net
  pub check_net : Net

unfoldable pub log_outcome :
    DnsLib → (Ip → Text) → Option QueryLogger → Call → Msg → Question → Outcome → Option QueryLogger
unfolding log_entry
log_outcome lib format_ip none call req q o = none
log_outcome lib format_ip (some l) call req q o =
    if is_enabled (some l)
    then some (add_log l (log_entry lib format_ip req q call.client_ip call.duration o) call.now)
    else some l

unfoldable pub route :
    DnsLib → (Ip → Text) → Router → Option QueryLogger → Call → Msg → Reply × Option QueryLogger
unfolding settle clear_ttls log_outcome
route lib format_ip r logger call req = elim req.question [
  | [] ↦ (failed no_question, logger)
  | q ∷ rest ↦
      let o = settle lib r call.check_net req q (route_internal lib r call.net req q) in
      (
        record { resp = clear_ttls o.reply.resp; err = o.reply.err },
        log_outcome lib format_ip logger call req q o,
      )
]
