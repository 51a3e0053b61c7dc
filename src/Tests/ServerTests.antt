-- ===== src/Tests/ServerTests.antt =====
-- internal/server and internal/client/doq.go at concrete requests.
use dns_automatic_traffic_sp.Base.{
  ◌≡◌, ◌≢◌, ◌↔◌, refl, true, ◌⊎◌, none, some, is_some, [], ◌∷◌, arith,
}
use dns_automatic_traffic_sp.Base.Text.{
  Text, codes, trim_space, trim_suffix, trim_prefix, has_prefix, join, text_eq, contains,
}
use dns_automatic_traffic_sp.Client.{answered}
use dns_automatic_traffic_sp.Client.Exchange.{Upstream, resolve_target, resolve_doq}
use dns_automatic_traffic_sp.Bootstrap.{Lookup, found}
use dns_automatic_traffic_sp.Base.Net.{split_host_port, join_host_port, cut_last}
use dns_automatic_traffic_sp.Client.Ecs.{ensure_ecs}
use dns_automatic_traffic_sp.Client.Race.{race_resolve, race_loop, on_event, on_reply, finish}
use dns_automatic_traffic_sp.Base.Maps.{lookup}
use dns_automatic_traffic_sp.Router.{
  Router, lookup_rule, lookup_regex_rule, lookup_geo_site, resolve_cn, resolve_overseas,
  is_service_binding_question,
}
use dns_automatic_traffic_sp.Router.Judge.{judge}
use dns_automatic_traffic_sp.Router.Names.{match_names, strip_labels}
use dns_automatic_traffic_sp.Router.Internal.{
  route_internal, host_step, rule_step, target_step, regex_step, geo_step, dual_loop,
}
use dns_automatic_traffic_sp.Router.Route.{
  Call, route, clear_ttls, settle, settle_parts, log_outcome,
}
use dns_automatic_traffic_sp.Server.{
  Backend, crashed, serve_dns, ask_router, reply_or_failure, host_of,
}
use dns_automatic_traffic_sp.Server.Doh.{
  HttpLib, HttpRequest, get_method, DohHandler, http_ok, http_crashed, forwarded_client,
  is_trusted_proxy, first_part, serve_http,
}
use dns_automatic_traffic_sp.Server.Doq.{stream_crashed, handle_quic_stream, frame, set_id}
use dns_automatic_traffic_sp.Server.Answers.{handlers-crashed}
use dns_automatic_traffic_sp.Server.Http.{IsAnswered, serve_http_iff, forwarded_client-trusted}
use dns_automatic_traffic_sp.Server.Stream.{server_answer, net_to, resolve_doq-server}
use dns_automatic_traffic_sp.Tests.Library.{empty_msg, test_lib, print_ip}
use dns_automatic_traffic_sp.Tests.Data.{test_router, net_of, test_logger}
use dns_automatic_traffic_sp.Tests.Wires.{root_query, test_wire}

-- The root's name has a rule.
abbrev root_router : Router
root_router = record test_router { rules = ([], codes "cn") ∷ [] }

abbrev test_backend : Backend
test_backend = record {
  lib = test_lib;
  wire = test_wire;
  format_ip = print_ip;
  router = root_router;
  logger = some test_logger;
}

abbrev test_call : Call
test_call = record {
  now = 5;
  duration = 2;
  client_ip = [];
  net = net_of empty_msg empty_msg;
  check_net = net_of empty_msg empty_msg;
}

abbrev test_http : HttpLib
test_http = record { decode_base64 = λ t. some t; media_type = λ t. some t }

-- The parameter is the packed query.
abbrev get_request : HttpRequest
get_request = record {
  path = codes "/dns-query";
  method = get_method;
  dns_param = 1 ∷ [];
  content_type = [];
  body = none;
  forwarded_for = codes "9.9.9.9, 10.0.0.1";
  remote_addr = codes "10.0.0.2:443";
}

abbrev remote : Text
remote = codes "10.0.0.2:853"

handlers-crashed_example :
    ((serve_dns test_backend test_call remote true root_query).0 ≢ crashed)
    × ((serve_http test_http
          (record { backend = test_backend; path = codes "/dns-query" })
          test_call
          get_request).0
        ≢ http_crashed)
    × ((handle_quic_stream test_backend test_call remote (frame (1 ∷ []))).0 ≢ stream_crashed)
handlers-crashed_example =
    handlers-crashed test_backend test_call remote (codes "/dns-query") true root_query test_http
      get_request (frame (1 ∷ []))

abbrev test_handler : DohHandler
test_handler = record { backend = test_backend; path = codes "/dns-query" }

serve_http_iff_example :
    ((serve_http test_http test_handler test_call get_request).0 ≡ http_ok (2 ∷ []))
    ↔ IsAnswered test_http test_handler test_call get_request (2 ∷ [])
serve_http_iff_example = serve_http_iff test_http test_handler test_call get_request (2 ∷ [])

forwarded_client-trusted_example :
    (forwarded_client test_lib (10 ∷ 0 ∷ 0 ∷ 2 ∷ []) (codes "9.9.9.9, 10.0.0.1")
      ≡ (10 ∷ 0 ∷ 0 ∷ 2 ∷ []))
    ⊎ ((is_trusted_proxy test_lib (10 ∷ 0 ∷ 0 ∷ 2 ∷ []) ≡ true)
        × (forwarded_client test_lib (10 ∷ 0 ∷ 0 ∷ 2 ∷ []) (codes "9.9.9.9, 10.0.0.1")
            ≡ trim_space (first_part (codes "9.9.9.9, 10.0.0.1")))
        × (is_some (
              test_lib.parse_ip
                (forwarded_client test_lib (10 ∷ 0 ∷ 0 ∷ 2 ∷ []) (codes "9.9.9.9, 10.0.0.1")))
            ≡ true))
forwarded_client-trusted_example =
    forwarded_client-trusted test_lib (10 ∷ 0 ∷ 0 ∷ 2 ∷ []) (codes "9.9.9.9, 10.0.0.1")

root_answer : server_answer test_backend test_call remote root_query ≡ some empty_msg
unfolding ask_router reply_or_failure route route_internal host_step lookup rule_step lookup_rule
    match_names trim_suffix strip_labels has_prefix join text_eq resolve_cn race_resolve race_loop
    on_event on_reply finish is_service_binding_question clear_ttls settle settle_parts target_step
    log_outcome host_of regex_step lookup_regex_rule geo_step lookup_geo_site dual_loop judge
    resolve_overseas
root_answer = refl

abbrev test_upstream : Upstream
test_upstream = record { address = codes "quic://dns.cn"; ecs_ip = [] }

abbrev test_lookup : Text → Lookup
test_lookup host = found (codes "1.1.1.1")

-- The client's query has the identifier 3 again in its answer.
resolve_doq-server_example :
    resolve_doq test_lib test_wire test_upstream
      (net_to test_backend test_call remote test_lookup)
      (set_id root_query 3)
    ≡ answered (set_id empty_msg 3)
unfolding ensure_ecs split_host_port join_host_port trim_prefix has_prefix contains resolve_target
    cut_last
resolve_doq-server_example =
    resolve_doq-server test_backend test_call remote test_lib test_upstream test_lookup
      (set_id root_query 3) empty_msg (record { name = []; qtype = 1; qclass = 1 }) [] (1 ∷ [])
      (2 ∷ []) (codes "1.1.1.1") (codes "853") (codes "dns.cn") refl refl refl refl (omega arith)
      (omega arith) root_answer refl refl (omega arith)
