-- ===== src/Tests/RouterTests.antt =====
-- The router on two queries: a service binding under a name with a rule, and a plain name that only
-- its addresses decide.
use dns_automatic_traffic_sp.Base.{inl, ◌≡◌, ◌≢◌, refl, none, some, [], ◌∷◌, All}
use dns_automatic_traffic_sp.Base.Text.{codes}
use dns_automatic_traffic_sp.Client.{IsDefinite, answered}
use dns_automatic_traffic_sp.Router.{is_service_binding_question, is_cn_ip, lookup_geo_site_name}
use dns_automatic_traffic_sp.Router.Names.{
  normal_name, match_names, Stripped, Distinct, match_names-Stripped,
}
use dns_automatic_traffic_sp.Router.Judge.{resolved_ip, judge, judge_lem}
use dns_automatic_traffic_sp.Router.Assigned.{
  Group, assigned, ask, Counted, assigned-route_internal,
}
use dns_automatic_traffic_sp.Router.Contract.{route-IsDefinite}
use dns_automatic_traffic_sp.Router.Negative.{
  IsUncachable, route-IsUncachable, route-binding, Exists,
}
use dns_automatic_traffic_sp.Tests.Library.{empty_msg, test_lib, print_ip, labels}
use dns_automatic_traffic_sp.Tests.Data
use dns_automatic_traffic_sp.Base.Maps.{lookup}
use dns_automatic_traffic_sp.Base.Text.{trim_suffix, has_prefix, join, text_eq}
use dns_automatic_traffic_sp.Client.Race.{race_resolve, race_loop, on_event, on_reply, finish}
use dns_automatic_traffic_sp.Router.{
  lookup_rule, resolve_cn, is_service_binding_question, lookup_regex_rule, lookup_geo_site,
}
use dns_automatic_traffic_sp.Router.Internal.{
  route_internal, host_step, rule_step, target_step, regex_step, geo_step,
}
use dns_automatic_traffic_sp.Router.Names.{match_names, strip_labels}
use dns_automatic_traffic_sp.Router.Route.{
  route, clear_ttls, has_origin, new_existence_check_request, normalize_service_binding,
  origin_exists, settle, settle_parts, synthesize_no_data_response, log_outcome,
}

route-IsDefinite_example :
    IsDefinite
      (route test_lib print_ip Data.test_router
        (some Data.test_logger)
        (Data.denied_call empty_msg)
        Data.service_query).0
route-IsDefinite_example =
    route-IsDefinite test_lib print_ip Data.test_router (some Data.test_logger)
      (Data.denied_call empty_msg) Data.service_query

denied_run :
    (route test_lib print_ip Data.test_router none
      (Data.denied_call (Data.denial 300))
      Data.service_query).0.resp
    ≡ some (Data.denial 0)
unfolding route route_internal host_step lookup rule_step lookup_rule match_names trim_suffix
    strip_labels has_prefix join text_eq resolve_cn race_resolve race_loop on_event on_reply finish
    is_service_binding_question clear_ttls has_origin new_existence_check_request
    normalize_service_binding origin_exists settle settle_parts synthesize_no_data_response
    target_step log_outcome regex_step lookup_regex_rule geo_step lookup_geo_site
denied_run = refl

route-IsUncachable_example : IsUncachable (Data.denial 0)
route-IsUncachable_example =
    route-IsUncachable test_lib print_ip Data.test_router none (Data.denied_call (Data.denial 300))
      Data.service_query (Data.denial 0) denied_run refl

names_run :
    match_names test_lib.split_domain_name Data.service_question.name
    ≡ codes "_8443.a.cn" ∷ codes "a.cn" ∷ []
unfolding match_names trim_suffix strip_labels has_prefix join text_eq
names_run = refl

origin-Exists :
    Exists test_lib Data.test_router
      (Data.denied_call empty_msg).check_net
      Data.service_query
      (codes "a.cn")
unfolding route route_internal host_step lookup rule_step lookup_rule match_names trim_suffix
    strip_labels has_prefix join text_eq resolve_cn race_resolve race_loop on_event on_reply finish
    is_service_binding_question clear_ttls has_origin new_existence_check_request
    normalize_service_binding origin_exists settle settle_parts synthesize_no_data_response
    target_step log_outcome regex_step lookup_regex_rule geo_step lookup_geo_site
origin-Exists = record {
  question = record { name = codes "a.cn."; qtype = 1; qclass = 1 };
  more = [];
  response = empty_msg;
  asked = refl;
  resp = refl;
  err = refl;
  good = refl;
}

no_data_run :
    (route test_lib print_ip Data.test_router none
      (Data.denied_call empty_msg)
      Data.service_query).0.resp
    ≡ some (record empty_msg { question = Data.service_question ∷ [] })
unfolding route route_internal host_step lookup rule_step lookup_rule match_names trim_suffix
    strip_labels has_prefix join text_eq resolve_cn race_resolve race_loop on_event on_reply finish
    is_service_binding_question clear_ttls has_origin new_existence_check_request
    normalize_service_binding origin_exists settle settle_parts synthesize_no_data_response
    target_step log_outcome regex_step lookup_regex_rule geo_step lookup_geo_site
no_data_run = refl

route-binding_example : empty_msg.rcode ≢ 3
route-binding_example =
    route-binding test_lib print_ip Data.test_router none (Data.denied_call empty_msg)
      Data.service_query Data.service_question []
      (record empty_msg { question = Data.service_question ∷ [] }) (codes "_8443.a.cn")
      (codes "a.cn") [] refl (inl refl) names_run origin-Exists no_data_run

-- A domestic address in the overseas answer: the domestic answer is the one returned.
domestic_run : resolved_ip (Data.answer_with Data.domestic_ip).answer ≡ some Data.domestic_ip
unfolding resolved_ip
domestic_run = refl

judge_lem_example :
    (judge Data.test_geo
      (answered (Data.answer_with Data.domestic_ip))
      (answered (Data.answer_with Data.foreign_ip))).reply
    ≡ answered (Data.answer_with Data.foreign_ip)
unfolding resolved_ip is_cn_ip text_eq
judge_lem_example =
    judge_lem Data.test_geo (answered (Data.answer_with Data.domestic_ip))
      (answered (Data.answer_with Data.foreign_ip))

no_host : host_step test_lib Data.test_router Data.service_query (codes "_8443.a.cn") ≡ none
unfolding host_step lookup
no_host = refl

by_rule : assigned Data.test_router (codes "_8443.a.cn" ∷ codes "a.cn" ∷ []) ≡ some Group.cn
unfolding lookup_rule lookup text_eq lookup_regex_rule lookup_geo_site lookup_geo_site_name
by_rule = refl

assigned-route_internal_example :
    ((route_internal test_lib Data.test_router
        (Data.denied_call empty_msg).net
        Data.service_query
        Data.service_question).reply
      ≡ ask Group.cn Data.test_router (Data.denied_call empty_msg).net Data.service_query)
    × Counted Group.cn
        (route_internal test_lib Data.test_router
          (Data.denied_call empty_msg).net
          Data.service_query
          Data.service_question).upstream
unfolding trim_suffix match_names strip_labels has_prefix join text_eq
assigned-route_internal_example =
    assigned-route_internal test_lib Data.test_router (Data.denied_call empty_msg).net
      Data.service_query Data.service_question Group.cn no_host by_rule

labels_run :
    join (codes ".") (labels (normal_name (codes "_8443._https.a.cn.")))
    ≡ normal_name (codes "_8443._https.a.cn.")
unfolding trim_suffix join
labels_run = refl

match_names-Stripped_example :
    All
      (Stripped (labels (normal_name (codes "_8443._https.a.cn."))))
      (match_names labels (codes "_8443._https.a.cn."))
    × Distinct (match_names labels (codes "_8443._https.a.cn."))
match_names-Stripped_example = match_names-Stripped labels (codes "_8443._https.a.cn.") labels_run
