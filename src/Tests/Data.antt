-- ===== src/Tests/Data.antt =====
-- The messages, routers and networks of the examples.
use dns_automatic_traffic_sp.Base.{ℕ, zero, suc, true, false, Option, none, some, List, [], ◌∷◌}
use dns_automatic_traffic_sp.Base.Text.{Text, codes}
use dns_automatic_traffic_sp.Dns.{
  Ip, a_record, other_record, Rr, Question, Msg, class_inet, rcode_name_error, type_a, type_https,
}
use dns_automatic_traffic_sp.Client.{answered}
use dns_automatic_traffic_sp.Client.Race.{arrived}
use dns_automatic_traffic_sp.QueryLog.{QueryLogger, new_query_logger}
use dns_automatic_traffic_sp.Router.{GeoDataManager, Router, Net, DualEvent, from_overseas, from_cn}
use dns_automatic_traffic_sp.Router.Route.{Call}
use dns_automatic_traffic_sp.Tests.Library.{empty_msg}

abbrev pub service_question : Question
service_question = record { name = codes "_8443.a.cn."; qtype = type_https; qclass = class_inet }

abbrev pub service_query : Msg
service_query = record empty_msg { id = 7; question = service_question ∷ [] }

abbrev pub plain_question : Question
plain_question = record { name = codes "b.org."; qtype = type_a; qclass = class_inet }

abbrev pub plain_query : Msg
plain_query = record empty_msg { id = 9; question = plain_question ∷ [] }

abbrev pub soa : ℕ → Rr
soa ttl = record {
  name = codes "cn.";
  rrtype = 6;
  class = class_inet;
  ttl = ttl;
  body = other_record (codes "soa");
}

abbrev pub address_record : Ip → Rr
address_record ip = record {
  name = codes "b.org.";
  rrtype = type_a;
  class = class_inet;
  ttl = 300;
  body = a_record ip;
}

-- NXDOMAIN with an SOA record of some lifetime
abbrev pub denial : ℕ → Msg
denial ttl = record empty_msg { rcode = rcode_name_error; ns = soa ttl ∷ [] }

abbrev pub answer_with : Ip → Msg
answer_with ip = record empty_msg { answer = address_record ip ∷ [] }

abbrev pub domestic_ip : Ip
domestic_ip = 1 ∷ 2 ∷ 3 ∷ 4 ∷ []

abbrev pub foreign_ip : Ip
foreign_ip = 9 ∷ 9 ∷ 9 ∷ 9 ∷ []

-- The first byte tells the country.
abbrev pub country : Ip → List Text
country [] = []
country (zero ∷ ip) = []
country (suc zero ∷ ip) = codes "cn" ∷ []
country (suc (suc b) ∷ ip) = codes "us" ∷ []

abbrev pub test_geo : Option GeoDataManager
test_geo = some (record { geoip = some country; geosite = none })

abbrev pub test_router : Router
test_router = record {
  hosts = [];
  rules = (codes "a.cn", codes "cn") ∷ [];
  regex_rules = [];
  geo = test_geo;
  cn_clients = 1;
  overseas_clients = 1;
}

abbrev pub both : ℕ → DualEvent
both zero = from_overseas
both (suc i) = from_cn

-- Every client of a group sends the same message.
abbrev pub net_of : Msg → Msg → Net
net_of cn overseas = record {
  cn = λ req i. arrived (answered cn);
  overseas = λ req i. arrived (answered overseas);
  dual = both;
}

abbrev pub test_logger : QueryLogger
test_logger = new_query_logger true 2 1 [] false 5

-- The name of the service does not exist, and its origin does or does not.
abbrev pub denied_call : Msg → Call
denied_call check = record {
  now = 77;
  duration = 3;
  client_ip = codes "10.0.0.1";
  net = net_of (denial 300) (denial 300);
  check_net = net_of check check;
}
