-- ===== src/Tests/Library.antt =====
-- A small instance of the DNS functions that the program calls. An address prints and parses as its
-- bytes.
use dns_automatic_traffic_sp.Base.{
  ℕ, ◌≡◌, refl, true, false, Option, none, some, List, [], ◌∷◌, ◌++◌, arith, if◌then◌else◌, ◌==◌,
}
use dns_automatic_traffic_sp.Base.Text.{Text, codes, is_empty, decimal}
use dns_automatic_traffic_sp.Dns.{
  Ip, Opt, Body, a_record, aaaa_record, opt_record, other_record, Rr, Msg, DnsLib, IsDnsLib,
  type_opt, class_inet, rcode_success,
}

abbrev pub empty_msg : Msg
empty_msg = record {
  id = 0;
  flags = 0;
  rcode = rcode_success;
  truncated = false;
  recursion_desired = true;
  checking_disabled = false;
  question = [];
  answer = [];
  ns = [];
  extra = [];
}

abbrev pub or_opt : Body → Option Opt → Option Opt
or_opt (a_record ip) o = o
or_opt (aaaa_record ip) o = o
or_opt (opt_record opt) o = some opt
or_opt (other_record t) o = o

abbrev pub first_opt : List Rr → Option Opt
first_opt [] = none
first_opt (rr ∷ rrs) = or_opt rr.body (first_opt rrs)

abbrev pub write_opt_at : Body → Rr → List Rr → List Rr → Opt → List Rr
write_opt_at (a_record ip) rr rrs rest o = record rr { body = a_record ip } ∷ rest
write_opt_at (aaaa_record ip) rr rrs rest o = record rr { body = aaaa_record ip } ∷ rest
write_opt_at (opt_record opt) rr rrs rest o = record rr { body = opt_record o } ∷ rrs
write_opt_at (other_record t) rr rrs rest o = record rr { body = other_record t } ∷ rest

abbrev pub write_first_opt : List Rr → Opt → List Rr
write_first_opt [] o = []
write_first_opt (rr ∷ rrs) o = write_opt_at rr.body rr rrs (write_first_opt rrs o) o

first_opt-step :
    (b : Body) (rr : Rr) (rrs : List Rr) (o o' : Opt)
    → (first_opt rrs ≡ some o → first_opt (write_first_opt rrs o') ≡ some o')
    → or_opt b (first_opt rrs) ≡ some o
    → first_opt (write_opt_at b rr rrs (write_first_opt rrs o') o') ≡ some o'
first_opt-step (a_record ip) rr rrs o o' ih e = ih e
first_opt-step (aaaa_record ip) rr rrs o o' ih e = ih e
first_opt-step (opt_record opt) rr rrs o o' ih e = refl
first_opt-step (other_record t) rr rrs o o' ih e = ih e

first_opt-write_first_opt :
    (rrs : List Rr) (o o' : Opt)
    → first_opt rrs ≡ some o
    → first_opt (write_first_opt rrs o') ≡ some o'
first_opt-write_first_opt [] o o' e = ground arith
first_opt-write_first_opt (rr ∷ rrs) o o' e =
    first_opt-step rr.body rr rrs o o' (first_opt-write_first_opt rrs o o') e

-- Labels between dots; what stands behind a final dot is left out.
abbrev pub prepend : ℕ → List Text → List Text
prepend c [] = (c ∷ []) ∷ []
prepend c (l ∷ ls) = (c ∷ l) ∷ ls

abbrev pub labels : Text → List Text
labels [] = []
labels (c ∷ s) = let rest = labels s in if c == 46 then [] ∷ rest else prepend c rest

abbrev pub print_ip : Ip → Text
print_ip ip = ip

abbrev pub test_lib : DnsLib
test_lib = record {
  split_domain_name = labels;
  fqdn = λ name. name ++ codes ".";
  set_question = λ name qtype. record empty_msg {
    question = record { name = name; qtype = qtype; qclass = class_inet } ∷ [];
  };
  set_reply = λ m. record empty_msg { id = m.id; flags = 1; question = m.question };
  set_rcode =
      λ m code. record empty_msg { id = m.id; flags = 1; question = m.question; rcode = code };
  is_edns0 = λ m. first_opt m.extra;
  set_edns0 = λ m size d. record m {
    extra =
        record {
          name = codes ".";
          rrtype = type_opt;
          class = size;
          ttl = 0;
          body = opt_record (record { udp_size = size; do_bit = d; options = [] });
        }
        ∷ m.extra;
  };
  write_opt = λ m o. record m { extra = write_first_opt m.extra o };
  rr_string = λ rr. rr.name ++ codes "\t60\tIN\tA\tx";
  type_string = decimal;
  rcode_string = decimal;
  parse_ip = λ t. if is_empty t then none else some t;
}

pub test_lib-IsDnsLib : IsDnsLib test_lib
test_lib-IsDnsLib = record {
  reply_answer = λ m. refl;
  reply_rcode = λ m. refl;
  edns0_written = λ m o o'. first_opt-write_first_opt m.extra o o';
  edns0_set = λ m size d. refl;
}
