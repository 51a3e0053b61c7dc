-- ===== src/Tests/Wires.antt =====
-- A small instance of the packing of messages: one query and one answer have bytes.
use dns_automatic_traffic_sp.Base.{
  ℕ, zero, suc, true, false, Bool, Option, none, some, List, [], ◌∷◌,
}
use dns_automatic_traffic_sp.Base.Text.{Text}
use dns_automatic_traffic_sp.Dns.{Rr, Question, Msg}
use dns_automatic_traffic_sp.Server.{Wire}
use dns_automatic_traffic_sp.Tests.Library.{empty_msg}

abbrev pub root_query : Msg
root_query = record empty_msg { question = record { name = []; qtype = 1; qclass = 1 } ∷ [] }

abbrev pack_question : Text → ℕ → ℕ → Option (List ℕ)
pack_question (c ∷ name) qtype qclass = none
pack_question [] zero qclass = none
pack_question [] (suc (suc n)) qclass = none
pack_question [] (suc zero) zero = none
pack_question [] (suc zero) (suc (suc n)) = none
pack_question [] (suc zero) (suc zero) = some (1 ∷ [])

abbrev pack_fields :
    ℕ → ℕ → Bool → Bool → Bool → List Rr → List Rr → List Rr → List Question → Option (List ℕ)
pack_fields (suc id) rcode tc rd cd answer ns extra qs = none
pack_fields zero (suc rcode) tc rd cd answer ns extra qs = none
pack_fields zero zero true rd cd answer ns extra qs = none
pack_fields zero zero false false cd answer ns extra qs = none
pack_fields zero zero false true true answer ns extra qs = none
pack_fields zero zero false true false (a ∷ answer) ns extra qs = none
pack_fields zero zero false true false [] (n ∷ ns) extra qs = none
pack_fields zero zero false true false [] [] (e ∷ extra) qs = none
pack_fields zero zero false true false [] [] [] (q ∷ p ∷ qs) = none
pack_fields zero zero false true false [] [] [] [] = some (2 ∷ [])
pack_fields zero zero false true false [] [] [] (q ∷ []) = pack_question q.name q.qtype q.qclass

abbrev unpack : List ℕ → Option Msg
unpack (suc zero ∷ []) = some root_query
unpack (suc (suc zero) ∷ []) = some empty_msg
unpack _ = none

abbrev pub test_wire : Wire
test_wire = record {
  pack = λ m.
      pack_fields m.id m.rcode m.truncated m.recursion_desired m.checking_disabled m.answer m.ns
        m.extra m.question;
  unpack = unpack;
  truncate = λ m n. record m { truncated = true };
}
