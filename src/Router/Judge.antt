-- ===== src/Router/Judge.antt =====
-- The last part of routeInternal: which of the two groups' answers is returned, once both are in.
use dns_automatic_traffic_sp.Base.{
  ◌≡◌, refl, ap, Bool, false, not, ◌&&◌, Option, none, some, List, [], ◌∷◌, arith, if◌then◌else◌,
  inl, inr,
}
use dns_automatic_traffic_sp.Base.Text.{Text, codes, is_empty}
use dns_automatic_traffic_sp.Dns.{
  Ip, Body, a_record, aaaa_record, opt_record, other_record, Rr, Msg,
}
use dns_automatic_traffic_sp.Client.{
  Error, Reply, answered, failed, valid, success_of, IsDefinite, all_queries_failed,
  both_queries_failed, dual_nothing,
}
use dns_automatic_traffic_sp.Router.{GeoDataManager, Outcome, is_cn_ip}

-- The address of a record, if it is an A or AAAA record.
abbrev pub address_of : Body → Option Ip
address_of (a_record ip) = some ip
address_of (aaaa_record ip) = some ip
address_of (opt_record o) = none
address_of (other_record t) = none

-- `resolvedIP`: the address of the first such record; nil is `none` and the empty address.
unfoldable pub resolved_ip : List Rr → Option Ip
resolved_ip [] = none
resolved_ip (rr ∷ rrs) = elim (address_of rr.body) [ some ip ↦ some ip | none ↦ resolved_ip rrs ]

abbrev pub is_cn_address : Option GeoDataManager → Option Ip → Bool
is_cn_address geo none = false
is_cn_address geo (some ip) = not (is_empty ip) && is_cn_ip geo ip

abbrev pub outcome : Reply → Text → Outcome
outcome r label = record { reply = r; upstream = label }

-- Both groups returned an error or nothing.
unfoldable pub judge_errors : Option Error → Option Error → Outcome
judge_errors (some e) none = outcome (failed (all_queries_failed e)) (codes "GeoIP(Error)")
judge_errors (some e) (some f) = outcome (failed (both_queries_failed e f)) (codes "GeoIP(Error)")
judge_errors none (some f) = outcome (failed f) (codes "GeoIP(Error)")
judge_errors none none = outcome (failed dual_nothing) (codes "GeoIP(Error)")

-- Neither group succeeded: the overseas response before the other.
unfoldable pub judge_failures : Option Msg → Option Msg → Outcome → Outcome
judge_failures (some o) c errors = outcome (answered o) (codes "GeoIP(Overseas)")
judge_failures none (some c) errors = outcome (answered c) (codes "GeoIP(CN)")
judge_failures none none errors = errors

-- The overseas answer is a success `o`.
unfoldable pub judge_success : Option GeoDataManager → Msg → Option Msg → Outcome
unfolding resolved_ip
judge_success geo o c =
    if is_cn_address geo (resolved_ip o.answer)
    then elim c [
      | some m ↦ outcome (answered m) (codes "GeoIP(CN)")
      | none ↦ outcome (answered o) (codes "GeoIP(CN/Fallback-Overseas)")
    ]
    else outcome (answered o) (codes "GeoIP(Overseas)")

-- The cascade over what succeeded and what is valid in the two results.
unfoldable pub judge_parts :
    Option GeoDataManager → Option Msg → Option Msg → Option Msg → Option Msg → Outcome → Outcome
unfolding judge_failures judge_success
judge_parts geo (some o) c valid_o valid_c errors = judge_success geo o c
judge_parts geo none (some c) valid_o valid_c errors =
    outcome (answered c) (codes "GeoIP(Fallback/CN)")
judge_parts geo none none valid_o valid_c errors = judge_failures valid_o valid_c errors

-- `overseas` and `cn` are the results that are in.
unfoldable pub judge : Option GeoDataManager → Reply → Reply → Outcome
unfolding judge_errors judge_parts
judge geo overseas cn =
    judge_parts geo (success_of overseas) (success_of cn) (valid overseas) (valid cn)
      (judge_errors overseas.err cn.err)

-- The answer that is preferred of two successes, and the only one of one.
abbrev pub preferred : Option GeoDataManager → Option Msg → Option Msg → Option Msg
preferred geo none c = c
preferred geo (some o) none = some o
preferred geo (some o) (some c) = some (if is_cn_address geo (resolved_ip o.answer) then c else o)

abbrev pub or_msg : Option Msg → Option Msg → Option Msg
or_msg none c = c
or_msg (some o) c = some o

abbrev pub IsFailed : Reply → Type 0
IsFailed r = (e : Error) × (r.resp ≡ none) × (r.err ≡ some e)

-- What is returned for a preferred success and a fallback.
abbrev pub Chosen : Option Msg → Option Msg → Reply → Type 0
Chosen (some m) fallback r = r ≡ answered m
Chosen none (some m) r = r ≡ answered m
Chosen none none r = IsFailed r

judge_errors-IsFailed : (e f : Option Error) → IsFailed (judge_errors e f).reply
unfolding judge_errors
judge_errors-IsFailed (some e) none = (all_queries_failed e, refl, refl)
judge_errors-IsFailed (some e) (some f) = (both_queries_failed e f, refl, refl)
judge_errors-IsFailed none (some f) = (f, refl, refl)
judge_errors-IsFailed none none = (dual_nothing, refl, refl)

judge_success-Chosen :
    (geo : Option GeoDataManager) (o : Msg) (c : Option Msg) (fallback : Option Msg)
    → Chosen (preferred geo (some o) c) fallback (judge_success geo o c).reply
unfolding judge_success
judge_success-Chosen geo o none fallback = ground arith
judge_success-Chosen geo o (some c) fallback = ground arith

judge_parts-Chosen :
    (geo : Option GeoDataManager) (o c vo vc : Option Msg) (errors : Outcome)
    → IsFailed errors.reply
    → Chosen (preferred geo o c) (or_msg vo vc) (judge_parts geo o c vo vc errors).reply
unfolding judge_parts judge_failures
judge_parts-Chosen geo (some o) c vo vc errors h = judge_success-Chosen geo o c (or_msg vo vc)
judge_parts-Chosen geo none (some c) vo vc errors h = refl
judge_parts-Chosen geo none none (some o) vc errors h = refl
judge_parts-Chosen geo none none none (some c) errors h = refl
judge_parts-Chosen geo none none none none errors h = h

-- Once both groups have answered: of two NOERROR answers the domestic one is returned exactly if
-- the first address in the overseas answer is a CN address, and the overseas one otherwise; of one
-- NOERROR answer that one; without any the overseas response with another code, or else the
-- domestic one; and an error and no response if neither group gave a response without an error.
pub judge_lem :
    (geo : Option GeoDataManager) (overseas cn : Reply)
    → Chosen
        (preferred geo (success_of overseas) (success_of cn))
        (or_msg (valid overseas) (valid cn))
        (judge geo overseas cn).reply
unfolding judge
judge_lem geo overseas cn =
    judge_parts-Chosen geo (success_of overseas) (success_of cn) (valid overseas) (valid cn)
      (judge_errors overseas.err cn.err) (judge_errors-IsFailed overseas.err cn.err)

Chosen-IsDefinite : (best fallback : Option Msg) (r : Reply) → Chosen best fallback r → IsDefinite r
Chosen-IsDefinite (some m) fallback r c =
    inl (m, ap (λ (x : Reply). x.resp) c, ap (λ (x : Reply). x.err) c)
Chosen-IsDefinite none (some m) r c =
    inl (m, ap (λ (x : Reply). x.resp) c, ap (λ (x : Reply). x.err) c)
Chosen-IsDefinite none none r c = inr c

pub judge-IsDefinite :
    (geo : Option GeoDataManager) (overseas cn : Reply) → IsDefinite (judge geo overseas cn).reply
judge-IsDefinite geo overseas cn = Chosen-IsDefinite _ _ _ (judge_lem geo overseas cn)
