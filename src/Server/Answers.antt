-- ===== src/Server/Answers.antt =====
-- What every handler sends for one query.
use dns_automatic_traffic_sp.Base.{
  ℕ, ◌≡◌, ◌≢◌, Bool, Option, none, some, List, [], ◌∷◌, arith, inl, inr, ◌==◌, Bool-cases,
}
use dns_automatic_traffic_sp.Base.Text.{Text, text_eq}
use dns_automatic_traffic_sp.Dns.{Question, Msg, DnsLib, rcode_server_failure}
use dns_automatic_traffic_sp.Client.{Reply, IsDefinite}
use dns_automatic_traffic_sp.QueryLog.{QueryLogger}
use dns_automatic_traffic_sp.Router.Route.{Call}
use dns_automatic_traffic_sp.Router.Contract.{route-IsDefinite}
use dns_automatic_traffic_sp.Server.{
  Backend, Written, refused, crashed, ask_router, with_client, host_of, on_route, serve_dns,
  reply_or_failure,
}
use dns_automatic_traffic_sp.Server.Doh.{
  HttpLib, HttpRequest, HttpAnswer, http_error, http_crashed, DohHandler, Decoded, rejected,
  decoded, packed_answer, pack_answer, forwarded_client, answer_query, on_unpacked, on_decoded,
  dns_bytes, serve_http,
}
use dns_automatic_traffic_sp.Server.Doq.{
  StreamEnd, silent, stream_crashed, send, fit, send_answer, set_id, answer_stream, on_message,
  on_bytes, on_length, read_length, read_full, handle_quic_stream,
}

ask_router-IsDefinite :
    (b : Backend) (call : Call) (req : Msg) → IsDefinite (ask_router b call req).0
unfolding ask_router
ask_router-IsDefinite b call req = route-IsDefinite b.lib b.format_ip b.router b.logger call req

-- A definite reply gives a response to every handler.
reply_or_failure-some :
    (lib : DnsLib) (req : Msg) (r : Reply)
    → IsDefinite r
    → (m : Msg) × (reply_or_failure lib req r.resp r.err ≡ some m)
unfolding reply_or_failure
reply_or_failure-some lib req r (inl (m, e, f)) = (m, rw (e, f))
reply_or_failure-some lib req r (inr (x, e, f)) =
    (lib.set_rcode req rcode_server_failure, rw (e, f))

on_route-crashed :
    (b : Backend) (is_udp : Bool) (req : Msg) (r : Reply)
    → IsDefinite r
    → on_route b is_udp req r.resp r.err ≢ crashed
on_route-crashed b is_udp req r (inl (m, e, f)) = rw (e, f) (λ h. cc h)
on_route-crashed b is_udp req r (inr (x, e, f)) = rw (e, f) (λ h. cc h)

serve_dns-crashed :
    (b : Backend) (call : Call) (remote : Text) (is_udp : Bool) (req : Msg)
    → (serve_dns b call remote is_udp req).0 ≢ crashed
unfolding serve_dns
serve_dns-crashed b call remote is_udp req = by_question req.question
  where
    by_question :
        (qs : List Question)
        → (elim qs as (λ _. Written × Option QueryLogger) [
          | [] ↦ (refused, b.logger)
          | q ∷ rest ↦
              let (reply, logger) = ask_router b (with_client call (host_of remote)) req in
              (on_route b is_udp req reply.resp reply.err, logger)
        ]).0
          ≢ crashed
    by_question [] = λ h. cc h
    by_question (q ∷ rest) =
        on_route-crashed b is_udp req (ask_router b (with_client call (host_of remote)) req).0
          (ask_router-IsDefinite b (with_client call (host_of remote)) req)

pack_answer-crashed :
    (http : HttpLib) (h : DohHandler) (call : Call) (o : Option Msg) (m : Msg)
    → o ≡ some m
    → pack_answer http h call o ≢ http_crashed
pack_answer-crashed http h call none m e = ground (arith, e)
pack_answer-crashed http h call (some m') m e = packed (h.backend.wire.pack m')
  where
    packed : (p : Option (List ℕ)) → packed_answer p ≢ http_crashed
    packed none = λ c. cc c
    packed (some bytes) = λ c. cc c

serve_http-crashed :
    (http : HttpLib) (h : DohHandler) (call : Call) (r : HttpRequest)
    → (serve_http http h call r).0 ≢ http_crashed
unfolding serve_http answer_query
serve_http-crashed http h call r = elim (Bool-cases (text_eq r.path h.path)) [
  | inr other ↦ rw other (λ c. cc c)
  | inl here ↦ rw here (by_decoded (dns_bytes http r.method r))
]
  where
    lib : DnsLib
    lib = h.backend.lib

    call' : Call
    call' = with_client call (forwarded_client lib (host_of r.remote_addr) r.forwarded_for)

    by_question :
        (req : Msg) (qs : List Question)
        → (elim qs as (λ _. HttpAnswer × Option QueryLogger) [
          | [] ↦ (http_error 400, h.backend.logger)
          | q ∷ rest ↦ answer_query http h call r req
        ]).0
          ≢ http_crashed
    by_question req [] = λ c. cc c
    by_question req (q ∷ rest) =
        let reply = (ask_router h.backend call' req).0 in
        let (m, e) =
          reply_or_failure-some lib req reply (ask_router-IsDefinite h.backend call' req) in
        pack_answer-crashed http h call (reply_or_failure lib req reply.resp reply.err) m e

    by_message : (o : Option Msg) → (on_unpacked http h call r o).0 ≢ http_crashed
    by_message none = λ c. cc c
    by_message (some req) = by_question req req.question

    by_decoded : (d : Decoded) → (on_decoded http h call r d).0 ≢ http_crashed
    by_decoded (rejected status) = λ c. cc c
    by_decoded (decoded bytes) = by_message (h.backend.wire.unpack bytes)

send_answer-crashed :
    (b : Backend) (call : Call) (remote : Text) (req : Msg) (o : Option Msg) (m : Msg)
    → o ≡ some m
    → send_answer b call remote req o ≢ stream_crashed
send_answer-crashed b call remote req none m e = ground (arith, e)
send_answer-crashed b call remote req (some m') m e =
    packed (fit b call remote req (b.wire.pack (set_id m' 0)))
  where
    packed : (p : Option (List ℕ)) → send p ≢ stream_crashed
    packed none = λ c. cc c
    packed (some bytes) = λ c. cc c

handle_quic_stream-crashed :
    (b : Backend) (call : Call) (remote : Text) (input : List ℕ)
    → (handle_quic_stream b call remote input).0 ≢ stream_crashed
unfolding handle_quic_stream answer_stream
handle_quic_stream-crashed b call remote input = by_length (read_length input)
  where
    call' : Call
    call' = with_client call (host_of remote)

    by_question :
        (req : Msg) (qs : List Question)
        → (elim qs as (λ _. StreamEnd × Option QueryLogger) [
          | [] ↦ (silent, b.logger)
          | q ∷ rest ↦ answer_stream b call remote req
        ]).0
          ≢ stream_crashed
    by_question req [] = λ c. cc c
    by_question req (q ∷ rest) =
        let reply = (ask_router b call' req).0 in
        let (m, e) = reply_or_failure-some b.lib req reply (ask_router-IsDefinite b call' req) in
        send_answer-crashed b call remote req (reply_or_failure b.lib req reply.resp reply.err) m e

    by_message : (o : Option Msg) → (on_message b call remote o).0 ≢ stream_crashed
    by_message none = λ c. cc c
    by_message (some req) = by_question req req.question

    by_bytes : (o : Option (List ℕ)) → (on_bytes b call remote o).0 ≢ stream_crashed
    by_bytes none = λ c. cc c
    by_bytes (some bytes) = by_message (b.wire.unpack bytes)

    by_length : (o : Option (ℕ × List ℕ)) → (on_length b call remote o).0 ≢ stream_crashed
    by_length none = λ c. cc c
    by_length (some (n, rest)) = elim (Bool-cases (n == 0)) [
      | inl empty ↦ rw empty (λ c. cc c)
      | inr full ↦ rw full (by_bytes (read_full n rest))
    ]

-- No handler reads a response that is nil: for every configuration, every behaviour of the network
-- and every input, the handler of UDP, TCP and DoT, that of DoH and that of DoQ all come to an end
-- that the source writes out.
pub handlers-crashed :
    (b : Backend) (call : Call) (remote path : Text) (is_udp : Bool) (req : Msg) (http : HttpLib)
    (r : HttpRequest) (input : List ℕ)
    → ((serve_dns b call remote is_udp req).0 ≢ crashed)
      × ((serve_http http (record { backend = b; path = path }) call r).0 ≢ http_crashed)
      × ((handle_quic_stream b call remote input).0 ≢ stream_crashed)
handlers-crashed b call remote path is_udp req http r input = (
  serve_dns-crashed b call remote is_udp req,
  serve_http-crashed http (record { backend = b; path = path }) call r,
  handle_quic_stream-crashed b call remote input,
)
