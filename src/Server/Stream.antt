-- ===== src/Server/Stream.antt =====
-- A DoQ client and a DoQ server on the two ends of a stream.
use dns_automatic_traffic_sp.Base.{
  ℕ, ◌≤◌, ◌<◌, ◌≡◌, refl, ap, ◌∙◌, false, Option, some, List, [], ◌∷◌, arith, ◌==◌, ltb, length,
  take-length,
}
use dns_automatic_traffic_sp.Base.Text.{Text, codes, trim_prefix}
use dns_automatic_traffic_sp.Dns.{Question, Msg, DnsLib}
use dns_automatic_traffic_sp.Bootstrap.{Lookup}
use dns_automatic_traffic_sp.Client.{answered}
use dns_automatic_traffic_sp.Client.Ecs.{ensure_ecs}
use dns_automatic_traffic_sp.Client.Exchange.{
  Upstream, target, resolve_target, same_error, QuicNet, QuicEnd, stream_bytes, doq_packed,
  doq_send, doq_stream, doq_length, doq_body, doq_unpacked, wire_query, resolve_doq,
}
use dns_automatic_traffic_sp.Router.Route.{Call}
use dns_automatic_traffic_sp.Server.{
  Backend, ask_router, with_client, host_of, reply_or_failure, max_dns_message_size,
}
use dns_automatic_traffic_sp.Server.Doq.{
  StreamEnd, silent, sent, stream_crashed, frame, read_length, read_full, set_id, send_answer,
  answer_stream, handle_quic_stream, on_length,
}

read_length-frame :
    (bytes : List ℕ)
    → length bytes ≤ max_dns_message_size
    → read_length (frame bytes) ≡ some (length bytes, bytes)
unfolding frame
read_length-frame bytes h = ap (λ (n : ℕ). some (n, bytes)) (omega arith)

read_full-length : (bytes : List ℕ) → read_full (length bytes) bytes ≡ some bytes
read_full-length bytes = ground (arith, take-length bytes (length bytes))

-- The other end of a stream sees what was written, or nothing.
abbrev pub received : StreamEnd → QuicEnd
received silent = stream_bytes []
received (sent bytes) = stream_bytes bytes
received stream_crashed = stream_bytes []

-- A network in which every address leads to this server.
abbrev pub net_to : Backend → Call → Text → (Text → Lookup) → QuicNet
net_to b call remote lookup_ip = record {
  lookup_ip = lookup_ip;
  exchange = λ addr host bytes. received (handle_quic_stream b call remote bytes).0;
}

-- What the server's router answers a query with, as a message.
abbrev pub server_answer : Backend → Call → Text → Msg → Option Msg
server_answer b call remote query =
    let reply = (ask_router b (with_client call (host_of remote)) query).0 in
    reply_or_failure b.lib query reply.resp reply.err

module _ (b : Backend) (call : Call) (remote : Text) where
  handle_quic_stream-frame :
      (query : Msg) (q : Question) (rest : List Question) (packed : List ℕ)
      → query.question ≡ q ∷ rest
      → b.wire.unpack packed ≡ some query
      → 0 < length packed
      → length packed ≤ max_dns_message_size
      → (handle_quic_stream b call remote (frame packed)).0
        ≡ send_answer b call remote query (server_answer b call remote query)
  unfolding handle_quic_stream answer_stream
  handle_quic_stream-frame query q rest packed asked back some_bytes small =
      let solid : (length packed == 0) ≡ false = ground (arith, some_bytes) in
      ap (λ (l : Option (ℕ × List ℕ)). (on_length b call remote l).0)
        (read_length-frame packed small)
      ∙ rw (solid, read_full-length packed, back, asked) refl

  send_answer-small :
      (query m : Msg) (out : List ℕ)
      → b.wire.pack (set_id m 0) ≡ some out
      → length out ≤ max_dns_message_size
      → send_answer b call remote query (some m) ≡ sent (frame out)
  send_answer-small query m out p small =
      let fits : ltb max_dns_message_size (length out) ≡ false = ground arith in rw (p, fits) refl

  module _ (lib : DnsLib) (up : Upstream) (lookup_ip : Text → Lookup) where
    -- With a DoQ server behind every address: the client returns what the server's router answers its
    -- query with, an error as SERVFAIL, and puts back the identifier that the protocol does not
    -- carry. The query has a question, its upstream's address can be taken apart and resolved, the
    -- packed forms of the query and of the answer without its identifier unpack to the same messages,
    -- that of the query is not empty, and neither is longer than 65,535 bytes.
    pub resolve_doq-server :
        (req m : Msg) (q : Question) (rest : List Question) (packed out : List ℕ)
        (ip port host : Text)
        → (wire_query lib b.wire up req).question ≡ q ∷ rest
        → resolve_target lookup_ip same_error
            (trim_prefix up.address (codes "quic://"))
            (codes "853")
          ≡ target ip port host
        → b.wire.pack (wire_query lib b.wire up req) ≡ some packed
        → b.wire.unpack packed ≡ some (wire_query lib b.wire up req)
        → 0 < length packed
        → length packed ≤ max_dns_message_size
        → server_answer b call remote (wire_query lib b.wire up req) ≡ some m
        → b.wire.pack (set_id m 0) ≡ some out
        → b.wire.unpack out ≡ some (set_id m 0)
        → length out ≤ max_dns_message_size
        → resolve_doq lib b.wire up (net_to b call remote lookup_ip) req
          ≡ answered (set_id m (ensure_ecs lib req up.ecs_ip).id)
    unfolding resolve_doq
    resolve_doq-server req m q rest packed out ip port host asked dialled p back some_bytes small
          answer po backo smallo =
        let query = wire_query lib b.wire up req in
        let id = (ensure_ecs lib req up.ecs_ip).id in
        let net = net_to b call remote lookup_ip in
        let on_wire : (handle_quic_stream b call remote (frame packed)).0 ≡ sent (frame out) =
          handle_quic_stream-frame query q rest packed asked back some_bytes small
          ∙ ap (send_answer b call remote query) answer
          ∙ send_answer-small query m out po smallo in
        ap (doq_packed lib b.wire up net id) p
        ∙ ap (doq_send lib b.wire up net id packed) dialled
        ∙ ap (λ (e : StreamEnd). doq_stream lib b.wire up id (received e)) on_wire
        ∙ ap (doq_length lib b.wire up id) (read_length-frame out smallo)
        ∙ ap (doq_body lib b.wire up id) (read_full-length out)
        ∙ ap (doq_unpacked lib b.wire up id) backo
