-- ===== src/Client/Exchange.antt =====
-- Resolve of the clients that open a connection for each query: internal/client/udp.go and doq.go,
-- each with a record of what it gets from the network: the address that the bootstrap resolver finds
-- and the answer to what is sent to an address. Timeouts are among the errors of that record.
use dns_automatic_traffic_sp.Base.{ℕ, Option, none, some, List, inl, inr, refl}
use dns_automatic_traffic_sp.Base.Text.{Text, codes, trim_prefix}
use dns_automatic_traffic_sp.Base.Net.{split_host_port, join_host_port}
use dns_automatic_traffic_sp.Dns.{Msg, DnsLib}
use dns_automatic_traffic_sp.Client.{
  Error, Reply, answered, failed, client_error, wrapped, IsDefinite,
}
use dns_automatic_traffic_sp.Bootstrap.{Lookup, found, not_found}
use dns_automatic_traffic_sp.Client.Ecs.{ensure_ecs}
use dns_automatic_traffic_sp.Server.{Wire}
use dns_automatic_traffic_sp.Server.Doq.{frame, read_length, read_full, set_id}

-- config.UpstreamServer, without the choice of a protocol
pub record Upstream : Type 0 where
  pub address : Text
  pub ecs_ip : Text

-- The address and port to send to, and the name of the host, with a port by default.
pub data Target : Type 0 where
  target : Text → Text → Text → Target
  no_target : Error → Target

abbrev pub split_or_default : Text → Text → Option (Text × Text)
split_or_default raw port = elim (split_host_port raw) [
  | some hp ↦ some hp
  | none ↦ split_host_port (join_host_port raw port)
]

abbrev pub on_lookup : (Error → Error) → Text → Text → Lookup → Target
on_lookup wrap host port (found ip) = target ip port host
on_lookup wrap host port (not_found e) = no_target (wrap e)

-- The address that all clients take apart in the same way.
unfoldable pub resolve_target : (Text → Lookup) → (Error → Error) → Text → Text → Target
resolve_target lookup_ip wrap raw port = elim (split_or_default raw port) [
  | none ↦ no_target (client_error (codes "invalid address"))
  | some (host, p) ↦ on_lookup wrap host p (lookup_ip host)
]

-- ExchangeContext of miekg/dns: `(resp, err)`
pub record UdpNet : Type 0 where
  pub lookup_ip : Text → Lookup
  pub exchange : Text → Msg → Reply

abbrev pub bootstrap_failed : Error → Error
bootstrap_failed e = wrapped (codes "bootstrap failed") e

abbrev pub udp_answer : Option Msg → Option Error → Reply
udp_answer resp (some e) = failed (wrapped (codes "UDP query failed") e)
udp_answer none none = failed (client_error (codes "UDP query without response"))
udp_answer (some m) none = answered m

module _ (lib : DnsLib) (up : Upstream) where
  abbrev pub udp_exchange : UdpNet → Msg → Target → Reply
  udp_exchange net req (no_target e) = failed e
  udp_exchange net req (target ip port host) =
      let r = net.exchange (join_host_port ip port) (ensure_ecs lib req up.ecs_ip) in
      udp_answer r.resp r.err

  -- UDPClient.Resolve
  unfoldable pub resolve_udp : UdpNet → Msg → Reply
  unfolding resolve_target
  resolve_udp net req =
      udp_exchange net req (resolve_target net.lookup_ip bootstrap_failed up.address (codes "53"))

-- What the stream gives back before it ends, or the error of dialling, opening or writing.
pub data QuicEnd : Type 0 where
  stream_bytes : List ℕ → QuicEnd
  stream_failed : Error → QuicEnd

-- A QUIC connection to an address, for a TLS server name.
pub record QuicNet : Type 0 where
  pub lookup_ip : Text → Lookup
  pub exchange : Text → Text → List ℕ → QuicEnd

abbrev pub same_error : Error → Error
same_error e = e

abbrev pub quic_failed : Text → Reply
quic_failed t = failed (client_error t)

module _ (lib : DnsLib) (wire : Wire) (up : Upstream) where
  abbrev pub doq_unpacked : ℕ → Option Msg → Reply
  doq_unpacked id none = quic_failed (codes "unpack")
  doq_unpacked id (some m) = answered (set_id m id)

  abbrev pub doq_body : ℕ → Option (List ℕ) → Reply
  doq_body id none = quic_failed (codes "read body")
  doq_body id (some body) = doq_unpacked id (wire.unpack body)

  abbrev pub doq_length : ℕ → Option (ℕ × List ℕ) → Reply
  doq_length id none = quic_failed (codes "read length")
  doq_length id (some (n, rest)) = doq_body id (read_full n rest)

  abbrev pub doq_stream : ℕ → QuicEnd → Reply
  doq_stream id (stream_failed e) = failed (wrapped (codes "QUIC") e)
  doq_stream id (stream_bytes stream) = doq_length id (read_length stream)

  abbrev pub doq_send : QuicNet → ℕ → List ℕ → Target → Reply
  doq_send net id packed (no_target e) = failed e
  doq_send net id packed (target ip port host) =
      doq_stream id (net.exchange (join_host_port ip port) host (frame packed))

  abbrev pub doq_packed : QuicNet → ℕ → Option (List ℕ) → Reply
  doq_packed net id none = quic_failed (codes "pack")
  doq_packed net id (some packed) = doq_send net id packed (
      resolve_target net.lookup_ip same_error (trim_prefix up.address (codes "quic://"))
        (codes "853"))

  -- The copy of the message that goes out, with the identifier 0.
  abbrev pub wire_query : Msg → Msg
  wire_query req = set_id (ensure_ecs lib req up.ecs_ip) 0

  -- DoQClient.Resolve
  unfoldable pub resolve_doq : QuicNet → Msg → Reply
  unfolding resolve_target frame
  resolve_doq net req =
      doq_packed net (ensure_ecs lib req up.ecs_ip).id (wire.pack (wire_query req))

udp_answer-IsDefinite : (resp : Option Msg) (err : Option Error) → IsDefinite (udp_answer resp err)
udp_answer-IsDefinite resp (some e) = inr (_, refl, refl)
udp_answer-IsDefinite none none = inr (_, refl, refl)
udp_answer-IsDefinite (some m) none = inl (m, refl, refl)

pub resolve_udp-IsDefinite :
    (lib : DnsLib) (up : Upstream) (net : UdpNet) (req : Msg)
    → IsDefinite (resolve_udp lib up net req)
unfolding resolve_udp
resolve_udp-IsDefinite lib up net req =
    by_target (resolve_target net.lookup_ip bootstrap_failed up.address (codes "53"))
  where
    by_target : (t : Target) → IsDefinite (udp_exchange lib up net req t)
    by_target (no_target e) = inr (e, refl, refl)
    by_target (target ip port host) =
        let r = net.exchange (join_host_port ip port) (ensure_ecs lib req up.ecs_ip) in
        udp_answer-IsDefinite r.resp r.err
