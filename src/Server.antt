-- ===== src/Server.antt =====
-- internal/server: what the servers do with one query between reading and writing it. The handler
-- of UDP, TCP and DoT stands here, those of DoH and DoQ in the children. A listener, its TLS settings
-- and its shutdown are left out: bytes and messages come in and go out.
pub mod Doh
pub mod Doq
pub mod Answers
pub mod Http
pub mod Stream
use dns_automatic_traffic_sp.Base.{
  ℕ, ◌/◌, ◌%◌, Bool, true, false, ◌&&◌, ◌||◌, Option, none, some, List, [], ◌∷◌, ◌==◌, leb,
  if◌then◌else◌, length, get_elem?,
}
use dns_automatic_traffic_sp.Base.Text.{Text, text_eq}
use dns_automatic_traffic_sp.Base.Net.{split_host_port}
use dns_automatic_traffic_sp.Dns.{Ip, Opt, Msg, DnsLib, rcode_server_failure}
use dns_automatic_traffic_sp.Client.{Error, Reply}
use dns_automatic_traffic_sp.QueryLog.{QueryLogger}
use dns_automatic_traffic_sp.Router.{Router}
use dns_automatic_traffic_sp.Router.Route.{Call, route}

abbrev pub max_dns_message_size : ℕ
max_dns_message_size = 65535

-- dns.MinMsgSize
abbrev pub min_msg_size : ℕ
min_msg_size = 512

-- Msg.Pack, Msg.Unpack and Msg.Truncate of github.com/miekg/dns; an error is `none`.
pub record Wire : Type 0 where
  pub pack : Msg → Option (List ℕ)
  pub unpack : List ℕ → Option Msg
  pub truncate : Msg → ℕ → Msg

-- What is behind every handler: the router, its logger, and the libraries.
pub record Backend : Type 0 where
  pub lib : DnsLib
  pub wire : Wire
  pub format_ip : Ip → Text
  pub router : Router
  pub logger : Option QueryLogger

-- `clientIP, _, _ := net.SplitHostPort(addr)`
unfoldable pub host_of : Text → Text
host_of addr = elim (split_host_port addr) [ none ↦ [] | some (host, port) ↦ host ]

abbrev pub with_client : Call → Text → Call
with_client call client_ip = record call { client_ip = client_ip }

unfoldable pub ask_router : Backend → Call → Msg → Reply × Option QueryLogger
ask_router b call req = route b.lib b.format_ip b.router b.logger call req

abbrev pub opt_size : Option Opt → ℕ
opt_size none = min_msg_size
opt_size (some opt) = if leb min_msg_size opt.udp_size then opt.udp_size else min_msg_size

-- udpResponseSize
unfoldable pub udp_response_size : DnsLib → Msg → ℕ
udp_response_size lib req = opt_size (lib.is_edns0 req)

-- What a DNS client is sent. `refused` is dns.HandleFailed, and `crashed` a nil response that is
-- read.
pub data Written : Type 0 where
  refused : Written
  written : Msg → Written
  crashed : Written

abbrev pub on_route : Backend → Bool → Msg → Option Msg → Option Error → Written
on_route b is_udp req resp (some e) = refused
on_route b is_udp req none none = crashed
on_route b is_udp req (some m) none =
    written (if is_udp then b.wire.truncate m (udp_response_size b.lib req) else m)

-- ServeDNS, for a remote address and whether it is one of UDP.
unfoldable pub serve_dns : Backend → Call → Text → Bool → Msg → Written × Option QueryLogger
unfolding ask_router host_of udp_response_size
serve_dns b call remote is_udp req = elim req.question [
  | [] ↦ (refused, b.logger)
  | q ∷ rest ↦
      let (reply, logger) = ask_router b (with_client call (host_of remote)) req in
      (on_route b is_udp req reply.resp reply.err, logger)
]

-- What Route's answer is to DoH and DoQ: an error becomes SERVFAIL.
unfoldable pub reply_or_failure : DnsLib → Msg → Option Msg → Option Error → Option Msg
reply_or_failure lib req resp (some e) = some (lib.set_rcode req rcode_server_failure)
reply_or_failure lib req resp none = resp
