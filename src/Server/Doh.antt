-- ===== src/Server/Doh.antt =====
-- ServeHTTP of internal/server/dohserver.go. A request has its fields as net/http has parsed them;
-- the decoding of base64 and of media types is net/http's and the standard library's, and a
-- parameter here.
use dns_automatic_traffic_sp.Base.{
  ℕ, zero, suc, ◌/◌, Bool, false, ◌&&◌, ◌||◌, not, Option, none, some, List, [], ◌∷◌, ◌==◌, ltb,
  if◌then◌else◌, length, is_some,
}
use dns_automatic_traffic_sp.Base.Text.{Text, codes, text_eq, to_lower, is_empty, cut, trim_space}
use dns_automatic_traffic_sp.Dns.{Ip, to4, Msg, DnsLib}
use dns_automatic_traffic_sp.QueryLog.{QueryLogger}
use dns_automatic_traffic_sp.Router.Route.{Call}
use dns_automatic_traffic_sp.Server.{
  max_dns_message_size, Backend, host_of, with_client, ask_router, reply_or_failure,
}

pub data Method : Type 0 where
  get_method post_method other_method : Method

-- `body` is what the client sends, `none` where reading it fails. `dns_param`, `forwarded_for` and
-- `content_type` are empty if the request has none.
pub record HttpRequest : Type 0 where
  pub path : Text
  pub method : Method
  pub dns_param : Text
  pub content_type : Text
  pub body : Option (List ℕ)
  pub forwarded_for : Text
  pub remote_addr : Text

pub record HttpLib : Type 0 where
  -- base64.RawURLEncoding.DecodeString, and the media type of mime.ParseMediaType
  pub decode_base64 : Text → Option (List ℕ)
  pub media_type : Text → Option Text

-- A status with an error text, the packed response with status 200, or a nil response that is read.
pub data HttpAnswer : Type 0 where
  http_error : ℕ → HttpAnswer
  http_ok : List ℕ → HttpAnswer
  http_crashed : HttpAnswer

pub record DohHandler : Type 0 where
  pub backend : Backend
  pub path : Text

abbrev pub byte_at : Ip → ℕ → ℕ
byte_at [] i = 0
byte_at (b ∷ ip) zero = b
byte_at (b ∷ ip) (suc i) = byte_at ip i

-- net.IP.IsLoopback, IsPrivate and IsLinkLocalUnicast, on the four bytes and on the sixteen.
abbrev pub is_local_v4 : Ip → Bool
is_local_v4 ip =
    byte_at ip 0 == 127
    || (byte_at ip 0 == 10
        || ((byte_at ip 0 == 172 && byte_at ip 1 / 16 == 1)
            || ((byte_at ip 0 == 192 && byte_at ip 1 == 168)
                || (byte_at ip 0 == 169 && byte_at ip 1 == 254))))

abbrev pub loopback_v6 : Ip
loopback_v6 = 0 ∷ 0 ∷ 0 ∷ 0 ∷ 0 ∷ 0 ∷ 0 ∷ 0 ∷ 0 ∷ 0 ∷ 0 ∷ 0 ∷ 0 ∷ 0 ∷ 0 ∷ 1 ∷ []

abbrev pub is_local_v6 : Ip → Bool
is_local_v6 ip =
    text_eq ip loopback_v6
    || (length ip == 16
        && (byte_at ip 0 / 2 == 126 || (byte_at ip 0 == 254 && byte_at ip 1 / 64 == 2)))

unfoldable pub is_local : Ip → Bool
unfolding to4
is_local ip = elim (to4 ip) [ some v4 ↦ is_local_v4 v4 | none ↦ is_local_v6 ip ]

-- isTrustedProxy
unfoldable pub is_trusted_proxy : DnsLib → Text → Bool
unfolding is_local
is_trusted_proxy lib host = elim (lib.parse_ip host) [ none ↦ false | some ip ↦ is_local ip ]

-- `strings.Split(s, ",")[0]`
abbrev pub first_part : Text → Text
first_part s = elim (cut b',' s) [ none ↦ s | some (u, v) ↦ u ]

-- The address that the query is logged under.
unfoldable pub forwarded_client : DnsLib → Text → Text → Text
unfolding is_trusted_proxy
forwarded_client lib host xff =
    let first = trim_space (first_part xff) in
    if is_trusted_proxy lib host && not (is_empty xff)
    then if is_some (lib.parse_ip first) then first else host
    else host

-- strings.EqualFold on ASCII
abbrev pub equal_fold : Text → Text → Bool
equal_fold s t = text_eq (to_lower s) (to_lower t)

abbrev pub media_type_of : HttpLib → Text → Text
media_type_of http content_type = elim (http.media_type content_type) [
  | none ↦ content_type
  | some mt ↦ mt
]

-- The bytes of the query, or the status of the error that the request is answered with.
pub data Decoded : Type 0 where
  rejected : ℕ → Decoded
  decoded : List ℕ → Decoded

abbrev pub or_bad_request : Option (List ℕ) → Decoded
or_bad_request none = rejected 400
or_bad_request (some bytes) = decoded bytes

-- http.MaxBytesReader fails behind its limit.
abbrev pub limited : Option (List ℕ) → Option (List ℕ)
limited none = none
limited (some bytes) = if ltb max_dns_message_size (length bytes) then none else some bytes

unfoldable pub dns_bytes : HttpLib → Method → HttpRequest → Decoded
dns_bytes http get_method r =
    if is_empty r.dns_param then rejected 400 else or_bad_request (http.decode_base64 r.dns_param)
dns_bytes http post_method r =
    if equal_fold (media_type_of http r.content_type) (codes "application/dns-message")
    then or_bad_request (limited r.body)
    else rejected 415
dns_bytes http other_method r = rejected 405

abbrev pub packed_answer : Option (List ℕ) → HttpAnswer
packed_answer none = http_error 500
packed_answer (some bytes) = http_ok bytes

module _ (http : HttpLib) (h : DohHandler) (call : Call) where
  open h.backend use {lib, wire, logger}

  abbrev pub pack_answer : Option Msg → HttpAnswer
  pack_answer none = http_crashed
  pack_answer (some m) = packed_answer (wire.pack m)

  -- Behind the check that the message has a question.
  unfoldable pub answer_query : HttpRequest → Msg → HttpAnswer × Option QueryLogger
  unfolding host_of forwarded_client ask_router reply_or_failure
  answer_query r req =
      let client_ip = forwarded_client lib (host_of r.remote_addr) r.forwarded_for in
      let (reply, logger') = ask_router h.backend (with_client call client_ip) req in
      (pack_answer (reply_or_failure lib req reply.resp reply.err), logger')

  abbrev pub on_unpacked : HttpRequest → Option Msg → HttpAnswer × Option QueryLogger
  on_unpacked r none = (http_error 400, logger)
  on_unpacked r (some req) = elim req.question [
    | [] ↦ (http_error 400, logger)
    | q ∷ rest ↦ answer_query r req
  ]

  abbrev pub on_decoded : HttpRequest → Decoded → HttpAnswer × Option QueryLogger
  on_decoded r (rejected status) = (http_error status, logger)
  on_decoded r (decoded bytes) = on_unpacked r (wire.unpack bytes)

  unfoldable pub serve_http : HttpRequest → HttpAnswer × Option QueryLogger
  unfolding dns_bytes answer_query
  serve_http r =
      if text_eq r.path h.path
      then on_decoded r (dns_bytes http r.method r)
      else (http_error 404, logger)
