-- ===== src/Server/Http.antt =====
-- Which requests the DoH server answers with a message.
use dns_automatic_traffic_sp.Base.{
  Bool, false, subst, ◌≤◌, length, if◌then◌else◌, ltb, ℕ, ◌≡◌, ◌≢◌, ◌↔◌, refl, sym, ap, ◌∙◌, true,
  ◌&&◌, not, Option, none, some, List, [], ◌∷◌, arith, inl, inr, ◌⊎◌, Bool-cases, is_some,
}
use mathlib.Core.Option.{some-injective}
use dns_automatic_traffic_sp.Base.Text.{
  Text, codes, to_lower, text_eq_iff, text_eq, is_empty, trim_space,
}
use dns_automatic_traffic_sp.Dns.{Question, Msg, DnsLib}
use dns_automatic_traffic_sp.QueryLog.{QueryLogger}
use dns_automatic_traffic_sp.Router.Route.{Call}
use dns_automatic_traffic_sp.Server.{ask_router, with_client, host_of, reply_or_failure}
use dns_automatic_traffic_sp.Client.{Error, Reply}
use dns_automatic_traffic_sp.Server.Doh.{
  Method, get_method, post_method, other_method, media_type_of, equal_fold, or_bad_request, limited,
  HttpLib, HttpRequest, HttpAnswer, http_error, http_ok, DohHandler, Decoded, rejected, decoded,
  packed_answer, pack_answer, forwarded_client, answer_query, on_unpacked, on_decoded, dns_bytes,
  serve_http, is_trusted_proxy, first_part,
}

decoded_inj : (s t : List ℕ) → decoded s ≡ decoded t → s ≡ t
decoded_inj s t e = ap (λ d. elim d as (λ _. List ℕ) [ rejected n ↦ [] | decoded q ↦ q ]) e

-- The address that a request is logged under, and what Route answers under it.
abbrev pub logged_client : DnsLib → HttpRequest → Text
logged_client lib r = forwarded_client lib (host_of r.remote_addr) r.forwarded_for

module _ (http : HttpLib) (h : DohHandler) (call : Call) (r : HttpRequest) where
  open h.backend use {lib, wire}

  abbrev pub doh_answer : Msg → Option Msg
  doh_answer req =
      let reply = (ask_router h.backend (with_client call (logged_client lib r)) req).0 in
      reply_or_failure lib req reply.resp reply.err

  -- The steps of the handler that lead to these bytes.
  record IsServed (bytes : List ℕ) : Type 0 where
    pub query : List ℕ
    pub req : Msg
    pub answer : Msg
    pub here : text_eq r.path h.path ≡ true
    pub taken : dns_bytes http r.method r ≡ decoded query
    pub unpacked : wire.unpack query ≡ some req
    pub asked : req.question ≢ []
    pub answered : doh_answer req ≡ some answer
    pub packed : wire.pack answer ≡ some bytes

  answer_query-eq :
      (req : Msg) → (answer_query http h call r req).0 ≡ pack_answer http h call (doh_answer req)
  unfolding answer_query
  answer_query-eq req = refl

  on_answer :
      (o : Option Msg) (bytes : List ℕ)
      → pack_answer http h call o ≡ http_ok bytes
      → (m : Msg) × (o ≡ some m) × (wire.pack m ≡ some bytes)
  on_answer none bytes e = ground (arith, e)
  on_answer (some m) bytes e = (m, refl, by_pack (wire.pack m) e)
    where
      by_pack : (p : Option (List ℕ)) → packed_answer p ≡ http_ok bytes → p ≡ some bytes
      by_pack none e = ground (arith, e)
      by_pack (some b) e = ground (arith, e)

  serve_http-IsServed :
      (bytes : List ℕ) → (serve_http http h call r).0 ≡ http_ok bytes → IsServed bytes
  unfolding serve_http
  serve_http-IsServed bytes e = elim (Bool-cases (text_eq r.path h.path)) [
    | inr other ↦ ground (arith, rw other at e)
    | inl here ↦ by_decoded (dns_bytes http r.method r) refl here (rw here at e)
  ]
    where
      by_question :
          (query : List ℕ) (req : Msg) (qs : List Question)
          → req.question ≡ qs
          → text_eq r.path h.path ≡ true
          → dns_bytes http r.method r ≡ decoded query
          → wire.unpack query ≡ some req
          → (elim qs as (λ _. HttpAnswer × Option QueryLogger) [
            | [] ↦ (http_error 400, h.backend.logger)
            | q ∷ rest ↦ answer_query http h call r req
          ]).0
            ≡ http_ok bytes
          → IsServed bytes
      by_question query req [] eq here taken unpacked e = ground (arith, e)
      by_question query req (q ∷ rest) eq here taken unpacked e =
          let (m, answered, packed) =
            on_answer (doh_answer req) bytes (sym (answer_query-eq req) ∙ e) in
          record {
            query = query;
            req = req;
            answer = m;
            here = here;
            taken = taken;
            unpacked = unpacked;
            asked = λ nil. ground (arith, sym eq ∙ nil);
            answered = answered;
            packed = packed;
          }

      by_message :
          (query : List ℕ) (o : Option Msg)
          → wire.unpack query ≡ o
          → text_eq r.path h.path ≡ true
          → dns_bytes http r.method r ≡ decoded query
          → (on_unpacked http h call r o).0 ≡ http_ok bytes
          → IsServed bytes
      by_message query none eq here taken e = ground (arith, e)
      by_message query (some req) eq here taken e =
          by_question query req req.question refl here taken eq e

      by_decoded :
          (d : Decoded)
          → dns_bytes http r.method r ≡ d
          → text_eq r.path h.path ≡ true
          → (on_decoded http h call r d).0 ≡ http_ok bytes
          → IsServed bytes
      by_decoded (rejected status) eq here e = ground (arith, e)
      by_decoded (decoded query) eq here e = by_message query (wire.unpack query) refl here eq e

  answered-serve_http :
      (bytes : List ℕ) → IsServed bytes → (serve_http http h call r).0 ≡ http_ok bytes
  unfolding serve_http
  answered-serve_http bytes a =
      rw (a.here, a.taken, a.unpacked) (by_question a.req.question a.asked)
    where
      by_question :
          (qs : List Question)
          → qs ≢ []
          → (elim qs as (λ _. HttpAnswer × Option QueryLogger) [
            | [] ↦ (http_error 400, h.backend.logger)
            | q ∷ rest ↦ answer_query http h call r a.req
          ]).0
            ≡ http_ok bytes
      by_question [] solid = absurd (solid refl)
      by_question (q ∷ rest) solid =
          answer_query-eq a.req
          ∙ ap (pack_answer http h call) a.answered
          ∙ ap packed_answer a.packed

module _ (http : HttpLib) (h : DohHandler) (call : Call) (r : HttpRequest) where
  open h.backend use {lib, wire}

  -- How a request carries a query: in a GET, the parameter; in a POST of the right media type, a body
  -- of at most 65,535 bytes.
  pub data IsTaken (query : List ℕ) : Type 0 where
    by_get :
        r.method ≡ get_method
        → is_empty r.dns_param ≡ false
        → http.decode_base64 r.dns_param ≡ some query
        → IsTaken query
    by_post :
        r.method ≡ post_method
        → to_lower (media_type_of http r.content_type) ≡ codes "application/dns-message"
        → r.body ≡ some query
        → length query ≤ 65535
        → IsTaken query

  abbrev reply_to : Msg → Reply
  reply_to req = (ask_router h.backend (with_client call (logged_client lib r)) req).0

  -- What the message of the answer is: the response, or SERVFAIL for an error.
  pub data IsReply (req answer : Msg) : Type 0 where
    of_response : (reply_to req).err ≡ none → (reply_to req).resp ≡ some answer → IsReply req answer
    of_error :
        (e : Error)
        → (reply_to req).err ≡ some e
        → answer ≡ lib.set_rcode req 2
        → IsReply req answer

  -- How a request comes to an answer of these bytes.
  pub record IsAnswered (bytes : List ℕ) : Type 0 where
    pub query : List ℕ
    pub req : Msg
    pub answer : Msg
    pub here : r.path ≡ h.path
    pub taken : IsTaken query
    pub unpacked : wire.unpack query ≡ some req
    pub asked : req.question ≢ []
    pub replied : IsReply req answer
    pub packed : wire.pack answer ≡ some bytes

  dns_bytes-IsTaken :
      (query : List ℕ) (m : Method)
      → r.method ≡ m
      → dns_bytes http m r ≡ decoded query
      → IsTaken query
  unfolding dns_bytes
  dns_bytes-IsTaken query get_method is e =
      by_param (is_empty r.dns_param) (http.decode_base64 r.dns_param) refl refl e
    where
      by_param :
          (blank : Bool) (o : Option (List ℕ))
          → is_empty r.dns_param ≡ blank
          → http.decode_base64 r.dns_param ≡ o
          → (if blank then rejected 400 else or_bad_request o) ≡ decoded query
          → IsTaken query
      by_param true o p q e = ground (arith, e)
      by_param false none p q e = ground (arith, e)
      by_param false (some bytes) p q e = by_get is p (q ∙ ap some (decoded_inj bytes query e))
  dns_bytes-IsTaken query post_method is e =
      by_type (equal_fold (media_type_of http r.content_type) (codes "application/dns-message"))
        r.body refl refl e
    where
      by_size :
          (big : Bool) (bytes : List ℕ)
          → ltb 65535 (length bytes) ≡ big
          → equal_fold (media_type_of http r.content_type) (codes "application/dns-message") ≡ true
          → r.body ≡ some bytes
          → or_bad_request (if big then none else some bytes) ≡ decoded query
          → IsTaken query
      by_size true bytes big t b e = ground (arith, e)
      by_size false bytes small t b e =
          let same = decoded_inj bytes query e in
          by_post is ((text_eq_iff _ _).0 t) (b ∙ ap some same)
            (subst (λ q. length q ≤ 65535) same (ground (arith, small)))

      by_type :
          (same : Bool) (o : Option (List ℕ))
          → equal_fold (media_type_of http r.content_type) (codes "application/dns-message") ≡ same
          → r.body ≡ o
          → (if same then or_bad_request (limited o) else rejected 415) ≡ decoded query
          → IsTaken query
      by_type false o t b e = ground (arith, e)
      by_type true none t b e = ground (arith, e)
      by_type true (some bytes) t b e = by_size (ltb 65535 (length bytes)) bytes refl t b e
  dns_bytes-IsTaken query other_method is e = ground (arith, e)

  IsTaken-dns_bytes : (query : List ℕ) → IsTaken query → dns_bytes http r.method r ≡ decoded query
  unfolding dns_bytes
  IsTaken-dns_bytes query (by_get is some_text q) =
      ap (λ m. dns_bytes http m r) is ∙ rw (some_text, q) refl
  IsTaken-dns_bytes query (by_post is t b fits) =
      ap (λ m. dns_bytes http m r) is
      ∙ rw ((text_eq_iff _ (codes "application/dns-message")).1 t, b)
          (ap (λ c. or_bad_request (if c then none else some query)) {y = false}
            (ground (arith, fits)))

  replied_iff : (req m : Msg) → (doh_answer http h call r req ≡ some m) ↔ IsReply req m
  unfolding reply_or_failure
  replied_iff req m = by_error (reply_to req).err refl
    where
      by_error :
          (o : Option Error)
          → (reply_to req).err ≡ o
          → (reply_or_failure lib req (reply_to req).resp o ≡ some m) ↔ IsReply req m
      by_error none q =
          (λ e. of_response q e, λ a. elim a [ of_response p e ↦ e | of_error x p e ↦ cc (p, q) ])
      by_error (some x) q = (
        λ e. of_error x q (sym (some-injective _ _ e)),
        λ a. elim a [ of_response p e ↦ cc (p, q) | of_error y p e ↦ ap some (sym e) ],
      )

  -- ServeHTTP answers with status 200 and these bytes exactly if the path is its own; the request is
  -- a GET whose parameter is not empty and is the base64 form of a query, or a POST of the media type
  -- application/dns-message (in any case) with a query of at most 65,535 bytes as its body; the query
  -- unpacks to a message with a question; and the bytes are the packed form of what Route answers this
  -- message with, under the client's logged address: its response if there is no error, and the
  -- request with the code SERVFAIL if there is one.
  pub serve_http_iff :
      (bytes : List ℕ) → ((serve_http http h call r).0 ≡ http_ok bytes) ↔ IsAnswered bytes
  serve_http_iff bytes = (
    λ e.
        let s = serve_http-IsServed http h call r bytes e in
        record {
          query = s.query;
          req = s.req;
          answer = s.answer;
          here = (text_eq_iff r.path h.path).0 s.here;
          taken = dns_bytes-IsTaken s.query r.method refl s.taken;
          unpacked = s.unpacked;
          asked = s.asked;
          replied = (replied_iff s.req s.answer).0 s.answered;
          packed = s.packed;
        },
    λ a. answered-serve_http http h call r bytes (record {
      query = a.query;
      req = a.req;
      answer = a.answer;
      here = (text_eq_iff r.path h.path).1 a.here;
      taken = IsTaken-dns_bytes a.query a.taken;
      unpacked = a.unpacked;
      asked = a.asked;
      answered = (replied_iff a.req a.answer).1 a.replied;
      packed = a.packed;
    }),
  )

-- The logged address is that of the connection, unless the connection comes from a loopback,
-- private or link-local address: only then it may be another one, which is the first part of the
-- header X-Forwarded-For and parses as an address.
pub forwarded_client-trusted :
    (lib : DnsLib) (host xff : Text)
    → (forwarded_client lib host xff ≡ host)
      ⊎ ((is_trusted_proxy lib host ≡ true)
          × (forwarded_client lib host xff ≡ trim_space (first_part xff))
          × (is_some (lib.parse_ip (forwarded_client lib host xff)) ≡ true))
unfolding forwarded_client
forwarded_client-trusted lib host xff =
    elim (Bool-cases (is_trusted_proxy lib host && not (is_empty xff))) [
      | inr direct ↦ inl (rw direct)
      | inl proxied ↦ elim (Bool-cases (is_some (lib.parse_ip (trim_space (first_part xff))))) [
        | inr garbage ↦ inl (rw (proxied, garbage))
        | inl good ↦ inr (ground arith, rw (proxied, good), rw (proxied, good) good)
      ]
    ]
