-- ===== src/Client.antt =====
-- internal/client: what a query to an upstream server returns, the race between upstreams, the
-- statistics of a client and the EDNS client subnet. The sockets, TLS, QUIC and HTTP of the clients
-- are not modelled: a client's answer is a `Reply` that the environment gives.
pub mod Race
pub mod Stats
pub mod Ecs
pub mod Exchange
pub mod Pool
use dns_automatic_traffic_sp.Base.{
  ℕ, Bool, false, true, Option, none, some, ◌≡◌, ◌⊎◌, ◌==◌, if◌then◌else◌,
}
use dns_automatic_traffic_sp.Base.Text.{Text}
use dns_automatic_traffic_sp.Dns.{Msg, rcode_success}

-- Why a context is done.
pub data Cause : Type 0 where
  canceled deadline_exceeded : Cause

-- The errors of the program, one constructor for each place that makes one. `client_error` is any
-- error of an upstream client that no context caused, and `wrapped` adds a text to one by `%w`.
-- `all_queries_failed` and `both_queries_failed` are one text in the source, with a nil and with an
-- error in its second place.
pub data Error : Type 0 where
  no_question no_response no_clients race_timeout empty_response nothing_received : Error
  dual_incomplete dual_nothing : Error
  bad_host_ip : Text → Text → Error
  context_error : Cause → Error
  client_error : Text → Error
  wrapped : Text → Error → Error
  all_failed : Error → Error
  all_queries_failed : Error → Error
  both_queries_failed : Error → Error → Error

-- The pair `(resp, err)` of a Go function; nil is `none`.
pub record Reply : Type 0 where
  pub resp : Option Msg
  pub err : Option Error

abbrev pub answered : Msg → Reply
answered m = record { resp = some m; err = none }

abbrev pub failed : Error → Reply
failed e = record { resp = none; err = some e }

-- The response of a reply that reports no error, and that response if its code is NOERROR.
abbrev pub valid : Reply → Option Msg
valid r = elim r.err [ some e ↦ none | none ↦ r.resp ]

abbrev pub only_success : Option Msg → Option Msg
only_success none = none
only_success (some m) = if m.rcode == rcode_success then some m else none

abbrev pub success_of : Reply → Option Msg
success_of r = only_success (valid r)

-- Exactly one part is set: a caller that finds no error may read the response.
abbrev pub IsDefinite : Reply → Type 0
IsDefinite r =
    ((m : Msg) × (r.resp ≡ some m) × (r.err ≡ none))
    ⊎ ((e : Error) × (r.resp ≡ none) × (r.err ≡ some e))
