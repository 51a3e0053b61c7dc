-- ===== src/Server/Doq.antt =====
-- handleQuicStream of internal/server/doqserver.go: one query on one stream, given by what the client
-- has written to it before it ends or the deadline passes.
use dns_automatic_traffic_sp.Base.{
  ℕ, ◌+◌, ◌*◌, ◌/◌, ◌%◌, true, Option, none, some, List, [], ◌∷◌, ◌++◌, ◌==◌, ltb, if◌then◌else◌,
  length, take,
}
use dns_automatic_traffic_sp.Base.Text.{Text}
use dns_automatic_traffic_sp.Dns.{Msg, rcode_success}
use dns_automatic_traffic_sp.QueryLog.{QueryLogger}
use dns_automatic_traffic_sp.Router.Route.{Call}
use dns_automatic_traffic_sp.Server.{
  max_dns_message_size, Backend, host_of, with_client, ask_router, reply_or_failure,
}

-- binary.BigEndian.PutUint16 of `uint16(n)`, and Uint16
abbrev pub put_uint16 : ℕ → List ℕ
put_uint16 n = n / 256 % 256 ∷ n % 256 ∷ []

abbrev pub get_uint16 : ℕ → ℕ → ℕ
get_uint16 high low = high * 256 + low

-- io.ReadFull
abbrev pub read_full : ℕ → List ℕ → Option (List ℕ)
read_full n s = if ltb (length s) n then none else some (take n s)

-- Two bytes of length, and the message behind them.
unfoldable pub frame : List ℕ → List ℕ
frame bytes = put_uint16 (length bytes) ++ bytes

-- The length that a stream begins with, and the rest.
abbrev pub read_length : List ℕ → Option (ℕ × List ℕ)
read_length [] = none
read_length (a ∷ []) = none
read_length (a ∷ b ∷ rest) = some (get_uint16 a b, rest)

abbrev pub set_id : Msg → ℕ → Msg
set_id m n = record m { id = n }

-- The stream is closed with nothing written, with these bytes, or the handler reads a nil response.
pub data StreamEnd : Type 0 where
  silent : StreamEnd
  sent : List ℕ → StreamEnd
  stream_crashed : StreamEnd

abbrev pub send : Option (List ℕ) → StreamEnd
send none = silent
send (some bytes) = sent (frame bytes)

module _ (b : Backend) (call : Call) (remote : Text) where
  -- The empty answer with the truncation bit, in place of one that the length cannot express.
  abbrev pub truncated_answer : Msg → Msg
  truncated_answer req = record (b.lib.set_rcode req rcode_success) { id = 0; truncated = true }

  abbrev pub fit : Msg → Option (List ℕ) → Option (List ℕ)
  fit req none = none
  fit req (some packed) =
      if ltb max_dns_message_size (length packed)
      then b.wire.pack (truncated_answer req)
      else some packed

  abbrev pub send_answer : Msg → Option Msg → StreamEnd
  send_answer req none = stream_crashed
  send_answer req (some m) = send (fit req (b.wire.pack (set_id m 0)))

  unfoldable pub answer_stream : Msg → StreamEnd × Option QueryLogger
  unfolding host_of ask_router reply_or_failure frame
  answer_stream req =
      let (reply, logger) = ask_router b (with_client call (host_of remote)) req in
      (send_answer req (reply_or_failure b.lib req reply.resp reply.err), logger)

  abbrev pub on_message : Option Msg → StreamEnd × Option QueryLogger
  on_message none = (silent, b.logger)
  on_message (some req) = elim req.question [
    | [] ↦ (silent, b.logger)
    | q ∷ rest ↦ answer_stream req
  ]

  abbrev pub on_bytes : Option (List ℕ) → StreamEnd × Option QueryLogger
  on_bytes none = (silent, b.logger)
  on_bytes (some bytes) = on_message (b.wire.unpack bytes)

  abbrev pub on_length : Option (ℕ × List ℕ) → StreamEnd × Option QueryLogger
  on_length none = (silent, b.logger)
  on_length (some (n, rest)) = if n == 0 then (silent, b.logger) else on_bytes (read_full n rest)

  unfoldable pub handle_quic_stream : List ℕ → StreamEnd × Option QueryLogger
  unfolding answer_stream
  handle_quic_stream input = on_length (read_length input)
