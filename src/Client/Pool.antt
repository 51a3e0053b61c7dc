-- ===== src/Client/Pool.antt =====
-- internal/client/tcp.go: the pool of connections that queries in a pipeline share. A slot of the
-- pool is nil or holds a connection, known by a number; `live` are the connections that are open.
-- A step is a piece of a goroutine between two operations on the channel or on `closed`.
pub mod Exchanges
pub mod Conserved
use dns_automatic_traffic_sp.Base.{
  ℕ, zero, suc, ◌+◌, Bool, true, false, ◌&&◌, Option, none, some, List, [], ◌∷◌, ◌++◌, ◌==◌, ltb,
  if◌then◌else◌, length,
}
use dns_automatic_traffic_sp.Base.Text.{codes}
use dns_automatic_traffic_sp.Base.Handles.{remove}
use dns_automatic_traffic_sp.Dns.{Msg}
use dns_automatic_traffic_sp.Client.{Error, Reply, answered, failed, client_error, wrapped}

-- `held` are what queries hold that have taken a slot, and `returning` of those that have looked at
-- `closed` and are about to put the slot back.
pub record Pool : Type 0 where
  pub slots : List (Option ℕ)
  pub held : List (Option ℕ)
  pub returning : List (Option ℕ)
  pub live : List ℕ
  pub next : ℕ
  pub closed : Bool

abbrev pub pool_size : ℕ
pool_size = 10

abbrev pub empty_slots : ℕ → List (Option ℕ)
empty_slots zero = []
empty_slots (suc n) = none ∷ empty_slots n

-- initPool
unfoldable pub init_pool : Pool
init_pool = record {
  slots = empty_slots pool_size;
  held = [];
  returning = [];
  live = [];
  next = 0;
  closed = false;
}

-- What the network does to one query: the errors of dialling, first and again, whether the writes
-- succeed, and what is read.
pub record Script : Type 0 where
  pub dial : Option Error
  pub redial : Option Error
  pub write : Bool
  pub rewrite : Bool
  pub read : Option Msg

abbrev pub close_conn : Option ℕ → Pool → Pool
close_conn none p = p
close_conn (some n) p = record p { live = remove n p.live }

abbrev pub open_conn : Pool → Pool
open_conn p = record p { next = p.next + 1; live = p.next ∷ p.live }

-- The answer, the connection that the query holds afterwards, and the pool.
abbrev pub Exchanged : Type 0
Exchanged = Reply × Option ℕ × Pool

abbrev pub dropped : Error → ℕ → Pool → Exchanged
dropped e n p = (failed e, none, close_conn (some n) p)

abbrev pub on_read : Msg → ℕ → Option Msg → Pool → Exchanged
on_read req n none p = dropped (client_error (codes "read")) n p
on_read req n (some resp) p =
    if resp.id == req.id
    then (answered resp, some n, p)
    else dropped (client_error (codes "ID mismatch")) n p

-- The second connection, after a write that has failed on the first.
abbrev pub on_redial : Msg → Script → Option Error → Pool → Exchanged
on_redial req s (some e) p = (failed (wrapped (codes "reconnect") e), none, p)
on_redial req s none p =
    if s.rewrite
    then on_read req p.next s.read (open_conn p)
    else dropped (client_error (codes "write")) p.next (open_conn p)

abbrev pub on_conn : Msg → Script → ℕ → Pool → Exchanged
on_conn req s n p =
    if s.write then on_read req n s.read p else on_redial req s s.redial (close_conn (some n) p)

abbrev pub on_dial : Msg → Script → Option Error → Pool → Exchanged
on_dial req s (some e) p = (failed e, none, p)
on_dial req s none p = on_conn req s p.next (open_conn p)

-- resolvePipeline between taking a slot and the deferred function.
unfoldable pub exchange : Msg → Script → Option ℕ → Pool → Exchanged
exchange req s none p = on_dial req s s.dial p
exchange req s (some n) p = on_conn req s n p

-- A connection is closed here if the pool is, else it goes on to its slot.
unfoldable pub look : Option ℕ → Pool → Pool
look o p =
    if p.closed
    then record (close_conn o p) { returning = none ∷ p.returning }
    else record p { returning = o ∷ p.returning }

-- The send into the channel, or the default branch where it is full.
unfoldable pub put_back : Option ℕ → Pool → Pool
put_back o p =
    if ltb (length p.slots) pool_size
    then record p { slots = p.slots ++ o ∷ [] }
    else close_conn o p

abbrev pub drain : List (Option ℕ) → Pool → Pool
drain [] p = p
drain (o ∷ l) p = drain l (close_conn o p)

-- Close
unfoldable pub close : Pool → Pool
close p = record (drain p.slots (record p { closed = true })) { slots = [] }

-- The element at a place, and the others.
abbrev pub pick {ℓ} : {A : Type ℓ} → ℕ → List A → Option (A × List A)
pick i [] = none
pick zero (x ∷ l) = some (x, l)
pick (suc i) (x ∷ l) = elim (pick i l) [ none ↦ none | some (y, rest) ↦ some (y, x ∷ rest) ]

-- A query takes a slot; the one at a place does its exchange and looks at `closed`; one of those
-- that have looked puts its slot back; and Close, whose drain takes what is in the channel.
pub data Event : Type 0 where
  taken : Event
  exchanged : ℕ → Msg → Script → Event
  put : ℕ → Event
  shut : Event

abbrev pub on_taken : List (Option ℕ) → Pool → Pool
on_taken [] p = p
on_taken (o ∷ l) p = record p { slots = l; held = o ∷ p.held }

abbrev pub on_exchanged : Msg → Script → Option (Option ℕ × List (Option ℕ)) → Pool → Pool
on_exchanged req s none p = p
on_exchanged req s (some (o, rest)) p =
    let (reply, o', p') = exchange req s o p in look o' (record p' { held = rest })

abbrev pub on_put : Option (Option ℕ × List (Option ℕ)) → Pool → Pool
on_put none p = p
on_put (some (o, rest)) p = put_back o (record p { returning = rest })

unfoldable pub step : Event → Pool → Pool
unfolding exchange look put_back close
step taken p = on_taken p.slots p
step (exchanged i req s) p = on_exchanged req s (pick i p.held) p
step (put i) p = on_put (pick i p.returning) p
step shut p = close p

unfoldable pub run : List Event → Pool → Pool
unfolding step
run [] p = p
run (e ∷ es) p = run es (step e p)
