-- ===== src/Bootstrap.antt =====
-- internal/resolver/bootstrap.go: the servers that find the address of an upstream's host, and the
-- order in which they are asked. The DNS queries themselves are a parameter, with the time they take.
pub mod Flights
pub mod Sound
pub mod Sources
pub mod Conclusions
pub mod Answers
pub mod Rotation
use dns_automatic_traffic_sp.Base.{
  ltb, ◌-◌, ℕ, zero, suc, ◌+◌, ◌%◌, ◌^◌, Bool, true, false, Option, none, some, is_some, List, [],
  ◌∷◌, ◌++◌, if◌then◌else◌, length, get_elem?,
}
use dns_automatic_traffic_sp.Base.Text.{
  Text, codes, text_eq, is_empty, has_prefix, to_lower, trim_space, trim_prefix,
}
use dns_automatic_traffic_sp.Base.Net.{split_host_port, join_host_port}
use dns_automatic_traffic_sp.Client.{Error, client_error, wrapped}

-- LookupIP gives an address or an error.
pub data Lookup : Type 0 where
  found : Text → Lookup
  not_found : Error → Lookup

-- LookupIPAddr of the net package: addresses, or an error.
pub data Addresses : Type 0 where
  addresses : List Text → Addresses
  no_addresses : Error → Addresses

pub record BootstrapServer : Type 0 where
  pub network : Text
  pub address : Text

unfoldable pub server_text : BootstrapServer → Text
server_text s =
    if is_empty s.network
    then s.address
    else if text_eq s.network (codes "udp")
    then s.address
    else s.network ++ codes "://" ++ s.address

-- strings.Index for "://": the texts before and behind its first occurrence.
unfoldable pub cut_scheme : Text → Option (Text × Text)
unfolding has_prefix trim_prefix
cut_scheme [] = none
cut_scheme (c ∷ s) =
    if has_prefix (c ∷ s) (codes "://")
    then some ([], trim_prefix (c ∷ s) (codes "://"))
    else elim (cut_scheme s) [ none ↦ none | some (u, v) ↦ some (c ∷ u, v) ]

abbrev pub no_server : BootstrapServer
no_server = record { network = []; address = [] }

abbrev pub network_of : Text → Text
network_of scheme = if text_eq (to_lower scheme) (codes "tcp") then codes "tcp" else codes "udp"

abbrev pub with_port : Text → Text
with_port raw = if is_some (split_host_port raw) then raw else join_host_port raw (codes "53")

abbrev pub server_at : Text → Text → BootstrapServer
server_at network raw =
    if is_empty raw then no_server else record { network = network; address = with_port raw }

unfoldable pub parse_bootstrap_server : Text → BootstrapServer
unfolding trim_space cut_scheme split_host_port join_host_port
parse_bootstrap_server server =
    let raw = trim_space server in
    if is_empty raw then no_server else elim (cut_scheme raw) [
      | none ↦ server_at (codes "udp") raw
      | some (scheme, rest) ↦ server_at (network_of scheme) (trim_space rest)
    ]

-- NewBootstrapper
unfoldable pub new_bootstrapper : List Text → List BootstrapServer
unfolding parse_bootstrap_server
new_bootstrapper [] = []
new_bootstrapper (s ∷ ss) =
    let rest = new_bootstrapper ss in
    let parsed = parse_bootstrap_server s in if is_empty parsed.address then rest else parsed ∷ rest

-- What one server's answer is worth: an address, or the error to remember.
unfoldable pub first_address : (Error → Error) → Error → Addresses → Lookup
first_address wrap missing (no_addresses e) = not_found (wrap e)
first_address wrap missing (addresses []) = not_found missing
first_address wrap missing (addresses (ip ∷ ips)) = found ip

-- context.WithTimeout of lookupOnce, and of each server, in milliseconds.
abbrev pub lookup_budget : ℕ
lookup_budget = 15000

abbrev pub server_budget : ℕ
server_budget = 4000

-- What a server is given: its own limit, or what is left of the whole lookup.
abbrev pub allowed : ℕ → ℕ
allowed left = if ltb left server_budget then left else server_budget

-- What a query comes to, and the milliseconds that it takes.
abbrev pub Timed : Type 0
Timed = Addresses × ℕ

abbrev pub or_next : Lookup → (Error → Lookup) → Lookup
or_next (found ip) next = found ip
or_next (not_found e) next = next e

-- A server's query is given the host and the milliseconds that it may take.
module _ (query : BootstrapServer → Text → ℕ → Timed) (query_default : Text → Addresses) where
  unfoldable pub ask_server : BootstrapServer → Text → ℕ → Lookup × ℕ
  unfolding first_address server_text
  ask_server s host budget =
      let (answer, taken) = query s host budget in
      (
        first_address (wrapped (codes "bootstrap " ++ server_text s ++ codes " failed"))
            (client_error (codes "no IP found for host via bootstrap server")) answer,
        taken,
      )

  -- The error that is left when every server has failed.
  abbrev pub all_failed : Option Error → Lookup
  all_failed none = not_found (client_error (codes "all bootstrap servers failed"))
  all_failed (some e) = not_found (wrapped (codes "all bootstrap servers failed") e)

  abbrev pub ask_at : Option BootstrapServer → Text → ℕ → Lookup × ℕ
  ask_at none host budget = (not_found (client_error (codes "index out of range")), 0)
  ask_at (some s) host budget = ask_server s host budget

  -- `left` more servers, from the one that the 64-bit number `at` selects, in `time` milliseconds.
  unfoldable pub ask_from : List BootstrapServer → Text → ℕ → ℕ → ℕ → Option Error → Lookup
  unfolding ask_server
  ask_from servers host time at zero last = all_failed last
  ask_from servers host time at (suc left) last =
      let (answer, taken) = ask_at (get_elem? servers (at % length servers)) host (allowed time) in
      or_next answer (λ e. ask_from servers host (time - taken) ((at + 1) % 2 ^ 64) left (some e))

  -- The address, and the counter that moves the start to the next server. `time` is what the
  -- context leaves: `lookup_budget` where lookupOnce calls it.
  unfoldable pub lookup_with_retry : List BootstrapServer → ℕ → ℕ → Text → Lookup × ℕ
  unfolding ask_from first_address
  lookup_with_retry [] time counter host = (
    first_address (λ e. e) (client_error (codes "no IP found for host")) (query_default host),
    counter,
  )
  lookup_with_retry (s ∷ ss) time counter host =
      let start = (counter + 1) % 2 ^ 64 in
      (ask_from (s ∷ ss) host time start (length (s ∷ ss)) none, start)
