-- ===== src/Base/Net.antt =====
-- Host and port of Go's `net` package, and its predicates on addresses.
use Prim.Native.Nat.{ℕ}
use mathlib.Core.Path.{◌≡◌, refl}
use mathlib.Core.Bool.{Bool, false, ◌||◌}
use mathlib.Core.Option.{Option, none, some}
use mathlib.Core.List.{[], ◌∷◌, ◌++◌}
use native.Mathlib.Omega.{arith}
use dns_automatic_traffic_sp.Base.Tests.{◌==◌, if◌then◌else◌}
use dns_automatic_traffic_sp.Base.Lists.{any}
use dns_automatic_traffic_sp.Base.Text.{Text, cut}

-- strings.Contains for one byte
abbrev pub has_byte : ℕ → Text → Bool
has_byte c s = any (λ a. a == c) s

-- strings.LastIndex for a byte: the texts before and behind its last occurrence.
unfoldable pub cut_last : ℕ → Text → Option (Text × Text)
cut_last c [] = none
cut_last c (a ∷ s) = elim (cut_last c s) [
  | some (u, v) ↦ some (a ∷ u, v)
  | none ↦ if a == c then some ([], s) else none
]

-- What stands behind the bracket of a host in brackets.
abbrev pub bracketed : Text → Text → Option (Text × Text)
bracketed host [] = none
bracketed host (c ∷ port) =
    if c == b':'
    then if has_byte b':' port || (has_byte b'[' host || (has_byte b'[' port || has_byte b']' port))
      then none
      else some (host, port)
    else none

abbrev pub unbracketed : Text → Text → Option (Text × Text)
unbracketed host port =
    if has_byte b':' host
      || (has_byte b'[' host || (has_byte b'[' port || (has_byte b']' host || has_byte b']' port)))
    then none
    else some (host, port)

abbrev pub split_plain : Text → Option (Text × Text)
split_plain s = elim (cut_last b':' s) [ none ↦ none | some (host, port) ↦ unbracketed host port ]

-- net.SplitHostPort; an error is `none`.
unfoldable pub split_host_port : Text → Option (Text × Text)
unfolding cut_last cut
split_host_port [] = none
split_host_port (c ∷ s) =
    if c == b'['
    then elim (cut b']' s) [ none ↦ none | some (host, rest) ↦ bracketed host rest ]
    else split_plain (c ∷ s)

-- net.JoinHostPort
unfoldable pub join_host_port : Text → Text → Text
join_host_port host port =
    if has_byte b':' host then b'[' ∷ (host ++ b']' ∷ b':' ∷ port) else host ++ b':' ∷ port

cut-append :
    (c : ℕ) (host rest : Text)
    → has_byte c host ≡ false
    → cut c (host ++ c ∷ rest) ≡ some (host, rest)
unfolding cut
cut-append c [] rest h = ground arith
cut-append c (a ∷ host) rest h = ground (arith, cut-append c host rest)

cut_last-none : (c : ℕ) (s : Text) → has_byte c s ≡ false → cut_last c s ≡ none
unfolding cut_last
cut_last-none c [] h = refl
cut_last-none c (a ∷ s) h = ground (arith, cut_last-none c s)

cut_last-append :
    (c : ℕ) (host port : Text)
    → has_byte c port ≡ false
    → cut_last c (host ++ c ∷ port) ≡ some (host, port)
unfolding cut_last
cut_last-append c [] port h = ground (arith, cut_last-none c port)
cut_last-append c (a ∷ host) port h = ground (arith, cut_last-append c host port)

-- A text without brackets.
abbrev pub IsPlain : Text → Type 0
IsPlain s = (has_byte b'[' s ≡ false) × (has_byte b']' s ≡ false)

-- A joined host and port are split into the same again.
pub split_host_port-join_host_port :
    (host port : Text)
    → IsPlain host
    → IsPlain port
    → has_byte b':' port ≡ false
    → split_host_port (join_host_port host port) ≡ some (host, port)
unfolding split_host_port join_host_port
split_host_port-join_host_port [] port h p c = ground (arith, cut_last-append b':' [] port)
split_host_port-join_host_port (a ∷ host) port h p c =
    ground (arith, cut_last-append b':' (a ∷ host) port, cut-append b']' (a ∷ host) (b':' ∷ port))
