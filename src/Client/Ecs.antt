-- ===== src/Client/Ecs.antt =====
-- The EDNS client subnet: ensureECS of internal/client/client.go and ExtractECS of
-- internal/client/ecs.go.
use dns_automatic_traffic_sp.Base.{
  ℕ, ◌-◌, ◌%◌, ◌^◌, ◌≡◌, refl, ap, Bool, true, false, Option, none, some, List, [], ◌∷◌, ◌++◌,
  if◌then◌else◌, ltb, ◌==◌, length, select, is_some, Option-cases, inl, inr,
}
use dns_automatic_traffic_sp.Base.Text.{Text, codes, is_empty, decimal}
use dns_automatic_traffic_sp.Dns.{
  Ip, to4, Subnet, EdnsOption, subnet, other_option, Opt, Msg, DnsLib, IsDnsLib,
}

abbrev pub is_other : EdnsOption → Bool
is_other (subnet s) = false
is_other (other_option c) = true

-- The option for an address: a /24 for IPv4, a /56 for IPv6.
unfoldable pub subnet_for : Ip → Subnet
unfolding to4
subnet_for ip = elim (to4 ip) [
  | none ↦ record { family = 2; source_netmask = 56; address = some ip }
  | some v4 ↦ record { family = 1; source_netmask = 24; address = some v4 }
]

module _ (lib : DnsLib) where
  open lib use {is_edns0, set_edns0, write_opt, parse_ip}

  -- SetEdns0 is called where there is no OPT record yet.
  abbrev pub with_edns0 : Msg → Msg
  with_edns0 req = if is_some (is_edns0 req) then req else set_edns0 req 4096 false

  abbrev pub write_subnet : Msg → Ip → Option Opt → Msg
  write_subnet req ip none = req
  write_subnet req ip (some opt) =
      write_opt req
        (record opt { options = select is_other opt.options ++ subnet (subnet_for ip) ∷ [] })

  unfoldable pub ensure_ecs : Msg → Text → Msg
  ensure_ecs req ecs_ip = if is_empty ecs_ip then req else elim (parse_ip ecs_ip) [
    | none ↦ req
    | some ip ↦ write_subnet (with_edns0 req) ip (is_edns0 (with_edns0 req))
  ]

-- A byte with all but its first `k` bits cleared.
abbrev pub mask_byte : ℕ → ℕ → ℕ
mask_byte k b = if ltb k 8 then b - b % 2 ^ (8 - k) else b

-- `ip.Mask(net.CIDRMask(prefix, 8 * len(ip)))`
unfoldable pub mask : ℕ → Ip → Ip
mask prefix [] = []
mask prefix (b ∷ ip) = mask_byte prefix b ∷ mask (prefix - 8) ip

abbrev pub clamp_prefix : ℕ → ℕ → ℕ
clamp_prefix bits prefix = if ltb bits prefix then bits else prefix

-- formatECS behind its test for nil. The family is told by To4; `format_ip` is net.IP.String. For
-- an address of neither length Mask gives nil, and the address is printed alone.
unfoldable pub format_address : (Ip → Text) → ℕ → Ip → Text
unfolding to4 mask
format_address format_ip prefix ip = elim (to4 ip) [
  | some v4 ↦
      format_ip (mask (clamp_prefix 32 prefix) v4) ++ codes "/" ++ decimal (clamp_prefix 32 prefix)
  | none ↦
      if length ip == 16
      then format_ip (mask (clamp_prefix 128 prefix) ip)
        ++ codes "/"
        ++ decimal (clamp_prefix 128 prefix)
      else format_ip ip
]

unfoldable pub format_ecs : (Ip → Text) → Subnet → Text
format_ecs format_ip s = elim s.address [
  | none ↦ []
  | some ip ↦ format_address format_ip s.source_netmask ip
]

unfoldable pub first_subnet : (Ip → Text) → List EdnsOption → Text
unfolding format_ecs
first_subnet format_ip [] = []
first_subnet format_ip (subnet s ∷ r) = format_ecs format_ip s
first_subnet format_ip (other_option c ∷ r) = first_subnet format_ip r

abbrev pub printed_subnet : (Ip → Text) → Option Opt → Text
printed_subnet format_ip none = []
printed_subnet format_ip (some opt) = first_subnet format_ip opt.options

unfoldable pub extract_ecs : DnsLib → (Ip → Text) → Msg → Text
unfolding first_subnet
extract_ecs lib format_ip req = printed_subnet format_ip (lib.is_edns0 req)

first_subnet-select :
    (format_ip : Ip → Text) (os : List EdnsOption) (s : Subnet)
    → first_subnet format_ip (select is_other os ++ subnet s ∷ []) ≡ format_ecs format_ip s
unfolding first_subnet
first_subnet-select format_ip [] s = refl
first_subnet-select format_ip (subnet t ∷ os) s = first_subnet-select format_ip os s
first_subnet-select format_ip (other_option c ∷ os) s = first_subnet-select format_ip os s

-- The options that a message carries; none without an OPT record.
abbrev pub options_of : Option Opt → List EdnsOption
options_of none = []
options_of (some opt) = opt.options

-- Before the options are written there is an OPT record, with the options of the request.
with_edns0_lem :
    (lib : DnsLib) (req : Msg)
    → IsDnsLib lib
    → (opt : Opt) × (lib.is_edns0 (with_edns0 lib req) ≡ some opt)
      × (opt.options ≡ options_of (lib.is_edns0 req))
with_edns0_lem lib req laws = elim (Option-cases (lib.is_edns0 req)) [
  | inl e ↦ rw e (
    record { udp_size = 4096; do_bit = false; options = [] },
    laws.edns0_set req 4096 false,
    refl,
  )
  | inr (opt, e) ↦ rw e (opt, e, refl)
]

-- With a configured address that parses, ensureECS leaves the message with an OPT record whose
-- options are those it had, in order and without any subnet, and then the one subnet of the
-- configured address; so ExtractECS on the result prints that subnet, whatever the client sent.
pub ensure_ecs-extract_ecs :
    (lib : DnsLib) (format_ip : Ip → Text) (req : Msg) (ecs_ip : Text) (ip : Ip)
    → IsDnsLib lib
    → is_empty ecs_ip ≡ false
    → lib.parse_ip ecs_ip ≡ some ip
    → (options_of (lib.is_edns0 (ensure_ecs lib req ecs_ip))
        ≡ select is_other (options_of (lib.is_edns0 req)) ++ subnet (subnet_for ip) ∷ [])
      × (extract_ecs lib format_ip (ensure_ecs lib req ecs_ip)
          ≡ format_ecs format_ip (subnet_for ip))
unfolding ensure_ecs extract_ecs
ensure_ecs-extract_ecs lib format_ip req ecs_ip ip laws given parsed =
    let (opt, found, kept) = with_edns0_lem lib req laws in
    let written =
      laws.edns0_written (with_edns0 lib req) opt
        (record opt { options = select is_other opt.options ++ subnet (subnet_for ip) ∷ [] })
        found in
    rw (given, parsed, found, written)
      (
        ap (λ os. select is_other os ++ subnet (subnet_for ip) ∷ []) kept,
        first_subnet-select format_ip opt.options (subnet_for ip),
      )
