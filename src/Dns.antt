-- ===== src/Dns.antt =====
-- The DNS messages that the program handles, and the functions of github.com/miekg/dns and of Go's
-- `net` that it calls on them. That package is not part of the repository: the fields are those
-- that the program reads or writes, and its functions are the parameter `DnsLib`, with what the
-- program relies on in `IsDnsLib`.
use dns_automatic_traffic_sp.Base.{
  ℕ, ◌≡◌, ◌&&◌, Bool, Option, none, some, List, [], ◌∷◌, ◌==◌, if◌then◌else◌, length, take, drop,
}
use dns_automatic_traffic_sp.Base.Text.{Text, text_eq}

-- net.IP: four or sixteen bytes.
abbrev pub Ip : Type 0
Ip = List ℕ

-- The first twelve bytes of an IPv4 address in sixteen.
abbrev pub v4_prefix : List ℕ
v4_prefix = 0 ∷ 0 ∷ 0 ∷ 0 ∷ 0 ∷ 0 ∷ 0 ∷ 0 ∷ 0 ∷ 0 ∷ 255 ∷ 255 ∷ []

-- net.IP.To4
unfoldable pub to4 : Ip → Option Ip
to4 ip =
    if length ip == 4
    then some ip
    else if length ip == 16 && text_eq (take 12 ip) v4_prefix
    then some (drop 12 ip)
    else none

pub record Subnet : Type 0 where
  pub family : ℕ
  pub source_netmask : ℕ
  pub address : Option Ip

pub data EdnsOption : Type 0 where
  subnet : Subnet → EdnsOption
  other_option : ℕ → EdnsOption

-- An OPT record.
pub record Opt : Type 0 where
  pub udp_size : ℕ
  pub do_bit : Bool
  pub options : List EdnsOption

-- The Go type of a record, with the part of it that the program reads.
pub data Body : Type 0 where
  a_record aaaa_record : Ip → Body
  opt_record : Opt → Body
  other_record : Text → Body

pub record Rr : Type 0 where
  pub name : Text
  pub rrtype : ℕ
  pub class : ℕ
  pub ttl : ℕ
  pub body : Body

pub record Question : Type 0 where
  pub name : Text
  pub qtype : ℕ
  pub qclass : ℕ

-- `flags` are the bits of the header that the program does not touch: QR, the opcode, AA, RA, AD and Z.
pub record Msg : Type 0 where
  pub id : ℕ
  pub flags : ℕ
  pub rcode : ℕ
  pub truncated : Bool
  pub recursion_desired : Bool
  pub checking_disabled : Bool
  pub question : List Question
  pub answer : List Rr
  pub ns : List Rr
  pub extra : List Rr

abbrev pub type_a : ℕ
type_a = 1

abbrev pub type_aaaa : ℕ
type_aaaa = 28

abbrev pub type_opt : ℕ
type_opt = 41

abbrev pub type_svcb : ℕ
type_svcb = 64

abbrev pub type_https : ℕ
type_https = 65

abbrev pub type_any : ℕ
type_any = 255

abbrev pub class_inet : ℕ
class_inet = 1

abbrev pub rcode_success : ℕ
rcode_success = 0

abbrev pub rcode_server_failure : ℕ
rcode_server_failure = 2

abbrev pub rcode_name_error : ℕ
rcode_name_error = 3

pub record DnsLib : Type 0 where
  -- dns.SplitDomainName, dns.Fqdn
  pub split_domain_name : Text → List Text
  pub fqdn : Text → Text
  -- `new(dns.Msg)` followed by SetQuestion, or by SetReply or SetRcode on a request
  pub set_question : Text → ℕ → Msg
  pub set_reply : Msg → Msg
  pub set_rcode : Msg → ℕ → Msg
  -- IsEdns0 gives the OPT record of a message, SetEdns0 adds one, and a write through the pointer
  -- that IsEdns0 returns replaces it
  pub is_edns0 : Msg → Option Opt
  pub set_edns0 : Msg → ℕ → Bool → Msg
  pub write_opt : Msg → Opt → Msg
  -- RR.String, dns.Type.String, dns.RcodeToString
  pub rr_string : Rr → Text
  pub type_string : ℕ → Text
  pub rcode_string : ℕ → Text
  -- net.ParseIP
  pub parse_ip : Text → Option Ip

-- Documented behaviour of those functions.
pub record IsDnsLib (lib : DnsLib) : Type 0 where
  pub reply_answer : (m : Msg) → (lib.set_reply m).answer ≡ []
  pub reply_rcode : (m : Msg) → (lib.set_reply m).rcode ≡ rcode_success
  pub edns0_written :
      (m : Msg) (o o' : Opt) → lib.is_edns0 m ≡ some o → lib.is_edns0 (lib.write_opt m o') ≡ some o'
  pub edns0_set :
      (m : Msg) (size : ℕ) (d : Bool)
      → lib.is_edns0 (lib.set_edns0 m size d)
        ≡ some (record { udp_size = size; do_bit = d; options = [] })
