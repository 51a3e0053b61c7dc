-- ===== src/Config/Listen/Section.antt =====
-- A listen section as it may be written, and the plain section that it stands for.
use dns_automatic_traffic_sp.Base.{◌≡◌, ◌⊎◌, List, [], ◌∷◌, if◌then◌else◌}
use dns_automatic_traffic_sp.Base.Text.{Text, codes, is_empty}
use dns_automatic_traffic_sp.Base.Net.{join_host_port}
use dns_automatic_traffic_sp.Settings.{ListenConfig}
use dns_automatic_traffic_sp.Config.Lines.{IsWord}
use dns_automatic_traffic_sp.Config.Listen.Written.{Written, print, host_of, port_of, IsWritten}

-- A section as it may be written: an address, the path of DoH, and the five values.
pub record Section : Type 0 where
  pub address : Text
  pub doh_path : Text
  pub dns_udp : Written
  pub dns_tcp : Written
  pub doh : Written
  pub dot : Written
  pub doq : Written

abbrev pub print_section : Section → ListenConfig
print_section s = record {
  address = s.address;
  dns_udp = print s.dns_udp;
  dns_tcp = print s.dns_tcp;
  doh = print s.doh;
  doh_path = s.doh_path;
  dot = print s.dot;
  doq = print s.doq;
}

-- No white space; the text may be empty.
abbrev pub IsTidy : Text → Type 0
IsTidy s = (s ≡ []) ⊎ IsWord s

pub record IsSection (s : Section) : Type 0 where
  pub address : IsTidy s.address
  pub dns_udp : IsWritten s.dns_udp
  pub dns_tcp : IsWritten s.dns_tcp
  pub doh : IsWritten s.doh
  pub dot : IsWritten s.dot
  pub doq : IsWritten s.doq

abbrev pub first_host : List Written → Text
first_host [] = []
first_host (w ∷ ws) = if is_empty (host_of w) then first_host ws else host_of w

-- The address of the section: its own, or else the first host.
abbrev pub chosen : Section → Text
chosen s =
    if is_empty s.address
    then first_host (s.dns_udp ∷ s.dns_tcp ∷ s.doh ∷ s.dot ∷ s.doq ∷ [])
    else s.address

abbrev pub plain_section : Section → ListenConfig
plain_section s = record {
  address = chosen s;
  dns_udp = port_of s.dns_udp;
  dns_tcp = port_of s.dns_tcp;
  doh = port_of s.doh;
  doh_path = s.doh_path;
  dot = port_of s.dot;
  doq = port_of s.doq;
}

-- Where a server listens; a service without a port has no address.
abbrev pub address_of : Text → Written → Text
address_of host w =
    if is_empty (port_of w)
    then []
    else join_host_port (if is_empty host then codes "0.0.0.0" else host) (port_of w)
