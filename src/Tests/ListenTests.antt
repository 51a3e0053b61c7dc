-- ===== src/Tests/ListenTests.antt =====
-- A listen section that is written in several ways: the first host is an IPv6 address.
use dns_automatic_traffic_sp.Base.{◌≡◌, refl, [], inl}
use dns_automatic_traffic_sp.Base.Text.{codes}
use dns_automatic_traffic_sp.Config.Listen.{
  dns_udp_addr, dns_tcp_addr, doh_addr, dot_addr, doq_addr, normalize_listen_config,
}
use dns_automatic_traffic_sp.Config.Listen.Written.{
  absent, port, colon_port, host_port, IsPort, IsHost, is_absent, is_port, is_colon_port,
  is_host_port,
}
use dns_automatic_traffic_sp.Config.Listen.Section.{
  Section, print_section, IsSection, plain_section, address_of,
}
use dns_automatic_traffic_sp.Config.Listen.Normal.{normalize_listen_config-print_section}

abbrev pub listen : Section
listen = record {
  address = [];
  doh_path = codes "/dns-query";
  dns_udp = port (codes "53");
  dns_tcp = absent;
  doh = host_port (codes "::1") (codes "443");
  dot = colon_port (codes "853");
  doq = host_port (codes "lan") (codes "8853");
}

port53-IsPort : IsPort (codes "53")
port53-IsPort = ((refl, (refl, (refl, tt))), (refl, refl), refl)

port443-IsPort : IsPort (codes "443")
port443-IsPort = ((refl, (refl, (refl, (refl, tt)))), (refl, refl), refl)

port853-IsPort : IsPort (codes "853")
port853-IsPort = ((refl, (refl, (refl, (refl, tt)))), (refl, refl), refl)

port8853-IsPort : IsPort (codes "8853")
port8853-IsPort = ((refl, (refl, (refl, (refl, (refl, tt))))), (refl, refl), refl)

v6-IsHost : IsHost (codes "::1")
v6-IsHost = ((refl, (refl, (refl, (refl, tt)))), (refl, refl))

lan-IsHost : IsHost (codes "lan")
lan-IsHost = ((refl, (refl, (refl, (refl, tt)))), (refl, refl))

pub listen-IsSection : IsSection listen
listen-IsSection = record {
  address = inl refl;
  dns_udp = is_port port53-IsPort;
  dns_tcp = is_absent;
  doh = is_host_port v6-IsHost port443-IsPort;
  dot = is_colon_port port853-IsPort;
  doq = is_host_port lan-IsHost port8853-IsPort;
}

normalize_listen_config-print_section_example :
    let l = normalize_listen_config (print_section listen) in
    (l ≡ plain_section listen)
    × (normalize_listen_config l ≡ l)
    × (dns_udp_addr l ≡ address_of (codes "::1") listen.dns_udp)
    × (dns_tcp_addr l ≡ [])
    × (doh_addr l ≡ address_of (codes "::1") listen.doh)
    × (dot_addr l ≡ address_of (codes "::1") listen.dot)
    × (doq_addr l ≡ address_of (codes "::1") listen.doq)
normalize_listen_config-print_section_example =
    normalize_listen_config-print_section listen listen-IsSection
