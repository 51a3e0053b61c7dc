-- ===== src/Config/Listen.antt =====
-- internal/config/config.go: the listen section. Each value is a port, or a host and a port as older
-- files have it; normalizeListenConfig keeps the ports and takes the address from the first host.
pub mod Written
pub mod Section
pub mod Normal
use dns_automatic_traffic_sp.Base.{
  ℕ, suc, ◌+◌, Bool, true, false, ◌&&◌, not, Option, none, some, List, [], ◌∷◌, ◌++◌, ◌==◌,
  if◌then◌else◌,
}
use dns_automatic_traffic_sp.Base.Text.{
  Text, codes, is_empty, has_prefix, trim_prefix, contains, cut, trim_space,
}
use dns_automatic_traffic_sp.Base.Net.{split_host_port, join_host_port}
use dns_automatic_traffic_sp.Settings.{ListenConfig}

-- strings.Count of a text of one byte
unfoldable pub count_byte : ℕ → Text → ℕ
count_byte c [] = 0
count_byte c (a ∷ s) = if a == c then suc (count_byte c s) else count_byte c s

-- strings.SplitN at the first colon; a text without a colon does not come here.
abbrev pub two_parts : Text → Text × Text
two_parts value = elim (cut b':' value) [
  | none ↦ (value, [])
  | some (u, v) ↦ (trim_space u, trim_space v)
]

abbrev pub split_failed : Text → Text × Text
split_failed value = if count_byte b':' value == 1 then two_parts value else ([], value)

abbrev pub split_colon : Option (Text × Text) → Text → Text × Text
split_colon none value = split_failed value
split_colon (some (host, port)) value = (trim_space host, trim_space port)

-- splitListenValue behind the first TrimSpace.
abbrev pub split_trimmed : Text → Text × Text
split_trimmed value =
    if is_empty value
    then ([], [])
    else if has_prefix value (codes ":")
    then ([], trim_space (trim_prefix value (codes ":")))
    else if not (contains value (codes ":"))
    then ([], value)
    else split_colon (split_host_port value) value

unfoldable pub split_listen_value : Text → Text × Text
unfolding count_byte
split_listen_value value = split_trimmed (trim_space value)

unfoldable pub resolve_listen_addr : Text → Text → Text
unfolding split_listen_value
resolve_listen_addr address value =
    let port = (split_listen_value value).1 in
    let host = trim_space address in
    if is_empty port
    then []
    else join_host_port (if is_empty host then codes "0.0.0.0" else host) port

abbrev pub dns_udp_addr : ListenConfig → Text
dns_udp_addr l = resolve_listen_addr l.address l.dns_udp

abbrev pub dns_tcp_addr : ListenConfig → Text
dns_tcp_addr l = resolve_listen_addr l.address l.dns_tcp

abbrev pub doh_addr : ListenConfig → Text
doh_addr l = resolve_listen_addr l.address l.doh

abbrev pub dot_addr : ListenConfig → Text
dot_addr l = resolve_listen_addr l.address l.dot

abbrev pub doq_addr : ListenConfig → Text
doq_addr l = resolve_listen_addr l.address l.doq

-- What normalizePort writes back.
abbrev pub port_or_value : Text → Text → Text
port_or_value value port = if is_empty port then trim_space value else port

-- inferredAddress behind one call of normalizePort, which finds `host`.
abbrev pub infer : Text → Text → Text → Text
infer address inferred host =
    if is_empty address && is_empty inferred && not (is_empty host) then host else inferred

abbrev pub normalize_port : Text → Text → Text → Text × Text
normalize_port address inferred value =
    let (host, port) = split_listen_value value in
    (port_or_value value port, infer address inferred host)

-- normalizeListenConfig; it does nothing for nil.
unfoldable pub normalize_listen_config : ListenConfig → ListenConfig
normalize_listen_config l =
    let address = trim_space l.address in
    let (dns_udp, a1) = normalize_port address [] l.dns_udp in
    let (dns_tcp, a2) = normalize_port address a1 l.dns_tcp in
    let (doh, a3) = normalize_port address a2 l.doh in
    let (dot, a4) = normalize_port address a3 l.dot in
    let (doq, a5) = normalize_port address a4 l.doq in
    record l {
      address = if is_empty address then a5 else address;
      dns_udp = dns_udp;
      dns_tcp = dns_tcp;
      doh = doh;
      dot = dot;
      doq = doq;
    }
