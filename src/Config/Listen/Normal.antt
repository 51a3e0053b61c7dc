-- ===== src/Config/Listen/Normal.antt =====
-- A listen section whose values are written in any of the accepted ways, normalised.
use dns_automatic_traffic_sp.Base.{
  ◌≡◌, inl, inr, refl, ap, sym, ◌∙◌, List, [], ◌∷◌, Bool-cases, All, if◌then◌else◌,
}
use dns_automatic_traffic_sp.Base.Text.{Text, is_empty, trim_left, trim_space}
use dns_automatic_traffic_sp.Config.Listen.{
  split_listen_value, resolve_listen_addr, dns_udp_addr, dns_tcp_addr, doh_addr, dot_addr, doq_addr,
  port_or_value, infer, normalize_port, normalize_listen_config,
}
use dns_automatic_traffic_sp.Config.Listen.Written.{
  Written, absent, port, colon_port, host_port, print, host_of, port_of, IsWritten, is_absent,
  is_port, is_colon_port, is_host_port, split_listen_value-print, trim_space-word,
}
use dns_automatic_traffic_sp.Config.Listen.Section.{
  Section, print_section, IsTidy, IsSection, first_host, chosen, plain_section, address_of,
}

trim_space-tidy : (s : Text) → IsTidy s → trim_space s ≡ s
unfolding trim_space trim_left
trim_space-tidy s (inl e) = ap trim_space e ∙ sym e
trim_space-tidy s (inr w) = trim_space-word s w

port_of-kept : (w : Written) → IsWritten w → port_or_value (print w) (port_of w) ≡ port_of w
unfolding trim_space trim_left
port_of-kept absent is_absent = refl
port_of-kept (port p) (is_port h) = rw (h.0.0) refl
port_of-kept (colon_port p) (is_colon_port h) = rw (h.0.0) refl
port_of-kept (host_port a p) (is_host_port k h) = rw (h.0.0) refl

normalize_port-print :
    (address inferred : Text) (w : Written)
    → IsWritten w
    → normalize_port address inferred (print w) ≡ (port_of w, infer address inferred (host_of w))
normalize_port-print address inferred w h =
    ap (λ (t : Text × Text). (port_or_value (print w) t.1, infer address inferred t.0))
      (split_listen_value-print w h)
    ∙ ap (λ p. (p, infer address inferred (host_of w))) (port_of-kept w h)

-- What the values from here on infer.
abbrev pub inferred_from : Text → List Written → Text
inferred_from inferred ws = if is_empty inferred then first_host ws else inferred

inferred_from-infer :
    (inferred : Text) (w : Written) (ws : List Written)
    → inferred_from (infer [] inferred (host_of w)) ws ≡ inferred_from inferred (w ∷ ws)
inferred_from-infer (c ∷ s) w ws = refl
inferred_from-infer [] w ws = elim (Bool-cases (is_empty (host_of w))) [
  | inl e ↦ rw e refl
  | inr e ↦ rw e (rw e refl)
]

inferred_from-nil : (inferred : Text) → inferred ≡ inferred_from inferred []
inferred_from-nil [] = refl
inferred_from-nil (c ∷ s) = refl

-- The five calls of normalizePort, one behind the other.
abbrev inferred_by : Text → Text → List Written → Text
inferred_by address inferred [] = inferred
inferred_by address inferred (w ∷ ws) = inferred_by address (infer address inferred (host_of w)) ws

inferred_by-first_host :
    (inferred : Text) (ws : List Written) → inferred_by [] inferred ws ≡ inferred_from inferred ws
inferred_by-first_host inferred [] = inferred_from-nil inferred
inferred_by-first_host inferred (w ∷ ws) =
    inferred_by-first_host (infer [] inferred (host_of w)) ws ∙ inferred_from-infer inferred w ws

chosen-inferred_by :
    (a : Text) (ws : List Written)
    → (if is_empty a then inferred_by a [] ws else a) ≡ (if is_empty a then first_host ws else a)
chosen-inferred_by [] ws = inferred_by-first_host [] ws
chosen-inferred_by (c ∷ a) ws = refl

normalize_listen_config-print :
    (s : Section) → IsSection s → normalize_listen_config (print_section s) ≡ plain_section s
unfolding normalize_listen_config
normalize_listen_config-print s h =
    rw
      (
        trim_space-tidy s.address h.address,
        split_listen_value-print s.dns_udp h.dns_udp,
        split_listen_value-print s.dns_tcp h.dns_tcp,
        split_listen_value-print s.doh h.doh,
        split_listen_value-print s.dot h.dot,
        split_listen_value-print s.doq h.doq,
        port_of-kept s.dns_udp h.dns_udp,
        port_of-kept s.dns_tcp h.dns_tcp,
        port_of-kept s.doh h.doh,
        port_of-kept s.dot h.dot,
        port_of-kept s.doq h.doq,
      )
      (ap (λ t. record (plain_section s) { address = t })
        (chosen-inferred_by s.address (s.dns_udp ∷ s.dns_tcp ∷ s.doh ∷ s.dot ∷ s.doq ∷ [])))

first_hosts-IsTidy : (ws : List Written) → All IsWritten ws → IsTidy (first_host ws)
first_hosts-IsTidy [] hs = inl refl
first_hosts-IsTidy (w ∷ ws) hs = by_value w hs.0 (first_hosts-IsTidy ws hs.1)
  where
    by_value : (w : Written) → IsWritten w → IsTidy (first_host ws) → IsTidy (first_host (w ∷ ws))
    by_value absent is_absent t = t
    by_value (port p) (is_port h) t = t
    by_value (colon_port p) (is_colon_port h) t = t
    by_value (host_port a p) (is_host_port h k) t = rw (h.0.0) (inr h.0)

chosen-IsTidy : (s : Section) → IsSection s → IsTidy (chosen s)
chosen-IsTidy s h = own s.address h.address
  where
    hosts : List Written
    hosts = s.dns_udp ∷ s.dns_tcp ∷ s.doh ∷ s.dot ∷ s.doq ∷ []

    own : (a : Text) → IsTidy a → IsTidy (if is_empty a then first_host hosts else a)
    own [] t = first_hosts-IsTidy hosts (h.dns_udp, (h.dns_tcp, (h.doh, (h.dot, (h.doq, tt)))))
    own (c ∷ a) t = t

-- A port that stands alone is read as itself.
split_listen_value-port_of :
    (w : Written) → IsWritten w → split_listen_value (port_of w) ≡ ([], port_of w)
split_listen_value-port_of absent is_absent = split_listen_value-print absent is_absent
split_listen_value-port_of (port p) (is_port h) = split_listen_value-print (port p) (is_port h)
split_listen_value-port_of (colon_port p) (is_colon_port h) =
    split_listen_value-print (port p) (is_port h)
split_listen_value-port_of (host_port a p) (is_host_port k h) =
    split_listen_value-print (port p) (is_port h)

port_of-twice : (w : Written) → IsWritten w → port_or_value (port_of w) (port_of w) ≡ port_of w
port_of-twice absent is_absent = port_of-kept absent is_absent
port_of-twice (port p) (is_port h) = port_of-kept (port p) (is_port h)
port_of-twice (colon_port p) (is_colon_port h) = port_of-kept (port p) (is_port h)
port_of-twice (host_port a p) (is_host_port k h) = port_of-kept (port p) (is_port h)

no_hosts :
    (a : Text)
    → (if is_empty a then inferred_by a [] (absent ∷ absent ∷ absent ∷ absent ∷ absent ∷ []) else a)
      ≡ a
no_hosts [] = refl
no_hosts (c ∷ a) = refl

normalize_listen_config-plain :
    (s : Section) → IsSection s → normalize_listen_config (plain_section s) ≡ plain_section s
unfolding normalize_listen_config
normalize_listen_config-plain s h =
    rw
      (
        trim_space-tidy (chosen s) (chosen-IsTidy s h),
        split_listen_value-port_of s.dns_udp h.dns_udp,
        split_listen_value-port_of s.dns_tcp h.dns_tcp,
        split_listen_value-port_of s.doh h.doh,
        split_listen_value-port_of s.dot h.dot,
        split_listen_value-port_of s.doq h.doq,
        port_of-twice s.dns_udp h.dns_udp,
        port_of-twice s.dns_tcp h.dns_tcp,
        port_of-twice s.doh h.doh,
        port_of-twice s.dot h.dot,
        port_of-twice s.doq h.doq,
      )
      (ap (λ t. record (plain_section s) { address = t }) (no_hosts (chosen s)))

resolve_listen_addr-port_of :
    (s : Section) (w : Written)
    → IsSection s
    → IsWritten w
    → resolve_listen_addr (chosen s) (port_of w) ≡ address_of (chosen s) w
unfolding resolve_listen_addr
resolve_listen_addr-port_of s w h k =
    rw (trim_space-tidy (chosen s) (chosen-IsTidy s h), split_listen_value-port_of w k) refl

-- A listen section whose address is empty or has no white space, and whose five values are each
-- empty, a port, a port behind a colon, or what JoinHostPort makes of a host and a port (ports and
-- hosts are not empty and have no white space and no square bracket, ports no colon; a host may be an
-- IPv6 address). Normalising it leaves the ports alone, under the section's own address or else the
-- first host of the values in their order. Normalising again changes nothing. Each service then
-- listens on that address, or on 0.0.0.0 if there is none, at the port of its value, and has no
-- address if its value is empty.
pub normalize_listen_config-print_section :
    (s : Section)
    → IsSection s
    → let l = normalize_listen_config (print_section s) in
      (l ≡ plain_section s)
      × (normalize_listen_config l ≡ l)
      × (dns_udp_addr l ≡ address_of (chosen s) s.dns_udp)
      × (dns_tcp_addr l ≡ address_of (chosen s) s.dns_tcp)
      × (doh_addr l ≡ address_of (chosen s) s.doh)
      × (dot_addr l ≡ address_of (chosen s) s.dot)
      × (doq_addr l ≡ address_of (chosen s) s.doq)
normalize_listen_config-print_section s h =
    let e = normalize_listen_config-print s h in
    (
      e,
      ap normalize_listen_config e ∙ normalize_listen_config-plain s h ∙ sym e,
      ap (λ l. dns_udp_addr l) e ∙ resolve_listen_addr-port_of s s.dns_udp h h.dns_udp,
      ap (λ l. dns_tcp_addr l) e ∙ resolve_listen_addr-port_of s s.dns_tcp h h.dns_tcp,
      ap (λ l. doh_addr l) e ∙ resolve_listen_addr-port_of s s.doh h h.doh,
      ap (λ l. dot_addr l) e ∙ resolve_listen_addr-port_of s s.dot h h.dot,
      ap (λ l. doq_addr l) e ∙ resolve_listen_addr-port_of s s.doq h h.doq,
    )
