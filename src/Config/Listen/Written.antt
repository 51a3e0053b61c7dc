-- ===== src/Config/Listen/Written.antt =====
-- The values that a listen section may have, as texts, and what becomes of them.
use dns_automatic_traffic_sp.Base.{
  ℕ, ◌≡◌, inl, inr, refl, ap, sym, ◌∙◌, true, false, some, [], ◌∷◌, ◌++◌, arith, reverse,
  Bool-cases, append_assoc, append-nil,
}
use mathlib.Core.List.{reverse-reverse}
use dns_automatic_traffic_sp.Base.Text.{
  Text, codes, is_empty, is_space, has_prefix, trim_prefix, contains, trim_left, trim_space,
}
use dns_automatic_traffic_sp.Base.Net.{
  has_byte, IsPlain, split_host_port, join_host_port, split_host_port-join_host_port,
}
use dns_automatic_traffic_sp.Config.Lines.{IsWord, trim_left-word, reverse-IsWord, All-append}
use dns_automatic_traffic_sp.Config.Listen.{split_trimmed, split_listen_value}

-- A value of the section: none, a port, a port behind a colon, or a host and a port.
pub data Written : Type 0 where
  absent : Written
  port : Text → Written
  colon_port : Text → Written
  host_port : Text → Text → Written

abbrev pub print : Written → Text
print absent = []
print (port p) = p
print (colon_port p) = b':' ∷ p
print (host_port h p) = join_host_port h p

abbrev pub host_of : Written → Text
host_of (host_port h p) = h
host_of w = []

abbrev pub port_of : Written → Text
port_of absent = []
port_of (port p) = p
port_of (colon_port p) = p
port_of (host_port h p) = p

-- A port or a host has no white space and no bracket, and a port no colon.
abbrev pub IsPort : Text → Type 0
IsPort p = IsWord p × IsPlain p × (has_byte b':' p ≡ false)

abbrev pub IsHost : Text → Type 0
IsHost h = IsWord h × IsPlain h

pub data IsWritten : Written → Type 0 where
  is_absent : IsWritten absent
  is_port : {p : Text} → IsPort p → IsWritten (port p)
  is_colon_port : {p : Text} → IsPort p → IsWritten (colon_port p)
  is_host_port : {h p : Text} → IsHost h → IsPort p → IsWritten (host_port h p)

pub trim_space-word : (w : Text) → IsWord w → trim_space w ≡ w
unfolding trim_space
trim_space-word w h =
    ap (λ t. reverse (trim_left (reverse t))) (trim_whole w h)
    ∙ ap reverse (trim_whole (reverse w) (reverse-IsWord w h))
    ∙ reverse-reverse w
  where
    trim_whole : (v : Text) → IsWord v → trim_left v ≡ v
    trim_whole v hv = ap trim_left (sym (append-nil v)) ∙ trim_left-word v [] hv ∙ append-nil v

contains-byte : (c : ℕ) (s : Text) → contains s (c ∷ []) ≡ has_byte c s
unfolding contains has_prefix
contains-byte c [] = refl
contains-byte c (a ∷ []) = ground arith
contains-byte c (a ∷ b ∷ s) = ground (arith, contains-byte c (b ∷ s))

has_byte-middle : (c : ℕ) (s t : Text) → has_byte c (s ++ c ∷ t) ≡ true
has_byte-middle c [] t = ground arith
has_byte-middle c (a ∷ s) t = ground (arith, has_byte-middle c s t)

IsWord-cons : (c : ℕ) (s : Text) → is_space c ≡ false → IsWord s → IsWord (c ∷ s)
IsWord-cons c s h w = (refl, (h, w.1))

IsWord-append : (s t : Text) → IsWord s → IsWord t → IsWord (s ++ t)
IsWord-append [] t h k = k
IsWord-append (c ∷ s) t h k = (refl, All-append (λ d. is_space d ≡ false) (c ∷ s) t h.1 k.1)

joined-IsWord : (h p : Text) → IsWord h → IsWord p → IsWord (join_host_port h p)
unfolding join_host_port
joined-IsWord h p hh hp = elim (Bool-cases (has_byte b':' h)) [
  | inl e ↦ rw e (
      IsWord-cons b'[' (h ++ b']' ∷ b':' ∷ p) refl (
        IsWord-append h (b']' ∷ b':' ∷ p) hh
          (IsWord-cons b']' (b':' ∷ p) refl (IsWord-cons b':' p refl hp))))
  | inr e ↦ rw e (IsWord-append h (b':' ∷ p) hh (IsWord-cons b':' p refl hp))
]

joined-no_prefix : (h p : Text) → IsWord h → has_prefix (join_host_port h p) (codes ":") ≡ false
unfolding join_host_port has_prefix
joined-no_prefix [] p w = ground (arith, w.0)
joined-no_prefix (c ∷ h) p w = ground arith

joined-contains : (h p : Text) → contains (join_host_port h p) (codes ":") ≡ true
unfolding join_host_port
joined-contains h p = elim (Bool-cases (has_byte b':' h)) [
  | inl e ↦ rw e (
      contains-byte b':' (b'[' ∷ (h ++ b']' ∷ b':' ∷ p))
      ∙ ap (has_byte b':') (sym (append_assoc (b'[' ∷ h) (b']' ∷ []) (b':' ∷ p)))
      ∙ has_byte-middle b':' ((b'[' ∷ h) ++ b']' ∷ []) p)
  | inr e ↦ rw e (contains-byte b':' (h ++ b':' ∷ p) ∙ has_byte-middle b':' h p)
]

split_trimmed-joined :
    (v h p : Text)
    → is_empty v ≡ false
    → has_prefix v (codes ":") ≡ false
    → contains v (codes ":") ≡ true
    → split_host_port v ≡ some (h, p)
    → trim_space h ≡ h
    → trim_space p ≡ p
    → split_trimmed v ≡ (h, p)
split_trimmed-joined v h p e q c s th tp = rw (e, q, c, s, th, tp) refl

no_prefix : (c : ℕ) (p : Text) → has_byte c p ≡ false → has_prefix p (c ∷ []) ≡ false
unfolding has_prefix
no_prefix c [] h = refl
no_prefix c (a ∷ p) h = ground (arith, h)

split_trimmed-port : (p : Text) → IsPort p → split_trimmed p ≡ ([], p)
split_trimmed-port p ((some_bytes, word), plain, no_colon) =
    rw (some_bytes, no_prefix b':' p no_colon, contains-byte b':' p, no_colon) refl

pub split_listen_value-print :
    (w : Written) → IsWritten w → split_listen_value (print w) ≡ (host_of w, port_of w)
unfolding split_listen_value trim_prefix has_prefix trim_space trim_left
split_listen_value-print absent is_absent = refl
split_listen_value-print (port p) (is_port h) =
    ap split_trimmed (trim_space-word p h.0) ∙ split_trimmed-port p h
split_listen_value-print (colon_port p) (is_colon_port h) =
    ap split_trimmed (trim_space-word (b':' ∷ p) (IsWord-cons b':' p refl h.0))
    ∙ ap (λ (t : Text). ([], t)) (trim_space-word p h.0)
split_listen_value-print (host_port h p) (is_host_port hh hp) =
    let w = joined-IsWord h p hh.0 hp.0 in
    ap split_trimmed (trim_space-word (join_host_port h p) w)
    ∙ split_trimmed-joined (join_host_port h p) h p w.0 (joined-no_prefix h p hh.0)
        (joined-contains h p) (split_host_port-join_host_port h p hh.1 hp.1 hp.2)
        (trim_space-word h hh.0) (trim_space-word p hp.0)
