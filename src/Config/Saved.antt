-- ===== src/Config/Saved.antt =====
-- What saving hosts.txt and rule.txt writes, read back by loading them.
use dns_automatic_traffic_sp.Base.{
  ltb, length, ℕ, ◌≡◌, refl, ap, ap₂, sym, ◌∙◌, Bool, true, false, ◌||◌, Option, none, some, List,
  [], ◌∷◌, ◌++◌, arith, any, All, is_some, if◌then◌else◌, ◌==◌,
}
use dns_automatic_traffic_sp.Base.Text.{
  Text, codes, text_eq, text_eq_iff, text_eq_refl, has_prefix, to_lower, is_space, trim_suffix,
}
use dns_automatic_traffic_sp.Base.Maps.{Map, lookup, insert, lookup-insert}
use dns_automatic_traffic_sp.Base.Scanner.{Scanned, max_token, segments, drop_cr, scan_lines}
use dns_automatic_traffic_sp.Config.{
  load_line, load_lines, load_hosts_file, load_rules_file, add_hosts, add_rule, insert_sorted,
  sort_texts, keys, value_at, write_pairs, marshal_pairs, hosts_line, rules_line, save_hosts_file,
  save_rules_file, is_skipped,
}
use dns_automatic_traffic_sp.Config.Lines.{
  IsWord, IsLine, fields-two, trim_space-two, scan_lines-line,
}

insert_sorted-any :
    (p : Text → Bool) (k : Text) (ks : List Text) → any p (insert_sorted k ks) ≡ p k || any p ks
unfolding insert_sorted
insert_sorted-any p k [] = refl
insert_sorted-any p k (j ∷ ks) = ground (arith, insert_sorted-any p k ks)

sort_texts-any : (p : Text → Bool) (ks : List Text) → any p (sort_texts ks) ≡ any p ks
unfolding sort_texts
sort_texts-any p [] = refl
sort_texts-any p (k ∷ ks) =
    insert_sorted-any p k (sort_texts ks) ∙ ap (λ b. p k || b) (sort_texts-any p ks)

keys-any : (j : Text) (m : Map Text) → any (λ u. text_eq u j) (keys m) ≡ is_some (lookup j m)
unfolding lookup
keys-any j [] = refl
keys-any j ((k, v) ∷ m) = ground (arith, keys-any j m)

-- A pair whose line is read back as this pair.
abbrev IsRead : (List Text → Map Text → Map Text) → (Text → Text → Text) → Text → Text → Type 0
IsRead add line k v =
    IsLine (line k v) × ((m : Map Text) → load_line add (line k v) m ≡ insert k v m)

pick :
    (b found : Bool) (x y : Text) (r inserted : Option Text)
    → inserted ≡ (if b then some x else r)
    → (b ≡ true → x ≡ y)
    → (if found then some y else inserted) ≡ (if b || found then some y else r)
pick true true x y r inserted e same = refl
pick true false x y r inserted e same = e ∙ ap some (same refl)
pick false true x y r inserted e same = refl
pick false false x y r inserted e same = e

module _ (add : List Text → Map Text → Map Text) (line : Text → Text → Text) (m : Map Text) where
  write_pairs-load :
      (ks : List Text) (acc : Map Text) (j : Text)
      → ((k : Text) → any (λ u. text_eq u k) ks ≡ true → IsRead add line k (value_at m k))
      → lookup j (load_lines add (scan_lines (write_pairs line m ks)).0 acc)
        ≡ (if any (λ u. text_eq u j) ks then some (value_at m j) else lookup j acc)
  unfolding write_pairs load_lines scan_lines segments
  write_pairs-load [] acc j h = refl
  write_pairs-load (k ∷ ks) acc j h =
      let (is_line, read) = h k (ground (arith, text_eq_refl k)) in
      let v = value_at m k in
      let rest = (scan_lines (write_pairs line m ks)).0 in
      ap (λ (ls : Scanned). lookup j (load_lines add ls.0 acc))
        (scan_lines-line (line k v) (write_pairs line m ks) is_line)
      ∙ ap (λ a. lookup j (load_lines add rest a)) (read acc)
      ∙ write_pairs-load ks (insert k v acc) j (λ i found. h i (ground arith))
      ∙ pick (text_eq k j) (any (λ u. text_eq u j) ks) v (value_at m j) (lookup j acc)
          (lookup j (insert k v acc)) (lookup-insert k j v acc)
          (λ same. ap (value_at m) ((text_eq_iff k j).0 same))

  write_pairs-scan_lines :
      (ks : List Text)
      → ((k : Text) → any (λ u. text_eq u k) ks ≡ true → IsRead add line k (value_at m k))
      → (scan_lines (write_pairs line m ks)).1 ≡ none
  unfolding write_pairs scan_lines segments
  write_pairs-scan_lines [] h = refl
  write_pairs-scan_lines (k ∷ ks) h =
      let (is_line, read) = h k (ground (arith, text_eq_refl k)) in
      ap (λ (ls : Scanned). ls.1)
        (scan_lines-line (line k (value_at m k)) (write_pairs line m ks) is_line)
      ∙ write_pairs-scan_lines ks (λ i found. h i (ground arith))

  sorted-keys : (k : Text) → any (λ u. text_eq u k) (sort_texts (keys m)) ≡ is_some (lookup k m)
  sorted-keys k = sort_texts-any (λ u. text_eq u k) (keys m) ∙ keys-any k m

  marshal_pairs-load :
      (j : Text)
      → ((k v : Text) → lookup k m ≡ some v → IsRead add line k v)
      → (lookup j (load_lines add (scan_lines (marshal_pairs m line)).0 []) ≡ lookup j m)
        × ((scan_lines (marshal_pairs m line)).1 ≡ none)
  unfolding marshal_pairs lookup
  marshal_pairs-load j h = (
    write_pairs-load (sort_texts (keys m)) [] j each
        ∙ ap (λ b. if b then some (value_at m j) else none) (sorted-keys j)
        ∙ present (lookup j m),
    write_pairs-scan_lines (sort_texts (keys m)) each,
  )
    where
      of_value :
          (k : Text) (o : Option Text)
          → lookup k m ≡ o
          → is_some o ≡ true
          → IsRead add line k (value_at m k)
      of_value k none e found = ground arith
      of_value k (some v) e found = rw (value_at, e) (h k v e)

      each :
          (k : Text)
          → any (λ u. text_eq u k) (sort_texts (keys m)) ≡ true
          → IsRead add line k (value_at m k)
      each k found = of_value k (lookup k m) refl (sym (sorted-keys k) ∙ found)

      present :
          (o : Option Text)
          → (if is_some o then some (elim o [ none ↦ [] | some v ↦ v ]) else none) ≡ o
      present none = refl
      present (some v) = refl

word-solid : (c : ℕ) → is_space c ≡ false → (c == 10) ≡ false
word-solid c h = ground arith

words-IsLine : (u v : Text) → IsWord u → IsWord v → All (λ c. (c == 10) ≡ false) (u ++ b' ' ∷ v)
words-IsLine u v hu hv = All-join u hu.1
  where
    All-solid : (w : Text) → All (λ c. is_space c ≡ false) w → All (λ c. (c == 10) ≡ false) w
    All-solid [] h = tt
    All-solid (c ∷ w) h = (word-solid c h.0, All-solid w h.1)

    All-join :
        (w : Text) → All (λ c. is_space c ≡ false) w → All (λ c. (c == 10) ≡ false) (w ++ b' ' ∷ v)
    All-join [] h = (refl, All-solid v hv.1)
    All-join (c ∷ w) h = (word-solid c h.0, All-join w h.1)

trim_suffix-word : (w : Text) → All (λ c. is_space c ≡ false) w → drop_cr w ≡ w
unfolding trim_suffix
trim_suffix-word [] h = refl
trim_suffix-word (c ∷ []) h = ground (arith, h.0)
trim_suffix-word (c ∷ d ∷ w) h = ap (λ (t : Text). c ∷ t) (trim_suffix-word (d ∷ w) h.1)

trim_suffix-append :
    (u : Text) (b : ℕ) (v : Text) → drop_cr (b ∷ v) ≡ b ∷ v → drop_cr (u ++ b ∷ v) ≡ u ++ b ∷ v
unfolding trim_suffix
trim_suffix-append [] b v h = h
trim_suffix-append (a ∷ []) b v h = ap (λ (t : Text). a ∷ t) h
trim_suffix-append (a ∷ c ∷ u) b v h = ap (λ (t : Text). a ∷ t) (trim_suffix-append (c ∷ u) b v h)

two-drop_cr : (u v : Text) → IsWord v → drop_cr (u ++ b' ' ∷ v) ≡ u ++ b' ' ∷ v
unfolding trim_suffix
two-drop_cr u [] h = ground (arith, h.0)
two-drop_cr u (c ∷ v) h =
    trim_suffix-append u b' ' (c ∷ v) (ap (λ (t : Text). b' ' ∷ t) (trim_suffix-word (c ∷ v) h.1))

two-skipped :
    (u v : Text) → IsWord u → has_prefix u (codes "#") ≡ false → is_skipped (u ++ b' ' ∷ v) ≡ false
unfolding has_prefix
two-skipped [] v h plain = ground (arith, h.0)
two-skipped (c ∷ u) v h plain = plain

-- A line of two words, the first of which does not begin with `#`, is read as these words.
two-load :
    (add : List Text → Map Text → Map Text) (u v : Text) (m : Map Text)
    → IsWord u
    → IsWord v
    → has_prefix u (codes "#") ≡ false
    → load_line add (u ++ b' ' ∷ v) m ≡ add (u ∷ v ∷ []) m
unfolding load_line
two-load add u v m hu hv plain =
    rw (trim_space-two u v hu hv, two-skipped u v hu plain, fields-two u v hu hv) refl

-- ASCII only, since other white space and letters also count in Go.
abbrev pub IsAscii : Text → Type 0
IsAscii s = All (λ c. ltb c 128 ≡ true) s

-- Pairs that the file format can hold: words in lower case, no line that is a comment, and a line
-- that the scanner can read.
pub record IsRule (domain target : Text) : Type 0 where
  pub domain_word : IsWord domain
  pub target_word : IsWord target
  pub domain_lower : to_lower domain ≡ domain
  pub target_lower : to_lower target ≡ target
  pub no_comment : has_prefix domain (codes "#") ≡ false
  pub domain_ascii : IsAscii domain
  pub target_ascii : IsAscii target
  pub fits : ltb (length (rules_line domain target)) max_token ≡ true

pub record IsHost (domain ip : Text) : Type 0 where
  pub domain_word : IsWord domain
  pub ip_word : IsWord ip
  pub domain_lower : to_lower domain ≡ domain
  pub no_comment : has_prefix ip (codes "#") ≡ false
  pub domain_ascii : IsAscii domain
  pub ip_ascii : IsAscii ip
  pub fits : ltb (length (hosts_line domain ip)) max_token ≡ true

-- Rules whose domains and targets are words of ASCII in lower case, where no domain begins with `#` and
-- no line has 65,536 bytes or more, are read back from rule.txt as they were saved, without an error:
-- every domain has the same target, or none.
pub save_rules_file-load_rules_file :
    (rules : Map Text) (domain : Text)
    → ((k v : Text) → lookup k rules ≡ some v → IsRule k v)
    → (lookup domain (load_rules_file (save_rules_file rules) []).0 ≡ lookup domain rules)
      × ((load_rules_file (save_rules_file rules) []).1 ≡ none)
unfolding load_rules_file save_rules_file
save_rules_file-load_rules_file rules domain h =
    marshal_pairs-load add_rule rules_line rules domain (λ k v e. read k v (h k v e))
  where
    read : (k v : Text) → IsRule k v → IsRead add_rule rules_line k v
    read k v g = (
      (words-IsLine k v g.domain_word g.target_word, two-drop_cr k v g.target_word, g.fits),
      λ m.
          two-load add_rule k v m g.domain_word g.target_word g.no_comment
          ∙ ap₂ (λ (a b : Text). insert a b m) g.domain_lower g.target_lower,
    )

-- Hosts whose domains are words of ASCII in lower case, and whose addresses are words of ASCII that do
-- not begin with `#`, where no line has 65,536 bytes or more, are read back from hosts.txt as they were
-- saved, without an error.
pub save_hosts_file-load_hosts_file :
    (hosts : Map Text) (domain : Text)
    → ((k v : Text) → lookup k hosts ≡ some v → IsHost k v)
    → (lookup domain (load_hosts_file (save_hosts_file hosts) []).0 ≡ lookup domain hosts)
      × ((load_hosts_file (save_hosts_file hosts) []).1 ≡ none)
unfolding load_hosts_file save_hosts_file
save_hosts_file-load_hosts_file hosts domain h =
    marshal_pairs-load add_hosts hosts_line hosts domain (λ k v e. read k v (h k v e))
  where
    read : (k v : Text) → IsHost k v → IsRead add_hosts hosts_line k v
    read k v g = (
      (words-IsLine v k g.ip_word g.domain_word, two-drop_cr v k g.domain_word, g.fits),
      λ m.
          two-load add_hosts v k m g.ip_word g.domain_word g.no_comment
          ∙ ap (λ (a : Text). insert a v m) g.domain_lower,
    )
