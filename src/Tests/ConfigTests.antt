-- ===== src/Tests/ConfigTests.antt =====
-- One rule and one host, saved and loaded, and a configuration with them.
use dns_automatic_traffic_sp.Base.{
  ◌+◌, ◌++◌, false, drop, length, none, ◌≡◌, refl, some, [], ◌∷◌, arith, inl, inr, Bool-cases,
  subst,
}
use mathlib.Core.Option.{some-injective}
use dns_automatic_traffic_sp.Base.Text.{Text, codes, text_eq, text_eq_iff, has_prefix}
use dns_automatic_traffic_sp.Base.Maps.{lookup}
use dns_automatic_traffic_sp.Config.{
  load_rules_file, save_rules_file, load_hosts_file, save_hosts_file,
}
use dns_automatic_traffic_sp.Config.Saved.{
  IsRule, IsHost, save_rules_file-load_rules_file, save_hosts_file-load_hosts_file,
}
use dns_automatic_traffic_sp.Settings.{Config}
use dns_automatic_traffic_sp.Config.Listen.{normalize_listen_config}
use dns_automatic_traffic_sp.Config.Listen.Section.{print_section}
use dns_automatic_traffic_sp.Config.Listen.Normal.{normalize_listen_config-print_section}
use dns_automatic_traffic_sp.Config.Stored.{
  Fields, field, no_fields, scalar, mapping, find_field, Yaml, Paths, has_nested_key, has_key_below,
  load_config, save,
}
use dns_automatic_traffic_sp.Config.Stored.Reload.{
  IsStorable, IsPlaced, within, outside, IsReloaded, nothing_fails, save-load_config,
}
use dns_automatic_traffic_sp.Tests.ListenTests.{listen, listen-IsSection}

-- What holds of the only pair of a map holds of each that is found in it.
only_pair :
    (P : Text → Text → Type 0) (a b k v : Text) → P a b → lookup k ((a, b) ∷ []) ≡ some v → P k v
unfolding lookup
only_pair P a b k v p e = elim (Bool-cases (text_eq a k)) [
  | inl same ↦
      subst (λ t. P t v) ((text_eq_iff a k).0 same)
        (subst (λ t. P a t) (some-injective b v (rw same at e)) p)
  | inr other ↦ ground (arith, rw other at e)
]

rule : IsRule (codes "a.cn") (codes "cn")
unfolding has_prefix
rule = record {
  domain_word = (refl, (refl, (refl, (refl, (refl, tt)))));
  target_word = (refl, (refl, (refl, tt)));
  domain_lower = refl;
  target_lower = refl;
  no_comment = refl;
  domain_ascii = (refl, (refl, (refl, (refl, tt))));
  target_ascii = (refl, (refl, tt));
  fits = refl;
}

save_rules_file-load_rules_file_example :
    let r = load_rules_file (save_rules_file ((codes "a.cn", codes "cn") ∷ [])) [] in
    (lookup (codes "a.cn") r.0 ≡ some (codes "cn")) × (r.1 ≡ none)
unfolding lookup text_eq
save_rules_file-load_rules_file_example =
    save_rules_file-load_rules_file ((codes "a.cn", codes "cn") ∷ []) (codes "a.cn")
      (λ k v e. only_pair IsRule (codes "a.cn") (codes "cn") k v rule e)

host : IsHost (codes "nas") (codes "10.0.0.2")
unfolding has_prefix
host = record {
  domain_word = (refl, (refl, (refl, (refl, tt))));
  ip_word = (refl, (refl, (refl, (refl, (refl, (refl, (refl, (refl, (refl, tt)))))))));
  domain_lower = refl;
  no_comment = refl;
  domain_ascii = (refl, (refl, (refl, tt)));
  ip_ascii = (refl, (refl, (refl, (refl, (refl, (refl, (refl, (refl, tt))))))));
  fits = refl;
}

save_hosts_file-load_hosts_file_example :
    let r = load_hosts_file (save_hosts_file ((codes "nas", codes "10.0.0.2") ∷ [])) [] in
    (lookup (codes "nas") r.0 ≡ some (codes "10.0.0.2")) × (r.1 ≡ none)
unfolding lookup text_eq
save_hosts_file-load_hosts_file_example =
    save_hosts_file-load_hosts_file ((codes "nas", codes "10.0.0.2") ∷ []) (codes "nas")
      (λ k v e. only_pair IsHost (codes "nas") (codes "10.0.0.2") k v host e)

abbrev linux : Paths
linux = record {
  abs = λ p. some p;
  dir = λ p. codes "/etc";
  join = λ d p. d ++ b'/' ∷ p;
  is_abs = λ p. has_prefix p (codes "/");
  rel = λ d p. some (drop (length d + 1) p);
}

abbrev config : Config
config = record {
  listen = normalize_listen_config (print_section listen);
  hosts = (codes "nas", codes "10.0.0.2") ∷ [];
  rules = (codes "a.cn", codes "cn") ∷ [];
  geo_data = record {
    geoip_dat = codes "/etc/ip.dat";
    geosite_dat = codes "/var/site.dat";
    geoip_url = [];
    geosite_url = [];
    auto_update = [];
  };
  auto_cert = record { enabled = false; email = []; domains = []; cert_dir = [] };
  web_ui = record { username = []; password = []; guest_mode = false };
  query_log = record {
    enabled = false;
    max_history = 100;
    file = [];
    max_size_mb = 1;
    save_to_file = false;
  };
  config_dir = [];
}

abbrev raw : Fields
raw =
    field (codes "query_log") (mapping (field (codes "enabled") (scalar (codes "false")) no_fields))
      no_fields

-- The document that is written for `config`, without its hosts and rules.
abbrev document : Config
document = record config {
  listen = normalize_listen_config (normalize_listen_config (print_section listen));
  geo_data = record config.geo_data { geoip_dat = codes "ip.dat" };
  hosts = [];
  rules = [];
}

abbrev one_document : Yaml
one_document = record {
  marshal = λ c. some (codes "query_log: {enabled: false}");
  unmarshal = λ s. some document;
  inspect = λ s. some raw;
}

config-IsStorable :
    IsStorable one_document linux
      (codes "/etc/c.yaml")
      (codes "/etc/c.yaml")
      (codes "query_log: {enabled: false}")
      raw
      config
unfolding has_prefix has_nested_key has_key_below find_field text_eq
config-IsStorable = record {
  abs = refl;
  marshal = refl;
  unmarshal = refl;
  inspect = refl;
  key = refl;
  hosts_name = refl;
  rules_name = refl;
  names = refl;
}

geoip-IsPlaced : IsPlaced linux (codes "/etc") (codes "/etc/ip.dat")
unfolding has_prefix
geoip-IsPlaced = within (codes "ip.dat") refl refl refl refl

geosite-IsPlaced : IsPlaced linux (codes "/etc") (codes "/var/site.dat")
unfolding has_prefix
geosite-IsPlaced = outside refl refl refl

save-load_config_example :
    let saved = save one_document linux nothing_fails config (codes "/etc/c.yaml") [] in
    (saved.1 ≡ none)
    × ((c' : Config) × (load_config one_document linux nothing_fails saved.0 (codes "/etc/c.yaml")
          ≡ inl c')
        × IsReloaded (codes "/etc") config c')
save-load_config_example =
    save-load_config one_document linux (codes "/etc/c.yaml") (codes "/etc/c.yaml")
      (codes "query_log: {enabled: false}") raw config [] config-IsStorable
      (normalize_listen_config-print_section listen listen-IsSection).1 geoip-IsPlaced
      geosite-IsPlaced refl (λ k v e. only_pair IsHost (codes "nas") (codes "10.0.0.2") k v host e)
      (λ k v e. only_pair IsRule (codes "a.cn") (codes "cn") k v rule e)
