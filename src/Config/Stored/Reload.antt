-- ===== src/Config/Stored/Reload.antt =====
-- A configuration that is saved and loaded again.
use dns_automatic_traffic_sp.Base.{
  ◌≡◌, inl, refl, ap, ap₂, ◌∙◌, Bool, true, false, Option, none, some, [], ◌∷◌, if◌then◌else◌,
  is_positive64,
}
use dns_automatic_traffic_sp.Base.Text.{Text, codes, is_empty, has_prefix, text_eq, text_eq_refl}
use dns_automatic_traffic_sp.Base.Scanner.{ScanError}
use dns_automatic_traffic_sp.Base.Maps.{Map, lookup, insert, lookup-insert}
use dns_automatic_traffic_sp.Settings.{Config}
use dns_automatic_traffic_sp.Config.{
  load_hosts_file, load_rules_file, save_hosts_file, save_rules_file,
}
use dns_automatic_traffic_sp.Config.Saved.{
  IsRule, IsHost, save_rules_file-load_rules_file, save_hosts_file-load_hosts_file,
}
use dns_automatic_traffic_sp.Config.Listen.{normalize_listen_config}
use dns_automatic_traffic_sp.Config.Stored.{
  without_error, Fields, Yaml, Paths, StoreError, has_nested_key, with_defaults, hosts_path,
  rules_path, resolve_path, or_default, resolve_geo, load_config, rel_path, stored, save_data,
  save_at, save,
}

abbrev pub nothing_fails : Text → Bool
nothing_fails path = false

-- A path of the directory that Rel takes apart again, or an absolute one that does not begin with it.
pub data IsPlaced (paths : Paths) (dir : Text) : Text → Type 0 where
  within :
      (r : Text)
      → is_empty r ≡ false
      → paths.is_abs r ≡ false
      → has_prefix (paths.join dir r) dir ≡ true
      → paths.rel dir (paths.join dir r) ≡ some r
      → IsPlaced paths dir (paths.join dir r)
  outside :
      {p : Text}
      → is_empty p ≡ false
      → paths.is_abs p ≡ true
      → has_prefix p dir ≡ false
      → IsPlaced paths dir p

-- What YAML and the paths do on the way of one configuration: the document can be encoded, and
-- decodes to the same without the fields that are not part of it.
pub record IsStorable (yaml : Yaml) (paths : Paths) (path file text : Text) (raw : Fields)
    (c : Config) : Type 0 where
  pub abs : paths.abs path ≡ some file
  pub marshal : yaml.marshal (stored yaml paths (paths.dir file) c) ≡ some text
  pub unmarshal :
      yaml.unmarshal text
      ≡ some (record (stored yaml paths (paths.dir file) c) {
        hosts = [];
        rules = [];
        config_dir = [];
      })
  pub inspect : yaml.inspect text ≡ some raw
  pub key : has_nested_key raw (codes "query_log" ∷ codes "enabled" ∷ []) ≡ true
  pub hosts_name : text_eq (hosts_path yaml paths (paths.dir file)) file ≡ false
  pub rules_name : text_eq (rules_path yaml paths (paths.dir file)) file ≡ false
  pub names :
      text_eq (rules_path yaml paths (paths.dir file)) (hosts_path yaml paths (paths.dir file))
      ≡ false

module _ (yaml : Yaml) (paths : Paths) where
  placed-again :
      (dir name p : Text)
      → IsPlaced paths dir p
      → resolve_path yaml paths dir (or_default yaml paths name (rel_path yaml paths dir p)) ≡ p
  placed-again dir name p (within r some_text relative inside back) =
      rw (inside, back, some_text, relative, some_text) refl
  placed-again dir name p (outside some_text absolute elsewhere) =
      rw (elsewhere, some_text, absolute, some_text) refl

without_error_lem :
    (yaml : Yaml) (paths : Paths) (r : Map Text × Option ScanError)
    → r.1 ≡ none
    → without_error yaml paths nothing_fails [] r ≡ some r.0
without_error_lem yaml paths (m, none) h = refl
without_error_lem yaml paths (m, some e) h = cc h

-- The three files behind a successful Save.
abbrev pub three_files : Text → Text → Text → Text → Text → Text → Map Text → Map Text
three_files file text hosts h rules r files =
    insert rules r (insert hosts h (insert file text files))

lookup-three_files :
    (file text hosts h rules r : Text) (files : Map Text)
    → text_eq hosts file ≡ false
    → text_eq rules file ≡ false
    → text_eq rules hosts ≡ false
    → let m = three_files file text hosts h rules r files in
      (lookup file m ≡ some text) × (lookup hosts m ≡ some h) × (lookup rules m ≡ some r)
lookup-three_files file text hosts h rules r files a b c =
    let m1 = insert file text files in
    let m2 = insert hosts h m1 in
    (
      rw
          (
            lookup-insert rules file r m2,
            b,
            lookup-insert hosts file h m1,
            a,
            lookup-insert file file text files,
            text_eq_refl file,
          )
          refl,
      rw (lookup-insert rules hosts r m2, c, lookup-insert hosts hosts h m1, text_eq_refl hosts)
          refl,
      rw (lookup-insert rules rules r m2, text_eq_refl rules) refl,
    )

-- What a configuration is after it was loaded from what was saved of another one.
pub record IsReloaded (dir : Text) (c c' : Config) : Type 0 where
  pub config_dir : c'.config_dir ≡ dir
  pub listen : c'.listen ≡ c.listen
  pub geo_data : c'.geo_data ≡ c.geo_data
  pub query_log : c'.query_log ≡ c.query_log
  pub hosts : (d : Text) → lookup d c'.hosts ≡ lookup d c.hosts
  pub rules : (d : Text) → lookup d c'.rules ≡ lookup d c.rules

module _ (yaml : Yaml) (paths : Paths) (path file text : Text) (raw : Fields) (c : Config)
    (h : IsStorable yaml paths path file text raw c) where
  saved_files : Map Text → Map Text
  saved_files files =
      let dir = paths.dir file in
      three_files file text (hosts_path yaml paths dir) (save_hosts_file c.hosts)
        (rules_path yaml paths dir) (save_rules_file c.rules) files

  save-saved_files :
      (files : Map Text) → save yaml paths nothing_fails c path files ≡ (saved_files files, none)
  unfolding save saved_files
  save-saved_files files =
      ap (λ o. save_at yaml paths nothing_fails c o files) h.abs
      ∙ ap (λ o. save_data yaml paths nothing_fails c file o files) h.marshal

  loaded : Config
  loaded =
      let dir = paths.dir file in
      record (stored yaml paths dir c) {
        config_dir = dir;
        listen = normalize_listen_config (normalize_listen_config c.listen);
        hosts = (load_hosts_file (save_hosts_file c.hosts) []).0;
        rules = (load_rules_file (save_rules_file c.rules) []).0;
        geo_data = resolve_geo yaml paths dir (stored yaml paths dir c).geo_data;
        query_log = with_defaults raw c.query_log;
      }

  load_config-saved_files :
      (files : Map Text)
      → (load_hosts_file (save_hosts_file c.hosts) []).1 ≡ none
      → (load_rules_file (save_rules_file c.rules) []).1 ≡ none
      → load_config yaml paths nothing_fails (saved_files files) path ≡ inl loaded
  unfolding load_config loaded saved_files
  load_config-saved_files files hosts rules =
      let dir = paths.dir file in
      let (l1, l2, l3) =
        lookup-three_files file text (hosts_path yaml paths dir) (save_hosts_file c.hosts)
          (rules_path yaml paths dir) (save_rules_file c.rules) files h.hosts_name h.rules_name
          h.names in
      rw
        (
          h.abs,
          l1,
          h.unmarshal,
          h.inspect,
          l2,
          l3,
          without_error_lem yaml paths (load_hosts_file (save_hosts_file c.hosts) []) hosts,
          without_error_lem yaml paths (load_rules_file (save_rules_file c.rules) []) rules,
        )
        refl

  loaded-IsReloaded :
      normalize_listen_config c.listen ≡ c.listen
      → IsPlaced paths (paths.dir file) c.geo_data.geoip_dat
      → IsPlaced paths (paths.dir file) c.geo_data.geosite_dat
      → is_positive64 c.query_log.max_history ≡ true
      → ((k v : Text) → lookup k c.hosts ≡ some v → IsHost k v)
      → ((k v : Text) → lookup k c.rules ≡ some v → IsRule k v)
      → IsReloaded (paths.dir file) c loaded
  unfolding loaded
  loaded-IsReloaded normal geoip geosite history hosts rules = record {
    config_dir = refl;
    listen = ap normalize_listen_config normal ∙ normal;
    geo_data =
        ap₂ (λ (a b : Text). record c.geo_data { geoip_dat = a; geosite_dat = b })
          (placed-again yaml paths (paths.dir file) (codes "geoip.dat") c.geo_data.geoip_dat geoip)
          (placed-again yaml paths (paths.dir file) (codes "geosite.dat") c.geo_data.geosite_dat
            geosite);
    query_log =
        ap₂
          (λ (a b : Bool). record c.query_log {
            enabled = if a then c.query_log.enabled else true;
            max_history = if b then c.query_log.max_history else 5000;
          })
          h.key history;
    hosts = λ d. (save_hosts_file-load_hosts_file c.hosts d hosts).0;
    rules = λ d. (save_rules_file-load_rules_file c.rules d rules).0;
  }

-- A configuration that is saved and then loaded from the same path, where no access to a file fails
-- and YAML gives the document back (without the fields that are not part of it, and with the key
-- query_log.enabled): its listen section is normalised already; its two geo files are absolute paths
-- that do not begin with the configuration's directory, or are in that directory and Rel takes them
-- apart again; its history is positive; its hosts and rules are words of ASCII that the files can hold,
-- in lower case, on lines shorter than 65,536 bytes; and the three files have different names. Then Save succeeds, and LoadConfig returns a
-- configuration with the same listen section, geo files and query log, which finds the same address
-- for every host and the same target for every rule.
pub save-load_config :
    (yaml : Yaml) (paths : Paths) (path file text : Text) (raw : Fields) (c : Config)
    (files : Map Text)
    → IsStorable yaml paths path file text raw c
    → normalize_listen_config c.listen ≡ c.listen
    → IsPlaced paths (paths.dir file) c.geo_data.geoip_dat
    → IsPlaced paths (paths.dir file) c.geo_data.geosite_dat
    → is_positive64 c.query_log.max_history ≡ true
    → ((k v : Text) → lookup k c.hosts ≡ some v → IsHost k v)
    → ((k v : Text) → lookup k c.rules ≡ some v → IsRule k v)
    → let saved = save yaml paths nothing_fails c path files in
      (saved.1 ≡ none)
      × ((c' : Config) × (load_config yaml paths nothing_fails saved.0 path ≡ inl c')
          × IsReloaded (paths.dir file) c c')
save-load_config yaml paths path file text raw c files h normal geoip geosite history hosts rules =
    let e = save-saved_files yaml paths path file text raw c h files in
    (
      ap (λ (s : Map Text × Option StoreError). s.1) e,
      (
        loaded yaml paths path file text raw c h,
        ap (λ (s : Map Text × Option StoreError). load_config yaml paths nothing_fails s.0 path) e
            ∙ load_config-saved_files yaml paths path file text raw c h files
                (save_hosts_file-load_hosts_file c.hosts [] hosts).1
                (save_rules_file-load_rules_file c.rules [] rules).1,
        loaded-IsReloaded yaml paths path file text raw c h normal geoip geosite history hosts
            rules,
      ),
    )
