-- ===== src/Config/Stored.antt =====
-- internal/config/config.go: LoadConfig and Save, on a map of files. YAML and the path functions of
-- Go are parameters; writeFileAtomic either replaces a file or leaves it as it was, and its temporary
-- file is gone in both cases. The fields that `Config` leaves out are carried along unchanged.
pub mod Reload
use dns_automatic_traffic_sp.Base.{
  ℕ, ◌⊎◌, inl, inr, Bool, true, false, ◌&&◌, not, Option, none, some, List, [], ◌∷◌, if◌then◌else◌,
  is_positive64,
}
use dns_automatic_traffic_sp.Base.Text.{Text, codes, is_empty, has_prefix, text_eq}
use dns_automatic_traffic_sp.Base.Scanner.{ScanError}
use dns_automatic_traffic_sp.Base.Maps.{Map, lookup, insert}
use dns_automatic_traffic_sp.Settings.{Config, GeoDataConfig, QueryLogConfig}
use dns_automatic_traffic_sp.Config.{
  load_hosts_file, load_rules_file, save_hosts_file, save_rules_file,
}
use dns_automatic_traffic_sp.Config.Listen.{normalize_listen_config}

-- A document as yaml.Unmarshal gives it for a map of interfaces.
mutual
  pub data Node : Type 0 where
    scalar : Text → Node
    mapping : Fields → Node

  pub data Fields : Type 0 where
    no_fields : Fields
    field : Text → Node → Fields → Fields

unfoldable pub find_field : Text → Fields → Option Node
find_field k no_fields = none
find_field k (field name v fs) = if text_eq name k then some v else find_field k fs

-- yaml.Marshal and yaml.Unmarshal, into a configuration and into a document.
pub record Yaml : Type 0 where
  pub marshal : Config → Option Text
  pub unmarshal : Text → Option Config
  pub inspect : Text → Option Fields

-- The functions Abs, Dir, Join, IsAbs and Rel of path/filepath.
pub record Paths : Type 0 where
  pub abs : Text → Option Text
  pub dir : Text → Text
  pub join : Text → Text → Text
  pub is_abs : Text → Bool
  pub rel : Text → Text → Option Text

pub data StoreError : Type 0 where
  bad_path unreadable bad_yaml bad_hosts bad_rules : StoreError
  not_marshalled not_saved hosts_not_saved rules_not_saved : StoreError

-- The rest of the keys, below a value that was found or not.
unfoldable pub has_key_below : Option Node → List Text → Bool
unfolding find_field
has_key_below none ks = false
has_key_below (some v) [] = true
has_key_below (some (scalar s)) (k ∷ ks) = false
has_key_below (some (mapping fs)) (k ∷ ks) = has_key_below (find_field k fs) ks

unfoldable pub has_nested_key : Fields → List Text → Bool
unfolding has_key_below
has_nested_key root [] = false
has_nested_key root (k ∷ ks) = has_key_below (find_field k root) ks

abbrev pub with_defaults : Fields → QueryLogConfig → QueryLogConfig
with_defaults raw q = record q {
  enabled =
      if has_nested_key raw (codes "query_log" ∷ codes "enabled" ∷ []) then q.enabled else true;
  max_history = if is_positive64 q.max_history then q.max_history else 5000;
}

module _ (yaml : Yaml) (paths : Paths) where
  abbrev pub hosts_path : Text → Text
  hosts_path dir = paths.join dir (codes "hosts.txt")

  abbrev pub rules_path : Text → Text
  rules_path dir = paths.join dir (codes "rule.txt")

  abbrev pub resolve_path : Text → Text → Text
  resolve_path dir p =
      if is_empty p then [] else if not (paths.is_abs p) then paths.join dir p else p

  abbrev pub or_default : Text → Text → Text
  or_default name p = if is_empty p then name else p

  abbrev pub resolve_geo : Text → GeoDataConfig → GeoDataConfig
  resolve_geo dir g = record g {
    geoip_dat = resolve_path dir (or_default (codes "geoip.dat") g.geoip_dat);
    geosite_dat = resolve_path dir (or_default (codes "geosite.dat") g.geosite_dat);
  }

  -- Which files cannot be read or written although they exist, and the files.
  module _ (fails : Text → Bool) (files : Map Text) where
    abbrev pub without_error : Map Text × Option ScanError → Option (Map Text)
    without_error (m, none) = some m
    without_error (m, some e) = none

    -- A file that may be missing; `none` is any other error.
    abbrev pub load_optional :
        (Text → Map Text → Map Text × Option ScanError) → Option Text → Option (Map Text)
    load_optional load none = some []
    load_optional load (some text) = without_error (load text [])

    abbrev pub load_pairs :
        (Text → Map Text → Map Text × Option ScanError) → Text → Option (Map Text)
    load_pairs load path = if fails path then none else load_optional load (lookup path files)

    abbrev pub fill :
        Text → Config → Fields → Option (Map Text) → Option (Map Text) → Config ⊎ StoreError
    fill dir cfg raw none rules = inr bad_hosts
    fill dir cfg raw (some hosts) none = inr bad_rules
    fill dir cfg raw (some hosts) (some rules) = inl (record cfg {
      config_dir = dir;
      listen = normalize_listen_config cfg.listen;
      hosts = hosts;
      rules = rules;
      geo_data = resolve_geo dir cfg.geo_data;
      query_log = with_defaults raw cfg.query_log;
    })

    abbrev pub load_parsed : Text → Option Config → Option Fields → Config ⊎ StoreError
    load_parsed dir none raw = inr bad_yaml
    load_parsed dir (some cfg) none = inr bad_yaml
    load_parsed dir (some cfg) (some raw) =
        fill dir cfg raw (load_pairs load_hosts_file (hosts_path dir))
          (load_pairs load_rules_file (rules_path dir))

    abbrev pub load_data : Text → Option Text → Config ⊎ StoreError
    load_data dir none = inr unreadable
    load_data dir (some text) = load_parsed dir (yaml.unmarshal text) (yaml.inspect text)

    abbrev pub load_at : Option Text → Config ⊎ StoreError
    load_at none = inr bad_path
    load_at (some path) =
        if fails path then inr unreadable else load_data (paths.dir path) (lookup path files)

    unfoldable pub load_config : Text → Config ⊎ StoreError
    load_config path = load_at (paths.abs path)

  abbrev pub or_same : Option Text → Text → Text
  or_same none p = p
  or_same (some r) p = r

  abbrev pub rel_path : Text → Text → Text
  rel_path dir p = if has_prefix p dir then or_same (paths.rel dir p) p else p

  -- What Save does to the configuration that it is called on.
  abbrev pub touched : Text → Config → Config
  touched dir c = record c { config_dir = dir; listen = normalize_listen_config c.listen }

  unfoldable after_save : Config → Text → Config
  after_save c path = elim (paths.abs path) [ none ↦ c | some p ↦ touched (paths.dir p) c ]

  -- What is written to config.yaml.
  abbrev pub stored : Text → Config → Config
  stored dir c = record (touched dir c) {
    geo_data = record c.geo_data {
      geoip_dat = rel_path dir c.geo_data.geoip_dat;
      geosite_dat = rel_path dir c.geo_data.geosite_dat;
    };
  }

  -- The files that are there behind a call, and its error. A file that fails is left as it was.
  module _ (fails : Text → Bool) where
    abbrev pub write_file_atomic : Text → Text → Map Text → Option (Map Text)
    write_file_atomic path text files = if fails path then none else some (insert path text files)

    abbrev pub save_rules : Config → Text → Map Text → Map Text × Option StoreError
    save_rules c dir files =
        elim (write_file_atomic (rules_path dir) (save_rules_file c.rules) files) [
          | none ↦ (files, some rules_not_saved)
          | some files' ↦ (files', none)
        ]

    abbrev pub save_hosts : Config → Text → Map Text → Map Text × Option StoreError
    save_hosts c dir files =
        elim (write_file_atomic (hosts_path dir) (save_hosts_file c.hosts) files) [
          | none ↦ (files, some hosts_not_saved)
          | some files' ↦ save_rules c dir files'
        ]

    abbrev pub save_data : Config → Text → Option Text → Map Text → Map Text × Option StoreError
    save_data c path none files = (files, some not_marshalled)
    save_data c path (some text) files = elim (write_file_atomic path text files) [
      | none ↦ (files, some not_saved)
      | some files' ↦ save_hosts c (paths.dir path) files'
    ]

    abbrev pub save_at : Config → Option Text → Map Text → Map Text × Option StoreError
    save_at c none files = (files, some bad_path)
    save_at c (some path) files = save_data c path (yaml.marshal (stored (paths.dir path) c)) files

    -- Save
    unfoldable pub save : Config → Text → Map Text → Map Text × Option StoreError
    save c path files = save_at c (paths.abs path) files
