-- ===== src/Settings.antt =====
-- The types of internal/config/config.go that other parts read. Upstreams and the certificates of the
-- servers are not among them.
use dns_automatic_traffic_sp.Base.{ℕ, Bool, List}
use dns_automatic_traffic_sp.Base.Text.{Text}
use dns_automatic_traffic_sp.Base.Maps.{Map}

pub record ListenConfig : Type 0 where
  pub address : Text
  pub dns_udp : Text
  pub dns_tcp : Text
  pub doh : Text
  pub doh_path : Text
  pub dot : Text
  pub doq : Text

pub record GeoDataConfig : Type 0 where
  pub geoip_dat : Text
  pub geosite_dat : Text
  pub geoip_url : Text
  pub geosite_url : Text
  pub auto_update : Text

pub record QueryLogConfig : Type 0 where
  pub enabled : Bool
  pub max_history : ℕ
  pub file : Text
  pub max_size_mb : ℕ
  pub save_to_file : Bool

pub record AutoCertConfig : Type 0 where
  pub enabled : Bool
  pub email : Text
  pub domains : List Text
  pub cert_dir : Text

pub record WebUi : Type 0 where
  pub username : Text
  pub password : Text
  pub guest_mode : Bool

pub record Config : Type 0 where
  pub listen : ListenConfig
  pub hosts : Map Text
  pub rules : Map Text
  pub geo_data : GeoDataConfig
  pub auto_cert : AutoCertConfig
  pub web_ui : WebUi
  pub query_log : QueryLogConfig
  pub config_dir : Text
