-- ===== src/Tests/ManagerTests.antt =====
-- internal/manager/manager.go with a configuration of one server for plain DNS.
use dns_automatic_traffic_sp.Base.{
  arith, ◌==◌, refl, true, false, none, some, List, [], ◌∷◌, if◌then◌else◌,
}
use dns_automatic_traffic_sp.Base.Text.{codes, text_eq}
use dns_automatic_traffic_sp.Settings.{Config}
use dns_automatic_traffic_sp.Manager.{ServiceManager, World, Env, new_service_manager, reload}
use dns_automatic_traffic_sp.Manager.Owned.{Owned}
use dns_automatic_traffic_sp.Manager.Failed.{OnlyFailed}
use dns_automatic_traffic_sp.Client.{client_error}
use dns_automatic_traffic_sp.Manager.Reloads.{Reloaded, reload-Reloaded}
use dns_automatic_traffic_sp.Manager.AutoUpdate.{
  Calendar, System, Event, restarting, tick, downloaded, restarted, reload_asked, stop_asked, run,
}
use dns_automatic_traffic_sp.Manager.Updates.{
  IsSound, no_attempt, run-IsSound, Settled, rest_of_loop, stop-Settled,
}

abbrev test_config : Config
test_config = record {
  listen = record {
    address = [];
    dns_udp = codes ":53";
    dns_tcp = [];
    doh = [];
    doh_path = codes "/dns-query";
    dot = [];
    doq = [];
  };
  hosts = [];
  rules = [];
  geo_data = record {
    geoip_dat = codes "geoip.dat";
    geosite_dat = codes "geosite.dat";
    geoip_url = [];
    geosite_url = [];
    auto_update = codes "04:00";
  };
  auto_cert = record { enabled = false; email = []; domains = []; cert_dir = [] };
  web_ui = record { username = []; password = []; guest_mode = false };
  query_log = record {
    enabled = true;
    max_history = 5000;
    file = [];
    max_size_mb = 1;
    save_to_file = false;
  };
  config_dir = [];
}

abbrev other_config : Config
other_config = record test_config {
  listen = record test_config.listen { dns_udp = []; doq = codes ":853" };
}

-- The database files load, there are no certificates, and the third component does not stop.
abbrev test_env : Env
test_env = record {
  load_geo = λ geoip geosite. none;
  make_dir = λ path. true;
  certificates = λ cfg. false;
  stop_error = λ n. if n == 2 then some (client_error (codes "server not started")) else none;
}

abbrev empty_world : World
empty_world = record { next = 0; live = []; leaked = []; removed = [] }

abbrev test_manager : ServiceManager
test_manager = new_service_manager test_config

test_manager-Owned : Owned test_manager empty_world
unfolding new_service_manager
test_manager-Owned = λ k. refl

empty_world-OnlyFailed : OnlyFailed test_env empty_world
empty_world-OnlyFailed = λ k h. absurd (omega (arith, h))

reload-Reloaded_example :
    Reloaded test_env test_manager.config other_config
      (reload test_env other_config test_manager empty_world)
    × OnlyFailed test_env (reload test_env other_config test_manager empty_world).2
reload-Reloaded_example =
    reload-Reloaded test_env other_config test_manager empty_world test_manager-Owned
      empty_world-OnlyFailed

abbrev test_calendar : Calendar
test_calendar = record {
  time_of_day = λ t. if text_eq t (codes "04:00") then some 14400 else none;
  midnight = λ now. 0;
}

abbrev test_system : System
test_system = record {
  manager = test_manager;
  world = empty_world;
  loop = restarting;
  last_attempt = none;
  attempts = [];
}

test_system-IsSound : IsSound test_env test_system
test_system-IsSound = record {
  owned = test_manager-Owned;
  failed = empty_world-OnlyFailed;
  spaced = no_attempt;
  last = refl;
}

-- An update, a reload during its download, and a stop.
abbrev test_events : List Event
test_events =
    restarted
    ∷ tick 15000 (some 100)
    ∷ reload_asked other_config
    ∷ downloaded
    ∷ restarted
    ∷ tick 15060 (some 100)
    ∷ stop_asked
    ∷ []

run-IsSound_example : IsSound test_env (run test_env test_calendar test_events test_system)
run-IsSound_example = run-IsSound test_env test_calendar test_events test_system test_system-IsSound

stop-Settled_example :
    Settled test_env test_system
      (run test_env test_calendar (stop_asked ∷ rest_of_loop) test_system)
stop-Settled_example = stop-Settled test_env test_calendar test_system test_system-IsSound
