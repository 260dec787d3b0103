-- ===== src/Examples/Settings.antt =====
-- Test of the configuration: values that are all in range.
use headway.Base.{ℤ, pos, leb_ℤ, str_eq, [], some, ◌≡◌, ◌↔◌}
use headway.Config.Rules.{Config, Library, seconds, validate}
use headway.Config.Rules.Sound.{
  PollSound, ScheduleSound, IngestSound, MaintainSound, HttpSound, validate_lem,
}

-- A rate is a number of thousandths.
abbrev library : Library ℤ
library = record {
  parse_url = λ s. some (record { scheme = "postgres"; host = s; path = ""; raw_query = "" });
  split_host = λ s. some s;
  is_loopback_ip = λ s. str_eq s "127.0.0.1";
  not_positive = λ x. leb_ℤ x (pos 0);
}

abbrev config : Config ℤ
config = record {
  database_url = "postgres://localhost/headway";
  poll_interval = seconds 30;
  poll_jitter = seconds 3;
  http_timeout = seconds 20;
  feed_rate_limit = pos 4000;
  daily_budget = pos 60_000;
  stale_polls = pos 3;
  max_skew = seconds 300;
  refresh_interval = seconds 86_400;
  keep_versions = pos 3;
  day_overlap = seconds 21_600;
  date_tolerance = seconds 7200;
  max_stop_time_s = pos 172_800;
  queue_size = pos 20_000;
  batch_size = pos 1000;
  flush_interval = seconds 5;
  filter_min_delta_s = pos 15;
  filter_max_entries = pos 500_000;
  delay_reconcile_tolerance_s = pos 60;
  early_s = pos 60;
  late_s = pos 300;
  very_late_s = pos 900;
  maintenance_interval = seconds 3600;
  retention_days = pos 14;
  partition_lookahead = pos 2;
  addr = ":8080";
  read_timeout = seconds 10;
  write_timeout = seconds 30;
  shutdown_grace = seconds 20;
  http_rate_limit = pos 500;
  history_max_days = pos 366;
  cache_ttl = seconds 300;
  ready_max_feed_age = seconds 300;
  cors_origin = "";
  tls_cert_file = "";
  tls_key_file = "";
  pprof_addr = "127.0.0.1";
  max_conns = pos 8;
}

validate_lem_example : (validate library config ≡ []) ↔ (
    PollSound library config
    × (ScheduleSound library config
        × (IngestSound library config × (MaintainSound library config × HttpSound library config))))
validate_lem_example = validate_lem library config
