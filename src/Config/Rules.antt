-- ===== src/Config/Rules.antt =====
-- internal/config/config.go: the configuration and validate. URLs and addresses are taken apart by Go's
-- library, which is a parameter; of a float64 only the test against zero is used.
pub mod Sound
pub mod Texts
use headway.Base.{
  ℕ, ◌*◌, ℤ, pos, ltb_ℤ, leb_ℤ, String, str_eq, Bool, true, false, not, ◌&&◌, ◌||◌, List, [], ◌∷◌,
  ◌++◌, Option, none, some, if◌then◌else◌,
}
use headway.ServiceTime.{Duration, second, hour}

pub record Url : Type 0 where
  pub scheme : String
  pub host : String
  pub path : String
  pub raw_query : String

-- The fields of Config that validate reads, with the names of their variables.
pub record Config (F : Type 0) : Type 0 where
  pub database_url : String
  pub poll_interval : Duration
  pub poll_jitter : Duration
  pub http_timeout : Duration
  pub feed_rate_limit : F
  pub daily_budget : ℤ
  pub stale_polls : ℤ
  pub max_skew : Duration
  pub refresh_interval : Duration
  pub keep_versions : ℤ
  pub day_overlap : Duration
  pub date_tolerance : Duration
  pub max_stop_time_s : ℤ
  pub queue_size : ℤ
  pub batch_size : ℤ
  pub flush_interval : Duration
  pub filter_min_delta_s : ℤ
  pub filter_max_entries : ℤ
  pub delay_reconcile_tolerance_s : ℤ
  pub early_s : ℤ
  pub late_s : ℤ
  pub very_late_s : ℤ
  pub maintenance_interval : Duration
  pub retention_days : ℤ
  pub partition_lookahead : ℤ
  pub addr : String
  pub read_timeout : Duration
  pub write_timeout : Duration
  pub shutdown_grace : Duration
  pub http_rate_limit : F
  pub history_max_days : ℤ
  pub cache_ttl : Duration
  pub ready_max_feed_age : Duration
  pub cors_origin : String
  pub tls_cert_file : String
  pub tls_key_file : String
  pub pprof_addr : String
  pub max_conns : ℤ

-- url.Parse, net.SplitHostPort with the host, net.ParseIP with IsLoopback, and x <= 0 on float64.
pub record Library (F : Type 0) : Type 0 where
  pub parse_url : String → Option Url
  pub split_host : String → Option String
  pub is_loopback_ip : String → Bool
  pub not_positive : F → Bool

-- A problem is named by its variable.
abbrev pub check : Bool → String → List String
check bad variable = if bad then variable ∷ [] else []

abbrev pub seconds : ℕ → Duration
seconds n = pos (n * second)

abbrev pub blank : String → Bool
blank s = str_eq s ""

module _ {F : Type 0} (lib : Library F) where
  abbrev pub bad_scheme : Option Url → Bool
  bad_scheme none = true
  bad_scheme (some u) = not (str_eq u.scheme "postgres") && not (str_eq u.scheme "postgresql")

  abbrev pub bad_database : String → Bool
  bad_database raw = not (blank raw) && bad_scheme (lib.parse_url raw)

  abbrev pub bad_origin_url : Option Url → Bool
  bad_origin_url none = true
  bad_origin_url (some u) =
      (not (str_eq u.scheme "https") && not (str_eq u.scheme "http"))
      || blank u.host
      || not (blank u.path)
      || not (blank u.raw_query)

  abbrev pub bad_origin : String → Bool
  bad_origin o = not (blank o) && bad_origin_url (lib.parse_url o)

  abbrev pub bad_host : Option String → Bool
  bad_host none = true
  bad_host (some host) = not (str_eq host "localhost") && not (lib.is_loopback_ip host)

  abbrev pub bad_pprof : String → Bool
  bad_pprof a = not (blank a) && bad_host (lib.split_host a)

  abbrev pub xor : Bool → Bool → Bool
  xor true b = not b
  xor false b = b

  unfoldable pub poll_problems : Config F → List String
  poll_problems c =
      check (bad_database c.database_url) "DATABASE_URL"
      ++ check (ltb_ℤ c.poll_interval (seconds 5)) "FEED_POLL_INTERVAL"
      ++ check (ltb_ℤ c.poll_jitter (pos 0)) "FEED_POLL_JITTER"
      ++ check (leb_ℤ c.http_timeout (pos 0)) "FEED_HTTP_TIMEOUT"
      ++ check (lib.not_positive c.feed_rate_limit) "FEED_RATE_LIMIT_RPS"
      ++ check (leb_ℤ c.daily_budget (pos 0)) "FEED_DAILY_BUDGET"
      ++ check (ltb_ℤ c.stale_polls (pos 1)) "FEED_STALE_POLLS"
      ++ check (leb_ℤ c.max_skew (pos 0)) "FEED_MAX_SKEW"

  unfoldable pub schedule_problems : Config F → List String
  schedule_problems c =
      check (leb_ℤ c.refresh_interval (pos 0)) "SCHEDULE_REFRESH_INTERVAL"
      ++ check (ltb_ℤ c.keep_versions (pos 2)) "SCHEDULE_KEEP_VERSIONS"
      ++ check (ltb_ℤ c.day_overlap (pos 0) || leb_ℤ (pos (24 * hour)) c.day_overlap)
          "SERVICE_DAY_OVERLAP_H"
      ++ check (leb_ℤ c.date_tolerance (pos 0)) "SERVICE_DATE_TOLERANCE"
      ++ check (leb_ℤ c.max_stop_time_s (pos 86_400)) "SERVICE_TIME_MAX_S"

  unfoldable pub ingest_problems : Config F → List String
  ingest_problems c =
      check (ltb_ℤ c.queue_size (pos 1)) "INGEST_QUEUE_SIZE"
      ++ check (ltb_ℤ c.batch_size (pos 1)) "INGEST_BATCH_SIZE"
      ++ check (ltb_ℤ c.queue_size c.batch_size) "INGEST_BATCH_SIZE"
      ++ check (leb_ℤ c.flush_interval (pos 0)) "INGEST_FLUSH_INTERVAL"
      ++ check (ltb_ℤ c.filter_min_delta_s (pos 0)) "FILTER_MIN_DELTA_S"
      ++ check (ltb_ℤ c.filter_max_entries (pos 1)) "FILTER_MAX_ENTRIES"
      ++ check (ltb_ℤ c.delay_reconcile_tolerance_s (pos 0)) "DELAY_RECONCILE_TOLERANCE_S"

  unfoldable pub maintain_problems : Config F → List String
  maintain_problems c =
      check (not (ltb_ℤ c.early_s c.late_s && ltb_ℤ c.late_s c.very_late_s)) "ON_TIME"
      ++ check (leb_ℤ c.maintenance_interval (pos 0)) "MAINTENANCE_INTERVAL"
      ++ check (ltb_ℤ c.retention_days (pos 1)) "RETENTION_DAYS"
      ++ check (ltb_ℤ c.partition_lookahead (pos 1)) "PARTITION_LOOKAHEAD_DAYS"

  unfoldable pub http_problems : Config F → List String
  http_problems c =
      check (blank c.addr) "HTTP_ADDR"
      ++ check (leb_ℤ c.read_timeout (pos 0)) "HTTP_READ_TIMEOUT"
      ++ check (leb_ℤ c.write_timeout (pos 0)) "HTTP_WRITE_TIMEOUT"
      ++ check (leb_ℤ c.shutdown_grace c.flush_interval) "HTTP_SHUTDOWN_GRACE"
      ++ check (lib.not_positive c.http_rate_limit) "HTTP_RATE_LIMIT_RPS"
      ++ check (ltb_ℤ c.history_max_days (pos 1)) "HISTORY_MAX_DAYS"
      ++ check (leb_ℤ c.cache_ttl (pos 0)) "CACHE_TTL"
      ++ check (leb_ℤ c.ready_max_feed_age c.poll_interval) "READY_MAX_FEED_AGE"
      ++ check (bad_origin c.cors_origin) "HTTP_CORS_ORIGIN"
      ++ check (xor (blank c.tls_cert_file) (blank c.tls_key_file)) "HTTP_TLS_CERT_FILE"
      ++ check (bad_pprof c.pprof_addr) "PPROF_ADDR"
      ++ check (ltb_ℤ c.max_conns (pos 2)) "DB_MAX_CONNS"

  unfoldable pub validate : Config F → List String
  unfolding poll_problems schedule_problems ingest_problems maintain_problems http_problems
  validate c =
      poll_problems c
      ++ (schedule_problems c ++ (ingest_problems c ++ (maintain_problems c ++ http_problems c)))
