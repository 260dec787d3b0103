-- ===== src/Config/Rules/Sound.antt =====
-- What validate accepts.
use headway.Base.{
  ◌*◌, ℤ, pos, ◌≤ℤ◌, ◌<ℤ◌, ltb_ℤ, leb_ℤ, String, Bool, true, false, not, ◌&&◌, ◌||◌, List, [], ◌∷◌,
  ◌++◌, ◌↔◌, ◌≡◌, ◌≢◌, inl, inr, str_eq, eq_iff, refl, arith, Bool-cases,
}
use headway.ServiceTime.{hour}
use headway.Config.Rules.{
  Config, Library, check, seconds, blank, bad_database, bad_origin, bad_pprof, xor, poll_problems,
  schedule_problems, ingest_problems, maintain_problems, http_problems, validate,
}
use headway.Config.Rules.Texts.{
  DatabaseSound, OriginSound, ProfilerSound, database_iff, origin_iff, profiler_iff, not_blank_iff,
}

append-eq-nil : (xs ys : List String) → (xs ++ ys ≡ []) ↔ ((xs ≡ []) × (ys ≡ []))
append-eq-nil [] ys = ((λ h. (refl, h)), λ h. h.1)
append-eq-nil (x ∷ xs) ys = ((λ h. cc), λ h. cc)

check-eq-nil : (b : Bool) (v : String) → (check b v ≡ []) ↔ (b ≡ false)
check-eq-nil true v = ((λ h. cc), λ h. cc)
check-eq-nil false v = ((λ h. refl), λ h. refl)

-- One more rule at the end of a list of problems, and what it says.
rule :
    (xs : List String) (b : Bool) (v : String) {P Q : Type 0}
    → (xs ≡ []) ↔ P
    → (b ≡ false) ↔ Q
    → (xs ++ check b v ≡ []) ↔ (P × Q)
rule xs b v p q = (
  (λ h.
      let (before, last) = (append-eq-nil xs (check b v)).0 h in
      (p.0 before, q.0 ((check-eq-nil b v).0 last))),
  λ h. (append-eq-nil xs (check b v)).1 (p.1 h.0, (check-eq-nil b v).1 (q.1 h.1)),
)

both :
    (xs ys : List String) {P Q : Type 0} → (xs ≡ []) ↔ P → (ys ≡ []) ↔ Q → (xs ++ ys ≡ []) ↔ (P × Q)
both xs ys p q = (
  (λ h. let (a, b) = (append-eq-nil xs ys).0 h in (p.0 a, q.0 b)),
  λ h. (append-eq-nil xs ys).1 (p.1 h.0, q.1 h.1),
)

first : (b : Bool) (v : String) {Q : Type 0} → (b ≡ false) ↔ Q → (check b v ≡ []) ↔ Q
first b v q = ((λ h. q.0 ((check-eq-nil b v).0 h)), λ h. (check-eq-nil b v).1 (q.1 h))

at_least : (x y : ℤ) → (ltb_ℤ x y ≡ false) ↔ (y ≤ℤ x)
at_least x y = ground arith

above : (x y : ℤ) → (leb_ℤ x y ≡ false) ↔ (y <ℤ x)
above x y = ground arith

as_it_is : (b : Bool) → (b ≡ false) ↔ (b ≡ false)
as_it_is b = ((λ h. h), λ h. h)

module _ {F : Type 0} (lib : Library F) (c : Config F) where
  abbrev pub PollSound : Type 0
  PollSound =
      ((((((((DatabaseSound lib c.database_url)) × (seconds 5 ≤ℤ c.poll_interval))
                × (pos 0 ≤ℤ c.poll_jitter))
              × (pos 0 <ℤ c.http_timeout))
            × (lib.not_positive c.feed_rate_limit ≡ false))
          × (pos 0 <ℤ c.daily_budget))
        × (pos 1 ≤ℤ c.stale_polls))
      × (pos 0 <ℤ c.max_skew)

  poll_lem : (poll_problems lib c ≡ []) ↔ PollSound
  unfolding poll_problems
  poll_lem =
      rule _ (leb_ℤ c.max_skew (pos 0)) "FEED_MAX_SKEW"
        (rule _ (ltb_ℤ c.stale_polls (pos 1)) "FEED_STALE_POLLS"
          (rule _ (leb_ℤ c.daily_budget (pos 0)) "FEED_DAILY_BUDGET"
            (rule _ (lib.not_positive c.feed_rate_limit) "FEED_RATE_LIMIT_RPS"
              (rule _ (leb_ℤ c.http_timeout (pos 0)) "FEED_HTTP_TIMEOUT"
                (rule _ (ltb_ℤ c.poll_jitter (pos 0)) "FEED_POLL_JITTER"
                  (rule _ (ltb_ℤ c.poll_interval (seconds 5)) "FEED_POLL_INTERVAL"
                    (first (bad_database lib c.database_url) "DATABASE_URL"
                      (database_iff lib c.database_url))
                    (at_least c.poll_interval (seconds 5)))
                  (at_least c.poll_jitter (pos 0)))
                (above c.http_timeout (pos 0)))
              (as_it_is (lib.not_positive c.feed_rate_limit)))
            (above c.daily_budget (pos 0)))
          (at_least c.stale_polls (pos 1)))
        (above c.max_skew (pos 0))

  abbrev pub ScheduleSound : Type 0
  ScheduleSound =
      (((((pos 0 <ℤ c.refresh_interval)) × (pos 2 ≤ℤ c.keep_versions))
          × ((pos 0 ≤ℤ c.day_overlap) × (c.day_overlap <ℤ pos (24 * hour))))
        × (pos 0 <ℤ c.date_tolerance))
      × (pos 86_400 <ℤ c.max_stop_time_s)

  day_overlap_iff :
      ((ltb_ℤ c.day_overlap (pos 0) || leb_ℤ (pos (24 * hour)) c.day_overlap) ≡ false)
      ↔ ((pos 0 ≤ℤ c.day_overlap) × (c.day_overlap <ℤ pos (24 * hour)))
  day_overlap_iff = ground arith

  schedule_lem : (schedule_problems lib c ≡ []) ↔ ScheduleSound
  unfolding schedule_problems
  schedule_lem =
      rule _ (leb_ℤ c.max_stop_time_s (pos 86_400)) "SERVICE_TIME_MAX_S"
        (rule _ (leb_ℤ c.date_tolerance (pos 0)) "SERVICE_DATE_TOLERANCE"
          (rule _ (ltb_ℤ c.day_overlap (pos 0) || leb_ℤ (pos (24 * hour)) c.day_overlap)
            "SERVICE_DAY_OVERLAP_H"
            (rule _ (ltb_ℤ c.keep_versions (pos 2)) "SCHEDULE_KEEP_VERSIONS"
              (first (leb_ℤ c.refresh_interval (pos 0)) "SCHEDULE_REFRESH_INTERVAL"
                (above c.refresh_interval (pos 0)))
              (at_least c.keep_versions (pos 2)))
            (day_overlap_iff))
          (above c.date_tolerance (pos 0)))
        (above c.max_stop_time_s (pos 86_400))

  abbrev pub IngestSound : Type 0
  IngestSound =
      (((((((pos 1 ≤ℤ c.queue_size)) × (pos 1 ≤ℤ c.batch_size)) × (c.batch_size ≤ℤ c.queue_size))
            × (pos 0 <ℤ c.flush_interval))
          × (pos 0 ≤ℤ c.filter_min_delta_s))
        × (pos 1 ≤ℤ c.filter_max_entries))
      × (pos 0 ≤ℤ c.delay_reconcile_tolerance_s)

  ingest_lem : (ingest_problems lib c ≡ []) ↔ IngestSound
  unfolding ingest_problems
  ingest_lem =
      rule _ (ltb_ℤ c.delay_reconcile_tolerance_s (pos 0)) "DELAY_RECONCILE_TOLERANCE_S"
        (rule _ (ltb_ℤ c.filter_max_entries (pos 1)) "FILTER_MAX_ENTRIES"
          (rule _ (ltb_ℤ c.filter_min_delta_s (pos 0)) "FILTER_MIN_DELTA_S"
            (rule _ (leb_ℤ c.flush_interval (pos 0)) "INGEST_FLUSH_INTERVAL"
              (rule _ (ltb_ℤ c.queue_size c.batch_size) "INGEST_BATCH_SIZE"
                (rule _ (ltb_ℤ c.batch_size (pos 1)) "INGEST_BATCH_SIZE"
                  (first (ltb_ℤ c.queue_size (pos 1)) "INGEST_QUEUE_SIZE"
                    (at_least c.queue_size (pos 1)))
                  (at_least c.batch_size (pos 1)))
                (at_least c.queue_size (c.batch_size)))
              (above c.flush_interval (pos 0)))
            (at_least c.filter_min_delta_s (pos 0)))
          (at_least c.filter_max_entries (pos 1)))
        (at_least c.delay_reconcile_tolerance_s (pos 0))

  abbrev pub MaintainSound : Type 0
  MaintainSound =
      (((((c.early_s <ℤ c.late_s) × (c.late_s <ℤ c.very_late_s)))
          × (pos 0 <ℤ c.maintenance_interval))
        × (pos 1 ≤ℤ c.retention_days))
      × (pos 1 ≤ℤ c.partition_lookahead)

  bands_iff :
      ((not (ltb_ℤ c.early_s c.late_s && ltb_ℤ c.late_s c.very_late_s)) ≡ false)
      ↔ ((c.early_s <ℤ c.late_s) × (c.late_s <ℤ c.very_late_s))
  bands_iff = ground arith

  maintain_lem : (maintain_problems lib c ≡ []) ↔ MaintainSound
  unfolding maintain_problems
  maintain_lem =
      rule _ (ltb_ℤ c.partition_lookahead (pos 1)) "PARTITION_LOOKAHEAD_DAYS"
        (rule _ (ltb_ℤ c.retention_days (pos 1)) "RETENTION_DAYS"
          (rule _ (leb_ℤ c.maintenance_interval (pos 0)) "MAINTENANCE_INTERVAL"
            (first (not (ltb_ℤ c.early_s c.late_s && ltb_ℤ c.late_s c.very_late_s)) "ON_TIME"
              (bands_iff))
            (above c.maintenance_interval (pos 0)))
          (at_least c.retention_days (pos 1)))
        (at_least c.partition_lookahead (pos 1))

  abbrev pub HttpSound : Type 0
  HttpSound =
      ((((((((((((c.addr ≢ "")) × (pos 0 <ℤ c.read_timeout)) × (pos 0 <ℤ c.write_timeout))
                      × (c.flush_interval <ℤ c.shutdown_grace))
                    × (lib.not_positive c.http_rate_limit ≡ false))
                  × (pos 1 ≤ℤ c.history_max_days))
                × (pos 0 <ℤ c.cache_ttl))
              × (c.poll_interval <ℤ c.ready_max_feed_age))
            × OriginSound lib c.cors_origin)
          × ((c.tls_cert_file ≡ "") ↔ (c.tls_key_file ≡ "")))
        × ProfilerSound lib c.pprof_addr)
      × (pos 2 ≤ℤ c.max_conns)

  tls_files_iff :
      ((xor lib (blank c.tls_cert_file) (blank c.tls_key_file)) ≡ false)
      ↔ ((c.tls_cert_file ≡ "") ↔ (c.tls_key_file ≡ ""))
  tls_files_iff = (
    (λ h. (
      (λ e. ground (arith, h, e, eq_iff c.tls_cert_file "", eq_iff c.tls_key_file "")),
      λ e. ground (arith, h, e, eq_iff c.tls_cert_file "", eq_iff c.tls_key_file ""),
    )),
    λ h. elim (Bool-cases (str_eq c.tls_cert_file "")) [
      | inl unset ↦
          rw (unset, (eq_iff c.tls_key_file "").1 (h.0 ((eq_iff c.tls_cert_file "").0 unset))) refl
      | inr given ↦ elim (Bool-cases (str_eq c.tls_key_file "")) [
        | inl other ↦
            absurd (
              (not_blank_iff lib c.tls_cert_file).0 given
                (h.1 ((eq_iff c.tls_key_file "").0 other)))
        | inr both' ↦ rw (given, both') refl
      ]
    ],
  )

  http_lem : (http_problems lib c ≡ []) ↔ HttpSound
  unfolding http_problems
  http_lem =
      rule _ (ltb_ℤ c.max_conns (pos 2)) "DB_MAX_CONNS"
        (rule _ (bad_pprof lib c.pprof_addr) "PPROF_ADDR"
          (rule _ (xor lib (blank c.tls_cert_file) (blank c.tls_key_file)) "HTTP_TLS_CERT_FILE"
            (rule _ (bad_origin lib c.cors_origin) "HTTP_CORS_ORIGIN"
              (rule _ (leb_ℤ c.ready_max_feed_age c.poll_interval) "READY_MAX_FEED_AGE"
                (rule _ (leb_ℤ c.cache_ttl (pos 0)) "CACHE_TTL"
                  (rule _ (ltb_ℤ c.history_max_days (pos 1)) "HISTORY_MAX_DAYS"
                    (rule _ (lib.not_positive c.http_rate_limit) "HTTP_RATE_LIMIT_RPS"
                      (rule _ (leb_ℤ c.shutdown_grace c.flush_interval) "HTTP_SHUTDOWN_GRACE"
                        (rule _ (leb_ℤ c.write_timeout (pos 0)) "HTTP_WRITE_TIMEOUT"
                          (rule _ (leb_ℤ c.read_timeout (pos 0)) "HTTP_READ_TIMEOUT"
                            (first (blank c.addr) "HTTP_ADDR" (not_blank_iff lib c.addr))
                            (above c.read_timeout (pos 0)))
                          (above c.write_timeout (pos 0)))
                        (above c.shutdown_grace (c.flush_interval)))
                      (as_it_is (lib.not_positive c.http_rate_limit)))
                    (at_least c.history_max_days (pos 1)))
                  (above c.cache_ttl (pos 0)))
                (above c.ready_max_feed_age (c.poll_interval)))
              (origin_iff lib c.cors_origin))
            (tls_files_iff))
          (profiler_iff lib c.pprof_addr))
        (at_least c.max_conns (pos 2))

  -- validate reports no problem exactly if every rule holds: each duration, count and limit is in its
  -- range, and the rates pass the float64 test against zero; a batch fits the queue, the delay bands
  -- are in order, the shutdown outlasts a flush, and readiness outlasts a poll; the TLS files are both
  -- set or neither; the address is not empty; the database's URL, if set, has a scheme of PostgreSQL;
  -- a CORS origin, if set, has a scheme of the web and a host, and no path or query; and a profiler
  -- listens on localhost or a loopback address.
  pub validate_lem :
      (validate lib c ≡ [])
      ↔ (PollSound × (ScheduleSound × (IngestSound × (MaintainSound × HttpSound))))
  unfolding validate
  validate_lem = both (poll_problems lib c) _ poll_lem (
      both (schedule_problems lib c) _ schedule_lem (
        both (ingest_problems lib c) _ ingest_lem
          (both (maintain_problems lib c) (http_problems lib c) maintain_lem http_lem)))
