-- ===== src/Service/Poll.antt =====
-- What the handler of a response returns.
use headway.Base.{ℕ, String, List, some, ◌≡◌}
use headway.ServiceTime.{Time, Zone}
use headway.Store.Retry.{Errors}
use headway.Gtfsrt.{DecodedFeed}
use headway.Gtfsrt.Decode.{Protobuf}
use headway.Match.Matcher.{match_feed}
use headway.Ingest.Pipeline.{Steps}
use headway.Cache.{update}
use headway.Service.{Service, Between, PollReport, decode_and_ingest}
use headway.Service.Submissions.{Fates}

module _ (errors : Errors) (loc : Zone) (pb : Protobuf) (others : ℕ → Between) (feed_id : String)
    (body : List ℕ) (fetched : Time) (s : Service) where
  -- What the handler returns for a body that decodes to `d`.
  pub record Ingested (d : DecodedFeed) : Type 0 where
    pub after : Service
    pub report : PollReport
    pub returns : decode_and_ingest loc pb others feed_id body fetched s ≡ some (after, some report)
    pub matched_lem :
        ((report.observations, report.counts), after.matcher)
        ≡ match_feed loc feed_id d.updates s.matcher
    pub latest_lem : after.latest ≡ update feed_id d.header_ts report.observations s.latest
    pub steps : Steps errors s.shared after.shared
    pub fates : Fates others 0 report.observations s.shared after.shared report.queued
