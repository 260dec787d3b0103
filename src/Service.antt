-- ===== src/Service.antt =====
-- cmd/transitlateagain/main.go: what becomes of one response of a feed, decodeAndIngest. The metrics and the
-- log lines are left out.
pub mod Poll
pub mod Submissions
use headway.Base.{
  ℕ, suc, ltb, length, ◌++◌, String, Bool, true, false, List, [], ◌∷◌, Option, none, some,
  if◌then◌else◌,
}
use headway.ServiceTime.{Time, Zone}
use headway.Gtfsrt.{DecodedFeed}
use headway.Gtfsrt.Decode.{Protobuf, decode}
use headway.Match.Counts.{Counts}
use headway.Match.Matcher.{Matcher, match_feed}
use headway.Ingest.{Observation, key, key_eq}
use headway.Ingest.Filter.{Filter, admit, forget}
use headway.Ingest.Pipeline.{Pipeline, State}
use headway.Cache.{Cache, update}

-- The parts that main wires together and that a poll changes; `shared` is the pipeline, with the calls of
-- the others in flight.
pub record Service : Type 0 where
  pub matcher : Matcher
  pub shared : State
  pub latest : Cache

-- What the others do before each access of a call of Submit: the writer, the other pollers with their
-- own calls, and the maintenance job.
pub record Between : Type 0 where
  pub before_filter : State → State
  pub before_send : State → State
  pub before_forget : State → State
  pub before_count : State → State

abbrev pub in_state : State → Pipeline → State
in_state s p = record s { pipeline = p }

-- The full queue's branch of Submit.
abbrev pub drop_among : Between → Observation → State → State
drop_among b o s =
    let f = b.before_forget s in
    let g = in_state f (record f.pipeline { filter = forget (key o) f.pipeline.filter }) in
    let c = b.before_count g in in_state c (record c.pipeline { dropped = suc c.pipeline.dropped })

-- The send, at the channel that it finds.
abbrev pub send_among : Between → Observation → State → Option (State × Bool)
send_among b o t =
    if t.pipeline.closed
    then none
    else if ltb (length t.pipeline.queue) t.pipeline.capacity
    then some (in_state t (record t.pipeline { queue = t.pipeline.queue ++ o ∷ [] }), true)
    else some (drop_among b o t, false)

abbrev pub filtered_among : Between → Observation → State → Filter × Bool → Option (State × Bool)
filtered_among b o s (filter, news) =
    let q = in_state s (record s.pipeline { filter = filter }) in
    if news then send_among b o (b.before_send q) else some (q, false)

-- Submit among the others; the calls of the state are theirs.
unfoldable pub submit_among : Between → Observation → State → Option (State × Bool)
submit_among b o s = let t = b.before_filter s in filtered_among b o t (admit o t.pipeline.filter)

abbrev pub tally : Bool → ℕ → ℕ
tally true n = suc n
tally false n = n

-- The loop over the observations, with the number queued; `others n` are the others during the call
-- that `n` calls came before. It has no value where Submit panics.
unfoldable pub submit_all : (ℕ → Between) → ℕ → List Observation → State → ℕ → Option (State × ℕ)
unfolding submit_among
submit_all others n [] s queued = some (s, queued)
submit_all others n (o ∷ os) s queued = elim (submit_among (others n) o s) [
  | none ↦ none
  | some (r, ok) ↦ submit_all others (suc n) os r (tally ok queued)
]

pub record PollReport : Type 0 where
  pub observations : List Observation
  pub counts : Counts
  pub queued : ℕ

module _ (loc : Zone) (pb : Protobuf) (others : ℕ → Between) where
  abbrev pub submitted :
      DecodedFeed
      → List Observation × Counts
      → Service
      → Option (State × ℕ)
      → Option (Service × Option PollReport)
  submitted d (obs, counts) s none = none
  submitted d (obs, counts) s (some (p, queued)) = some (
    record s { shared = p },
    some (record { observations = obs; counts = counts; queued = queued }),
  )

  abbrev pub ingest :
      String
      → DecodedFeed
      → (List Observation × Counts) × Matcher
      → Service
      → Option (Service × Option PollReport)
  ingest feed_id d (m, matcher) s =
      submitted d m
        (record s { matcher = matcher; latest = update feed_id d.header_ts m.0 s.latest })
        (submit_all others 0 m.0 s.shared 0)

  abbrev pub handle_decoded :
      String → Option DecodedFeed → Service → Option (Service × Option PollReport)
  handle_decoded feed_id none s = some (s, none)
  handle_decoded feed_id (some d) s =
      ingest feed_id d (match_feed loc feed_id d.updates s.matcher) s

  -- The handler: the service after it, and no report where the body does not decode.
  unfoldable pub decode_and_ingest :
      String → List ℕ → Time → Service → Option (Service × Option PollReport)
  unfolding submit_all
  decode_and_ingest feed_id body fetched s =
      handle_decoded feed_id (decode pb feed_id body fetched) s
