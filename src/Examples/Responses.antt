-- ===== src/Examples/Responses.antt =====
-- Test of the handler of a response: a body of two trips, one of which the timetable has.
use headway.Base.{ℕ, pos, [], ◌∷◌, none, some}
use headway.ServiceTime.{Time}
use headway.Gtfsrt.Decode.{Protobuf}
use headway.Ingest.Pipeline.{State, expire_filter_before, new_pipeline, start}
use headway.Cache.{new_cache}
use headway.Service.{Service, Between}
use headway.Examples.Data.{plain, body, timetable, options}
use headway.Examples.Pipelines.{pipeline_config}

-- Every response holds `body`, but an empty one does not decode.
abbrev decoder : Protobuf
decoder = record plain { unmarshal = λ bytes. elim bytes [ [] ↦ none | b ∷ bs ↦ some body ] }

abbrev service : Service
service = record {
  matcher = record {
    opts = options;
    schedules = ("trains", some timetable) ∷ [];
    last = ("trains", none) ∷ [];
  };
  shared = record { pipeline = start (new_pipeline pipeline_config); calls = [] };
  latest = new_cache (pos 300_000_000_000);
}

abbrev fetched : Time
fetched = pos 1_700_000_001_000_000_000

-- Before each send, the maintenance job expires the filter.
abbrev expires : State → State
expires s = record s { pipeline = (expire_filter_before (pos 19_000) s.pipeline).0 }

abbrev others : ℕ → Between
others n = record {
  before_filter = λ s. s;
  before_send = expires;
  before_forget = λ s. s;
  before_count = λ s. s;
}
