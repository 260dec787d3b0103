-- ===== src/Examples/Pipelines.antt =====
-- Tests of the pipeline: one observation is queued, another finds the queue full, and the writer drains it.
use headway.Base.{
  pos, suc, length, Bool, true, false, [], ◌∷◌, Option, none, some, ◌+◌, ◌≤◌, ◌≡◌, refl, arith,
}
use headway.Base.Dict.{get, put, remove}
use headway.Ingest.{key, key_beq}
use headway.Ingest.Filter.{new_filter, entry_of, admit, make_room, record_entry, forget}
use headway.Ingest.Pipeline.{
  Pipeline, PipelineConfig, new_pipeline, submit, start, pipeline_stats, State, Move, Step,
  begin_submit, advance, Phase, Reachable as PipelineReachable,
}
use headway.Ingest.Pipeline.Balance.{pipeline_balances}
use headway.Ingest.Pipeline.Drops.{submit_again}
use headway.Examples.Data.{observation_at, simple_errors}

abbrev pub pipeline_config : PipelineConfig
pipeline_config = record {
  queue_size = 1;
  batch_size = pos 2;
  flush_interval = pos 0;
  write_timeout = pos 0;
  filter_min_delta_s = pos 15;
  filter_max_entries = 1000;
}

abbrev after : Option (Pipeline × Bool) → Pipeline → Pipeline
after none p = p
after (some (q, queued)) p = q

abbrev started : Pipeline
started = start (new_pipeline pipeline_config)

abbrev queued_x : Pipeline
queued_x = after (submit (observation_at "x" (pos 30)) started) started

abbrev dropped_y : Pipeline
dropped_y = after (submit (observation_at "y" (pos 30)) queued_x) queued_x

queued_x_lem : submit (observation_at "x" (pos 30)) started ≡ some (queued_x, true)
unfolding submit admit new_pipeline start new_filter get
queued_x_lem = refl

dropped_y_lem : submit (observation_at "y" (pos 30)) queued_x ≡ some (dropped_y, false)
unfolding submit admit new_pipeline start new_filter get put key entry_of record_entry make_room
    forget remove key_beq
dropped_y_lem = refl

-- The call with y is still in flight: the filter has admitted it, and the queue has refused it.
abbrev at_rest : State
at_rest = record { pipeline = started; calls = [] }

abbrev taken_x : State
taken_x = record { pipeline = queued_x; calls = [] }

abbrev refused_y : State
refused_y = record {
  pipeline = record queued_x { filter = (admit (observation_at "y" (pos 30)) queued_x.filter).0 };
  calls = (Phase.refused, observation_at "y" (pos 30)) ∷ [];
}

at_rest-Reachable : PipelineReachable simple_errors pipeline_config at_rest
unfolding new_pipeline
at_rest-Reachable =
    PipelineReachable.stepped (record { pipeline = new_pipeline pipeline_config; calls = [] })
      at_rest PipelineReachable.created
      (Step.moving (record { pipeline = new_pipeline pipeline_config; calls = [] }) started
        (Move.starting (new_pipeline pipeline_config) refl))

taken_x-Reachable : PipelineReachable simple_errors pipeline_config taken_x
unfolding submit admit new_pipeline start new_filter get begin_submit advance
taken_x-Reachable =
    let o = observation_at "x" (pos 30) in
    PipelineReachable.stepped (begin_submit o at_rest) taken_x
      (PipelineReachable.stepped at_rest (begin_submit o at_rest) at_rest-Reachable
        (Step.submitting at_rest o))
      (Step.advancing (begin_submit o at_rest) [] [] Phase.admitted o queued_x none refl refl)

refused_y-Reachable : PipelineReachable simple_errors pipeline_config refused_y
unfolding submit admit new_pipeline start new_filter get put key entry_of record_entry make_room
    forget remove key_beq begin_submit advance
refused_y-Reachable =
    let o = observation_at "y" (pos 30) in
    PipelineReachable.stepped (begin_submit o taken_x) refused_y
      (PipelineReachable.stepped taken_x (begin_submit o taken_x) taken_x-Reachable
        (Step.submitting taken_x o))
      (Step.advancing (begin_submit o taken_x) [] [] Phase.admitted o refused_y.pipeline
        (some Phase.refused) refl refl)

pipeline_balances_example :
    (let t = pipeline_stats refused_y.pipeline in
      (t.admitted
        ≡ t.dropped
          + t.queue_len
          + length refused_y.pipeline.writer.batch
          + t.written
          + t.failed
          + t.conflicts
          + 1)
      × (t.queue_len ≤ t.queue_cap))
pipeline_balances_example =
    pipeline_balances simple_errors pipeline_config refused_y refused_y-Reachable

submit_again_example :
    ((again : Pipeline) × (submit (observation_at "y" (pos 30)) (record dropped_y { queue = [] })
        ≡ some (again, true))
      × (again.queue ≡ observation_at "y" (pos 30) ∷ []))
    × (let remembered = (admit (observation_at "y" (pos 30)) queued_x.filter).0 in
        submit (observation_at "y" (pos 30)) (record dropped_y { queue = []; filter = remembered })
        ≡ some (
          record dropped_y {
            queue = [];
            filter = record remembered { suppressed = suc remembered.suppressed };
          },
          false,
        ))
unfolding submit admit new_pipeline start new_filter get put key entry_of record_entry make_room
    forget remove key_beq
submit_again_example =
    submit_again (observation_at "y" (pos 30)) queued_x dropped_y false [] dropped_y_lem refl
      (omega arith) (omega arith)
