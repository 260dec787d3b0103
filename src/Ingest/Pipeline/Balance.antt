-- ===== src/Ingest/Pipeline/Balance.antt =====
-- Where the admitted observations are.
use headway.Base.{
  ℕ, suc, ◌+◌, ◌≤◌, Bool, true, false, List, [], ◌∷◌, ◌++◌, Option, none, some, length, ltb, ◌≡◌,
  refl, arith, Bool-cases, length-append, Option-cases, inl, inr, subst, ap,
}
use headway.Store.Retry.{Errors}
use headway.Ingest.{Observation, key, key_eq}
use headway.Ingest.Filter.{
  Filter, new_filter, admit, forget, expire_before, evict_oldest, make_room, record_entry, changed,
  entry_of,
}
use headway.Ingest.Writer.{Event, new_writer}
use headway.Ingest.Pipeline.{
  Pipeline, PipelineConfig, new_pipeline, start, close, expire_filter_before, Phase, admitted,
  refused, forgotten, State, begin_submit, advance, in_flight, Move, Step, Reachable,
  pipeline_stats,
}
use headway.Ingest.Filter.Changes.{admit_known, admit_unknown}
use headway.Ingest.Writer.Balance.{turn_total}
use headway.Base.Dict.{get}

abbrev bit : Bool → ℕ
bit true = 1
bit false = 0

admit-admitted :
    (o : Observation) (f : Filter) → (admit o f).0.admitted ≡ f.admitted + bit (admit o f).1
unfolding record_entry make_room evict_oldest
admit-admitted o f = elim (Option-cases (get (key o) f.entries)) [
  | inl e ↦ rw (admit_unknown o f e) (ground arith)
  | inr (prev, e) ↦ elim (Bool-cases (changed prev (entry_of o) f.min_delta)) [
    | inl c ↦ rw (admit_known o f prev e, c) (omega arith)
    | inr c ↦ rw (admit_known o f prev e, c) (omega arith)
  ]
]

-- What has become of the observations that the channel took, and of those it did not.
abbrev pub settled : Pipeline → ℕ
settled p =
    p.dropped
    + length p.queue
    + length p.writer.batch
    + p.writer.written
    + p.writer.failed
    + p.writer.conflicts

abbrev pub IsBalanced : State → Type 0
IsBalanced s =
    (s.pipeline.filter.admitted ≡ settled s.pipeline + length s.calls)
    × (length s.pipeline.queue ≤ s.pipeline.capacity)

begin_submit-IsBalanced :
    (o : Observation) (s : State) → IsBalanced s → IsBalanced (begin_submit o s)
unfolding begin_submit
begin_submit-IsBalanced o s h =
    let told = admit-admitted o s.pipeline.filter in
    elim (Bool-cases (admit o s.pipeline.filter).1) [
      | inl c ↦ rw c (omega (arith, h.0, told, ap bit c), h.1)
      | inr c ↦ rw c (omega (arith, h.0, told, ap bit c), h.1)
    ]

-- An access keeps the sum of what is settled and of the call itself.
abbrev AfterAdvance : Pipeline → Observation → Option (Pipeline × Option Phase) → Type 0
AfterAdvance p o none = Unit
AfterAdvance p o (some (q, next)) =
    (q.filter.admitted ≡ p.filter.admitted)
    × (settled q + length (in_flight next o) ≡ suc (settled p))
    × (length p.queue ≤ p.capacity → length q.queue ≤ q.capacity)

advance-AfterAdvance :
    (phase : Phase) (o : Observation) (p : Pipeline) → AfterAdvance p o (advance phase o p)
unfolding advance forget
advance-AfterAdvance admitted o p = elim (Bool-cases p.closed) [
  | inl c ↦ rw c tt
  | inr c ↦ elim (Bool-cases (ltb (length p.queue) p.capacity)) [
    | inl l ↦
        rw (c, l)
          (
            refl,
            omega (arith, length-append p.queue (o ∷ [])),
            λ k. ground (arith, length-append p.queue (o ∷ []), l),
          )
    | inr l ↦ rw (c, l) (refl, omega arith, λ k. k)
  ]
]
advance-AfterAdvance refused o p = (refl, omega arith, λ k. k)
advance-AfterAdvance forgotten o p = (refl, omega arith, λ k. k)

advancing-IsBalanced :
    (s : State) (before after : List (Phase × Observation)) (phase : Phase) (o : Observation)
    (p : Pipeline) (next : Option Phase)
    → s.calls ≡ before ++ (phase, o) ∷ after
    → AfterAdvance s.pipeline o (some (p, next))
    → IsBalanced s
    → IsBalanced (record { pipeline = p; calls = before ++ (in_flight next o ++ after) })
advancing-IsBalanced s before after phase o p next e kept h = (
  omega (
    arith,
    h.0,
    kept.0,
    kept.1,
    ap length e,
    length-append before ((phase, o) ∷ after),
    length-append before (in_flight next o ++ after),
    length-append (in_flight next o) after,
  ),
  kept.2 h.1,
)

module _ (errors : Errors) where
  pub Move-IsBalanced :
      (p q : Pipeline) (calls : List (Phase × Observation))
      → Move errors p q
      → IsBalanced (record { pipeline = p; calls = calls })
      → IsBalanced (record { pipeline = q; calls = calls })
  unfolding start close expire_filter_before expire_before
  Move-IsBalanced p q calls (Move.starting r n) h = h
  Move-IsBalanced p q calls (Move.expiring r d) h = h
  Move-IsBalanced p q calls (Move.closing r n) h = h
  Move-IsBalanced p q calls (Move.receiving r o os db st re e honest) h = (
    omega (arith, h.0, turn_total errors (Event.received o) db p.writer honest, ap length e),
    omega (arith, h.1, ap length e),
  )
  Move-IsBalanced p q calls (Move.ticking r db st re honest) h =
      (omega (arith, h.0, turn_total errors Event.tick db p.writer honest), h.1)
  Move-IsBalanced p q calls (Move.draining r db st re cl e honest) h =
      (omega (arith, h.0, turn_total errors Event.closed db p.writer honest), h.1)
  Move-IsBalanced p q calls (Move.cancelling r db st re cl honest) h =
      (omega (arith, h.0, turn_total errors Event.deadline db p.writer honest), h.1)

  Step-IsBalanced : (s r : State) → Step errors s r → IsBalanced s → IsBalanced r
  Step-IsBalanced s r (Step.submitting t o) h = begin_submit-IsBalanced o s h
  Step-IsBalanced s r (Step.moving t p move) h = Move-IsBalanced s.pipeline p s.calls move h
  Step-IsBalanced s r (Step.advancing t before after phase o p next e a) h =
      advancing-IsBalanced s before after phase o p next e
        (subst (AfterAdvance s.pipeline o) a (advance-AfterAdvance phase o s.pipeline)) h

  pub Reachable-IsBalanced :
      (cfg : PipelineConfig) (s : State) → Reachable errors cfg s → IsBalanced s
  unfolding new_pipeline new_writer new_filter
  Reachable-IsBalanced cfg s Reachable.created = (refl, omega arith)
  Reachable-IsBalanced cfg s (Reachable.stepped q r reach step) =
      Step-IsBalanced q s step (Reachable-IsBalanced cfg q reach)

  -- However the accesses of the calls of Submit interleave with each other, with the writer's turns,
  -- with the expiry of the filter and with the shutdown, between two turns of the writer and if no
  -- statement inserts more rows than it is given: each admitted observation is that of a call still in
  -- flight, or is counted as dropped, or is in the queue or in the batch, or is counted as written,
  -- failed or conflicting, and only once; and the queue does not pass its capacity. The counters are
  -- those of one state; Stats reads them one after another.
  pub pipeline_balances :
      (cfg : PipelineConfig) (s : State)
      → Reachable errors cfg s
      → (let t = pipeline_stats s.pipeline in
          (t.admitted
            ≡ t.dropped
              + t.queue_len
              + length s.pipeline.writer.batch
              + t.written
              + t.failed
              + t.conflicts
              + length s.calls)
          × (t.queue_len ≤ t.queue_cap))
  unfolding pipeline_stats
  pipeline_balances cfg s reach = Reachable-IsBalanced cfg s reach
