-- ===== src/Ingest/Pipeline/Drops.antt =====
-- What a full queue and a shutdown lose.
use headway.Base.{
  ℕ, suc, pos, ◌≤ℤ◌, ◌+◌, ◌<◌, Bool, true, false, List, [], ◌∷◌, ◌++◌, Option, none, some, length,
  ltb, ◌≡◌, refl, arith, Bool-cases, inl, inr, subst, ap,
}
use headway.Store.Retry.{Errors}
use headway.Base.Dict.{get, get-remove_self}
use headway.Ingest.{Observation, key, key_eq}
use headway.Ingest.Filter.{admit, forget, record_entry, entry_of, make_room}
use headway.Ingest.Filter.Changes.{admit_unknown, admit-admit}
use headway.Ingest.Writer.{Event, Database, turn}
use headway.Ingest.Writer.Balance.{IsHonest, flush_lem}
use headway.Ingest.Pipeline.{Pipeline, PipelineConfig, submit, offer, Move, Reachable}
use headway.Ingest.Pipeline.Balance.{Reachable-IsBalanced, Move-IsBalanced}

-- The filter does not remember what the queue refused.
abbrev Refused : Observation → Pipeline → Option (Pipeline × Bool) → Type 0
Refused o p none = Unit
Refused o p (some (q, queued)) =
    q.dropped ≡ suc p.dropped
    → (get (key o) q.filter.entries ≡ none) × (q.closed ≡ false) × (q.capacity ≡ p.capacity)

offer-Refused : (o : Observation) (p : Pipeline) → Refused o p (offer o p)
unfolding forget
offer-Refused o p = elim (Bool-cases p.closed) [
  | inl c ↦ rw c tt
  | inr c ↦ elim (Bool-cases (ltb (length p.queue) p.capacity)) [
    | inl l ↦ rw (c, l) (λ h. ground (arith, h))
    | inr l ↦ rw (c, l) (λ h. (get-remove_self (key o) p.filter.entries, refl, refl))
  ]
]

submit-Refused : (o : Observation) (p : Pipeline) → Refused o p (submit o p)
unfolding submit
submit-Refused o p = elim (Bool-cases (admit o p.filter).1) [
  | inl c ↦ rw c (offer-Refused o (record p { filter = (admit o p.filter).0 }))
  | inr c ↦ rw c (λ h. ground (arith, h))
]

has_room : (rest : List Observation) (n : ℕ) → length rest < n → ltb (length rest) n ≡ true
has_room rest n h = ground arith

-- A submission that the full queue drops costs one write and no value: once the writer has made room,
-- the same observation is queued when it is submitted again, while a filter that still remembered the
-- first would suppress it, if the threshold is not negative. No other call comes between the accesses
-- of these.
pub submit_again :
    (o : Observation) (p q : Pipeline) (queued : Bool) (rest : List Observation)
    → submit o p ≡ some (q, queued)
    → q.dropped ≡ suc p.dropped
    → length rest < p.capacity
    → pos 0 ≤ℤ p.filter.min_delta
    → ((again : Pipeline) × (submit o (record q { queue = rest }) ≡ some (again, true))
        × (again.queue ≡ rest ++ o ∷ []))
      × (let remembered = (admit o p.filter).0 in
          submit o (record q { queue = rest; filter = remembered })
          ≡ some (
            record q {
              queue = rest;
              filter = record remembered { suppressed = suc remembered.suppressed };
            },
            false,
          ))
unfolding submit
submit_again o p q queued rest e h room nonneg =
    let (forgotten, open_, cap) = subst (Refused o p) e (submit-Refused o p) h in
    (
      rw (admit_unknown o q.filter forgotten, open_, has_room rest q.capacity (rw cap room))
          (
            record q {
              queue = rest ++ o ∷ [];
              closed = false;
              filter = record_entry (key o) (entry_of o) (make_room q.filter);
            },
            refl,
            refl,
          ),
      rw (admit-admit o p.filter nonneg) refl,
    )

module _ (errors : Errors) where
  -- A shutdown that ends in time loses nothing: when the writer returns because the channel is closed
  -- and drained, and no call of Submit is in flight, each observation that was ever admitted is counted
  -- as dropped, written, failed or conflicting, and none is left in the queue or the batch, if no
  -- statement inserts more rows than it is given.
  pub drained :
      (cfg : PipelineConfig) (p : Pipeline) (db : Database errors)
      → Reachable errors cfg (record { pipeline = p; calls = [] })
      → p.started ≡ true
      → p.returned ≡ false
      → p.closed ≡ true
      → p.queue ≡ []
      → IsHonest errors db
      → (let w = (turn errors Event.closed db p.writer).0 in
          (w.batch ≡ []) × (p.filter.admitted ≡ p.dropped + w.written + w.failed + w.conflicts))
  unfolding turn
  drained cfg p db reach st re cl empty honest =
      let after =
        Move-IsBalanced errors p
          (record p { returned = true; writer = (turn errors Event.closed db p.writer).0 }) []
          (Move.draining p db st re cl empty honest)
          (Reachable-IsBalanced errors cfg (record { pipeline = p; calls = [] }) reach) in
      let left = (flush_lem errors db p.writer).0 in
      (left, omega (arith, after.0, ap length left, ap length empty))
