-- ===== src/Ingest/Writer/Balance.antt =====
-- What the writer's loop keeps of the observations it receives.
use headway.Base.{
  ℕ, ◌+◌, ◌≤◌, Bool, true, false, List, [], ◌∷◌, ◌++◌, ◌⊎◌, inl, inr, length, if◌then◌else◌, arith,
  Bool-cases, All, ◌≡◌, refl, append-nil, append_assoc, ⊎-cases, length-append, ap, sym, ◌∙◌,
}
use headway.Store.Retry.{Errors, retry}
use headway.Store.Retry.Endings.{retry_value}
use headway.Ingest.{Observation}
use headway.Ingest.Writer.{
  Writer, WriterConfig, new_writer, sub_uint64, Database, write_batch, flush, Event, append,
  is_full, turn, run, flush_of,
}

module _ (errors : Errors) where
  abbrev pub of_event : Event → List Observation → List Observation
  of_event (Event.received o) rest = o ∷ rest
  of_event Event.closed rest = []
  of_event Event.tick rest = rest
  of_event Event.deadline rest = []

  -- The observations that Run receives before it returns, in their order.
  abbrev pub accepted : List (Event × Database errors) → List Observation
  accepted [] = []
  accepted ((ev, db) ∷ events) = of_event ev (accepted events)

  abbrev pub concat : List (List Observation) → List Observation
  concat [] = []
  concat (b ∷ bs) = b ++ concat bs

  concat-append : (as' bs : List (List Observation)) → concat (as' ++ bs) ≡ concat as' ++ concat bs
  concat-append [] bs = refl
  concat-append (a ∷ as') bs = rw (concat-append as' bs, append_assoc a (concat as') (concat bs))

  flush_of_lem :
      (db : Database errors) (batch : List Observation) (w : Writer)
      → w.batch ≡ batch
      → ((flush_of errors db batch w).0.batch ≡ [])
        × (concat (flush_of errors db batch w).1 ≡ batch)
  flush_of_lem db [] w e = (e, refl)
  flush_of_lem db (o ∷ os) w e = (refl, append-nil (o ∷ os))

  pub flush_lem :
      (db : Database errors) (w : Writer)
      → ((flush errors db w).0.batch ≡ []) × (concat (flush errors db w).1 ≡ w.batch)
  unfolding flush
  flush_lem db w = flush_of_lem db w.batch w refl

  -- One turn: what was held and received is handed over or held, and all is handed over when Run
  -- returns.
  turn_lem :
      (ev : Event) (db : Database errors) (w : Writer) (rest : List Observation)
      → (concat (turn errors ev db w).1
            ++ ((turn errors ev db w).0.batch ++ (if (turn errors ev db w).2 then [] else rest))
          ≡ w.batch ++ of_event ev rest)
        × (((turn errors ev db w).2 ≡ false) ⊎ ((turn errors ev db w).0.batch ≡ []))
  unfolding turn
  turn_lem (Event.received o) db w rest = elim (Bool-cases (is_full (append o w))) [
    | inl c ↦ rw c (
      rw (
        (flush_lem db (append o w)).0,
        (flush_lem db (append o w)).1,
        append,
        append_assoc w.batch (o ∷ []) rest,
      ),
      inl refl,
    )
    | inr c ↦ rw c (rw (append_assoc w.batch (o ∷ []) rest), inl refl)
  ]
  turn_lem Event.closed db w rest =
      (rw ((flush_lem db w).0, (flush_lem db w).1, append-nil w.batch), inr (flush_lem db w).0)
  turn_lem Event.tick db w rest = (rw ((flush_lem db w).0, (flush_lem db w).1), inl refl)
  turn_lem Event.deadline db w rest =
      (rw ((flush_lem db w).0, (flush_lem db w).1, append-nil w.batch), inr (flush_lem db w).0)

  ended :
      (a b rest whole : List Observation) (t : Bool)
      → t ≡ true
      → a ++ (b ++ (if t then [] else rest)) ≡ whole
      → a ++ b ≡ whole
  ended a b rest whole true h e = ap (λ c. a ++ c) (sym (append-nil b)) ∙ e
  ended a b rest whole false h e = ground arith

  going :
      (a b rest whole : List Observation) (t : Bool)
      → t ≡ false
      → a ++ (b ++ (if t then [] else rest)) ≡ whole
      → a ++ (b ++ rest) ≡ whole
  going a b rest whole true h e = ground arith
  going a b rest whole false h e = e

  abbrev Ends : Writer × List (List Observation) × Bool → Type 0
  Ends r = (r.2 ≡ false) ⊎ (r.0.batch ≡ [])

  ends_lem :
      (b : Bool) (batch : List Observation)
      → b ≡ true
      → (b ≡ false) ⊎ (batch ≡ [])
      → (true ≡ false) ⊎ (batch ≡ [])
  ends_lem b batch h e = ground arith

  run_from_lem :
      (events : List (Event × Database errors)) (w : Writer)
      → (concat (run errors events w).1 ++ (run errors events w).0.batch
          ≡ w.batch ++ accepted events)
        × Ends (run errors events w)
  unfolding run
  run_from_lem [] w = (rw (append-nil w.batch), inl refl)
  run_from_lem ((ev, db) ∷ events) w =
      let t = turn errors ev db w in
      let next = run errors events t.0 in
      let h = turn_lem ev db w (accepted events) in
      let rest = run_from_lem events t.0 in
      elim (Bool-cases t.2) [
        | inl c ↦ rw c (
          ended (concat t.1) t.0.batch (accepted events) (w.batch ++ of_event ev (accepted events))
              t.2 c h.0,
          ends_lem t.2 t.0.batch c h.1,
        )
        | inr c ↦ rw c (
          rw
              (
                concat-append t.1 next.1,
                append_assoc (concat t.1) (concat next.1) next.0.batch,
                rest.0,
              )
              (going (concat t.1) t.0.batch (accepted events)
                (w.batch ++ of_event ev (accepted events)) t.2 c h.0),
          rest.1,
        )
      ]

  -- The documented behaviour of a statement: it inserts at most the rows it is given.
  abbrev pub IsHonest : Database errors → Type 0
  IsHonest db =
      (batch : List Observation) (k n : ℕ) → (db batch).outcome k ≡ inr n → n ≤ length batch

  abbrev pub counted_rows : Writer → ℕ
  counted_rows w = w.written + w.failed + w.conflicts

  write_batch-counted :
      (db : Database errors) (batch : List Observation) (w : Writer)
      → IsHonest db
      → counted_rows (write_batch errors db batch w) ≡ counted_rows w + length batch
  unfolding write_batch sub_uint64
  write_batch-counted db batch w honest = elim (⊎-cases (retry errors (db batch))) [
    | inl (err, e) ↦ rw e (omega arith)
    | inr (n, e) ↦
        rw e
          (ground (arith, retry_value errors (db batch) (λ n. n ≤ length batch) (honest batch) n e))
  ]

  flush_of-counted :
      (db : Database errors) (batch : List Observation) (w : Writer)
      → IsHonest db
      → counted_rows (flush_of errors db batch w).0
        ≡ counted_rows w + length (concat (flush_of errors db batch w).1)
  flush_of-counted db [] w honest = omega arith
  flush_of-counted db (o ∷ os) w honest =
      rw (append-nil os) (write_batch-counted db (o ∷ os) w honest)

  turn-counted :
      (ev : Event) (db : Database errors) (w : Writer)
      → IsHonest db
      → counted_rows (turn errors ev db w).0
        ≡ counted_rows w + length (concat (turn errors ev db w).1)
  unfolding turn flush append
  turn-counted (Event.received o) db w honest = elim (Bool-cases (is_full (append o w))) [
    | inl c ↦ rw c (flush_of-counted db (append o w).batch (append o w) honest)
    | inr c ↦ rw c (omega arith)
  ]
  turn-counted Event.closed db w honest = flush_of-counted db w.batch w honest
  turn-counted Event.tick db w honest = flush_of-counted db w.batch w honest
  turn-counted Event.deadline db w honest = flush_of-counted db w.batch w honest

  nothing_more : (xs : List Observation) (b : Bool) → xs ++ (if b then [] else []) ≡ xs
  nothing_more xs true = append-nil xs
  nothing_more xs false = append-nil xs

  -- One turn: each observation that was held or is received is counted or held.
  pub turn_total :
      (ev : Event) (db : Database errors) (w : Writer)
      → IsHonest db
      → counted_rows (turn errors ev db w).0 + length (turn errors ev db w).0.batch
        ≡ counted_rows w + length w.batch + length (of_event ev [])
  turn_total ev db w honest =
      let t = turn errors ev db w in
      omega (
        arith,
        turn-counted ev db w honest,
        ap length (turn_lem ev db w []).0,
        length-append (concat t.1) (t.0.batch ++ (if t.2 then [] else [])),
        length-append w.batch (of_event ev []),
        ap length (nothing_more t.0.batch t.2),
      )

  run-counted :
      (events : List (Event × Database errors)) (w : Writer)
      → All (λ p. IsHonest p.1) events
      → counted_rows (run errors events w).0
        ≡ counted_rows w + length (concat (run errors events w).1)
  unfolding run
  run-counted [] w honest = omega arith
  run-counted ((ev, db) ∷ events) w honest =
      let t = turn errors ev db w in
      let next = run errors events t.0 in
      elim (Bool-cases t.2) [
        | inl c ↦ rw c (turn-counted ev db w honest.0)
        | inr c ↦ rw c (
            rw (concat-append t.1 next.1) (
              omega (
                arith,
                length-append (concat t.1) (concat next.1),
                turn-counted ev db w honest.0,
                run-counted events t.0 honest.1,
              )))
      ]

  -- From its start to the end of any sequence of events, if no statement inserts more rows than it is
  -- given: the batches handed to the database, in their order, and then the batch still held are the
  -- observations that Run receives before it returns, in their order; nothing is held once Run has
  -- returned; and each observation handed over is counted once, as written, failed or conflicting.
  pub run_balances :
      (events : List (Event × Database errors)) (cfg : WriterConfig)
      → All (λ p. IsHonest p.1) events
      → (concat (run errors events (new_writer cfg)).1
            ++ (run errors events (new_writer cfg)).0.batch
          ≡ accepted events)
        × (((run errors events (new_writer cfg)).2 ≡ false)
            ⊎ ((run errors events (new_writer cfg)).0.batch ≡ []))
        × (counted_rows (run errors events (new_writer cfg)).0
              + length (run errors events (new_writer cfg)).0.batch
            ≡ length (accepted events))
  unfolding new_writer
  run_balances events cfg honest =
      let w = new_writer cfg in
      let r = run errors events w in
      let (whole, ends) = run_from_lem events w in
      (
        whole,
        ends,
        omega (
          arith,
          run-counted events w honest,
          length-append (concat r.1) r.0.batch,
          ap length whole,
        ),
      )
