-- ===== src/Service/Submissions.antt =====
-- What becomes of the observations that a handler submits, among the others' accesses.
use headway.Base.{
  ℕ, suc, ◌+◌, ◌<◌, ◌≤◌, Bool, true, false, List, [], ◌∷◌, ◌++◌, Option, none, some, inl, inr,
  if◌then◌else◌, ltb, length, ◌≡◌, refl, ap, subst, ◌∙◌, arith, Bool-cases,
}
use headway.Base.Dict.{get, get-remove_self}
use headway.Store.Retry.{Errors}
use headway.Ingest.{Observation, key, key_eq}
use headway.Ingest.Filter.{admit, forget}
use headway.Ingest.Pipeline.{
  Pipeline, Phase, admitted, refused, forgotten, State, begin_submit, advance, in_flight, Step,
  Steps,
}
use headway.Service.{Between, in_state, drop_among, send_among, submit_among, tally, submit_all}

-- What became of a submission: the filter suppresses it; or the channel has room and takes it behind
-- those that it holds; or the channel is full, the filter forgets the key, and the drop is counted.
pub data Fate (b : Between) (o : Observation) (s : State) : State → Bool → Type 0 where
  suppressed :
      (r : State)
      → (admit o (b.before_filter s).pipeline.filter).1 ≡ false
      → r.pipeline.queue ≡ (b.before_filter s).pipeline.queue
      → Fate b o s r false
  queued :
      (t q r : State)
      → (admit o (b.before_filter s).pipeline.filter).1 ≡ true
      → t ≡ b.before_send q
      → length t.pipeline.queue < t.pipeline.capacity
      → r.pipeline.queue ≡ t.pipeline.queue ++ o ∷ []
      → Fate b o s r true
  dropped :
      (t q g c r : State)
      → (admit o (b.before_filter s).pipeline.filter).1 ≡ true
      → t ≡ b.before_send q
      → t.pipeline.capacity ≤ length t.pipeline.queue
      → get (key o) g.pipeline.filter.entries ≡ none
      → c ≡ b.before_count g
      → r.pipeline.dropped ≡ suc c.pipeline.dropped
      → Fate b o s r false

-- Each of the observations is submitted once, in their order; `n` of them are queued.
pub data Fates (others : ℕ → Between) : ℕ → List Observation → State → State → ℕ → Type 0 where
  all_done : (i : ℕ) (s : State) → Fates others i [] s s 0
  submitted_one :
      (i : ℕ) (o : Observation) (os : List Observation) (s r t : State) (ok : Bool) (n : ℕ)
      → Fate (others i) o s r ok
      → Fates others (suc i) os r t n
      → Fates others i (o ∷ os) s t (if ok then suc n else n)

module _ (errors : Errors) where
  -- The others keep the channel open, which is closed only when every producer has stopped, and what
  -- they do are steps, whatever call of ours is in flight.
  abbrev pub Behaves : (State → State) → Type 0
  Behaves f =
      (s : State)
      → s.pipeline.closed ≡ false
      → ((f s).pipeline.closed ≡ false)
        × ((ours : List (Phase × Observation))
            → Steps errors (record s { calls = ours ++ s.calls })
                (record (f s) { calls = ours ++ (f s).calls }))

  pub record Behave (b : Between) : Type 0 where
    pub filter_lem : Behaves b.before_filter
    pub send_lem : Behaves b.before_send
    pub forget_lem : Behaves b.before_forget
    pub count_lem : Behaves b.before_count

  Steps-trans : (s t r : State) → Steps errors s t → Steps errors t r → Steps errors s r
  Steps-trans s t r (Steps.stay u) more = more
  Steps-trans s t r (Steps.go u v w one some_more) more =
      Steps.go s v r one (Steps-trans v t r some_more more)

  -- Our call, the last to begin, makes its access.
  ours_next :
      (s : State) (phase : Phase) (o : Observation) (p : Pipeline) (next : Option Phase)
      → advance phase o s.pipeline ≡ some (p, next)
      → Step errors
          (record s { calls = (phase, o) ∷ s.calls })
          (record { pipeline = p; calls = in_flight next o ++ s.calls })
  ours_next s phase o p next e =
      Step.advancing (record s { calls = (phase, o) ∷ s.calls }) [] s.calls phase o p next refl e

  record Submitted (b : Between) (o : Observation) (s r : State) (ok : Bool) : Type 0 where
    open' : r.pipeline.closed ≡ false
    steps : Steps errors s r
    fate : Fate b o s r ok

  module _ (b : Between) (behave : Behave b) (o : Observation) where
    full-Steps :
        (t : State)
        → t.pipeline.closed ≡ false
        → ltb (length t.pipeline.queue) t.pipeline.capacity ≡ false
        → ((drop_among b o t).pipeline.closed ≡ false)
          × Steps errors (record t { calls = (admitted, o) ∷ t.calls }) (drop_among b o t)
    unfolding advance forget
    full-Steps t h full =
        let f = b.before_forget t in
        let g = in_state f (record f.pipeline { filter = forget (key o) f.pipeline.filter }) in
        let c = b.before_count g in
        let forgetting = behave.forget_lem t h in
        let counting = behave.count_lem g forgetting.0 in
        (
          counting.0,
          Steps.go _ _ _ (ours_next t admitted o t.pipeline (some refused) (rw (h, full) refl)) (
              Steps-trans _ _ _ (forgetting.1 ((refused, o) ∷ [])) (
                Steps.go _ _ _ (ours_next f refused o g.pipeline (some forgotten) refl) (
                  Steps-trans _ _ _ (counting.1 ((forgotten, o) ∷ []))
                    (Steps.go _ _ _ (ours_next c forgotten o _ none refl) (Steps.stay _))))),
        )

    -- The state after the filter's part, less the call.
    abbrev filtered : State → State
    filtered s = in_state s (record s.pipeline { filter = (admit o s.pipeline.filter).0 })

    begin_known : (s : State) → (admit o s.pipeline.filter).1 ≡ false → Step errors s (filtered s)
    unfolding begin_submit
    begin_known s same = subst (Step errors s) (rw same refl) (Step.submitting s o)

    begin_news :
        (s : State)
        → (admit o s.pipeline.filter).1 ≡ true
        → Step errors s (record (filtered s) { calls = (admitted, o) ∷ s.calls })
    unfolding begin_submit
    begin_news s news = subst (Step errors s) (rw news refl) (Step.submitting s o)

    -- From the send on, at the channel that it finds.
    module _ (s q t : State) (found : t ≡ b.before_send q)
        (news : (admit o (b.before_filter s).pipeline.filter).1 ≡ true)
        (open' : t.pipeline.closed ≡ false)
        (before : Steps errors s (record t { calls = (admitted, o) ∷ t.calls })) where
      send_lem :
          (r : State) × (ok : Bool) × (send_among b o t ≡ some (r, ok)) × Submitted b o s r ok
      unfolding advance forget
      send_lem = elim (Bool-cases (ltb (length t.pipeline.queue) t.pipeline.capacity)) [
        | inl room ↦
            let p = record t.pipeline { queue = t.pipeline.queue ++ o ∷ [] } in
            (
              in_state t p,
              true,
              rw (open', room) refl,
              record {
                open' = open';
                steps = Steps-trans _ _ _ before (
                    Steps.go _ _ _ (ours_next t admitted o p none (rw (open', room) refl))
                      (Steps.stay _));
                fate = queued t q (in_state t p) news found (ground (arith, room)) refl;
              },
            )
        | inr full ↦
            let f = b.before_forget t in
            let g = in_state f (record f.pipeline { filter = forget (key o) f.pipeline.filter }) in
            let rest = full-Steps t open' full in
            (
              drop_among b o t,
              false,
              rw (open', full) refl,
              record {
                open' = rest.0;
                steps = Steps-trans _ _ _ before rest.1;
                fate =
                    dropped t q g (b.before_count g) (drop_among b o t) news found
                      (ground (arith, full)) (get-remove_self (key o) f.pipeline.filter.entries)
                      refl refl;
              },
            )
      ]

    submit_among-Submitted :
        (s : State)
        → s.pipeline.closed ≡ false
        → (r : State) × (ok : Bool) × (submit_among b o s ≡ some (r, ok)) × Submitted b o s r ok
    unfolding submit_among
    submit_among-Submitted s h =
        let t = b.before_filter s in
        let arrived = behave.filter_lem s h in
        elim (Bool-cases (admit o t.pipeline.filter).1) [
          | inr same ↦ (
            filtered t,
            false,
            rw same refl,
            record {
              open' = arrived.0;
              steps =
                  Steps-trans _ _ _ (arrived.1 [])
                    (Steps.go _ _ _ (begin_known t same) (Steps.stay _));
              fate = suppressed (filtered t) same refl;
            },
          )
          | inl news ↦
              let q = filtered t in
              let sending = behave.send_lem q arrived.0 in
              let (r, ok, e, all) = send_lem s q (b.before_send q) refl news sending.0 (
                Steps-trans _ _ _ (arrived.1 [])
                  (Steps.go _ _ _ (begin_news t news) (sending.1 ((admitted, o) ∷ [])))) in
              (r, ok, rw news e, all)
        ]

  tally-if : (ok : Bool) (n k : ℕ) → tally ok n + k ≡ n + (if ok then suc k else k)
  tally-if true n k = omega arith
  tally-if false n k = omega arith

  pub submit_all_lem :
      (others : ℕ → Between)
      → ((i : ℕ) → Behave (others i))
      → (i : ℕ) (os : List Observation) (s : State) (n : ℕ) → s.pipeline.closed ≡ false
      → (r : State) × (k : ℕ) × (submit_all others i os s n ≡ some (r, n + k))
        × Steps errors s r
        × Fates others i os s r k
  unfolding submit_all
  submit_all_lem others behave i [] s n h =
      (s, 0, ap (λ x. some (s, x)) (omega arith), Steps.stay s, all_done i s)
  submit_all_lem others behave i (o ∷ os) s n h =
      let (r, ok, e, one) = submit_among-Submitted (others i) (behave i) o s h in
      let (t, k, rest, steps, fates) =
        submit_all_lem others behave (suc i) os r (tally ok n) one.open' in
      (
        t,
        (if ok then suc k else k),
        rw (e, submit_all) (rest ∙ ap (λ x. some (t, x)) (tally-if ok n k)),
        Steps-trans s r t one.steps steps,
        submitted_one i o os s r t ok k one.fate fates,
      )
