-- ===== src/Cache/Update.antt =====
-- What one poll leaves in the cache.
use headway.Base.{
  ℕ, suc, String, str_eq, eq_iff, Bool, true, false, ◌||◌, ◌&&◌, not, List, [], ◌∷◌, ◌++◌, map,
  some, if◌then◌else◌, select, leb, ◌≡◌, refl, arith, Bool-cases, append-nil, append_assoc,
  eqb_ℤ_iff, ap, sym, ◌∙◌, ltb_ℤ, inl, inr,
}
use headway.Base.Eq.{string_eq}
use headway.Base.Dict.{Dict, get, get-put, get-put_self}
use headway.ServiceTime.{Time}
use headway.Ingest.{Observation}
use headway.Cache.{
  Cache, Snapshot, Trip, Call, Building, served, ghost, push, or_nil, call_of, trip_of, same_trip,
  is_seen, add_trip, add_observation, build, update, unchanged_after, stale,
}

get-push {ℓ} :
    {A : Type ℓ} (k j : String) (v : A) (m : Dict String (List A))
    → or_nil (get j (push k v m))
      ≡ (if str_eq k j then or_nil (get j m) ++ v ∷ [] else or_nil (get j m))
unfolding push
get-push k j v m = elim (Bool-cases (str_eq k j)) [
  | inl e ↦
      rw (get-put k j (or_nil (get k m) ++ v ∷ []) m, e)
        (ap (λ i. or_nil (get i m) ++ v ∷ []) ((eq_iff k j).0 e))
  | inr e ↦ rw (get-put k j (or_nil (get k m) ++ v ∷ []) m, e)
]

select-select {ℓ} :
    {A : Type ℓ} (p q : A → Bool) (xs : List A)
    → select p (select q xs) ≡ select (λ x. q x && p x) xs
select-select p q [] = refl
select-select p q (x ∷ xs) = ground (arith, select-select p q xs)

select-cong {ℓ} :
    {A : Type ℓ} (p q : A → Bool)
    → ((x : A) → p x ≡ q x)
    → (xs : List A) → select p xs ≡ select q xs
select-cong p q h [] = refl
select-cong p q h (x ∷ xs) = ground (arith, h x, select-cong p q h xs)

select-all {ℓ} : {A : Type ℓ} (xs : List A) → select (λ x. true) xs ≡ xs
select-all [] = refl
select-all (x ∷ xs) = ap (λ ys. x ∷ ys) (select-all xs)

-- Neither served nor a ghost.
abbrev pub active : Time → Observation → Bool
active feed_ts o = not (served o feed_ts || ghost o)

-- The first observation of each trip.
abbrev pub firsts : List Observation → List Observation
firsts [] = []
firsts (o ∷ os) = let rest = firsts os in o ∷ select (λ x. not (same_trip o x)) rest

abbrev pub calls_at : String → List Observation → List Call
calls_at stop os = map call_of (select (λ o. str_eq o.stop_id stop) os)

abbrev pub trips_on : String → List Observation → List Trip
trips_on route os = map trip_of (select (λ o. str_eq o.route_id route) os)

same_trip-seen :
    (o x : Observation) (seen : List Observation)
    → same_trip o x ≡ true
    → is_seen x seen ≡ is_seen o seen
same_trip-seen o x [] h = refl
same_trip-seen o x (s ∷ ss) h = ground (
  arith,
  same_trip-seen o x ss h,
  eqb_ℤ_iff o.service_date x.service_date,
  eq_iff o.trip_id x.trip_id,
)

add_trip-by_stop : (o : Observation) (b : Building) → (add_trip o b).by_stop ≡ b.by_stop
unfolding add_trip
add_trip-by_stop o b = ground arith

-- One more at the end of the first part, or at the head of the second.
grow {ℓ κ} :
    {A : Type ℓ} {B : Type κ} (f : A → B) (c : Bool) (xs : List B) (o : A) (rest : List A)
    → (if c then xs ++ f o ∷ [] else xs) ++ map f rest ≡ xs ++ map f (if c then o ∷ rest else rest)
grow f true xs o rest = append_assoc xs (f o ∷ []) (map f rest)
grow f false xs o rest = refl

build-calls :
    (feed_ts : Time) (os : List Observation) (b : Building) (stop : String)
    → or_nil (get stop (build feed_ts os b).by_stop)
      ≡ or_nil (get stop b.by_stop) ++ calls_at stop (select (active feed_ts) os)
unfolding build add_observation
build-calls feed_ts [] b stop = rw (append-nil (or_nil (get stop b.by_stop)))
build-calls feed_ts (o ∷ os) b stop = elim (Bool-cases (served o feed_ts || ghost o)) [
  | inl e ↦ rw (build-calls feed_ts os (add_observation feed_ts o b) stop, add_observation, e)
  | inr e ↦
      rw (build-calls feed_ts os (add_observation feed_ts o b) stop, add_observation, e)
        (rw
          (
            add_trip-by_stop o (record b { by_stop = push o.stop_id (call_of o) b.by_stop }),
            get-push o.stop_id stop (call_of o) b.by_stop,
          )
          (grow call_of (str_eq o.stop_id stop) (or_nil (get stop b.by_stop)) o
            (select (λ x. str_eq x.stop_id stop) (select (active feed_ts) os))))
]

-- The trips that are not yet seen.
abbrev unseen : List Observation → List Observation → List Observation
unseen seen os = select (λ x. not (is_seen x seen)) (firsts os)

unseen_known :
    (o : Observation) (seen os : List Observation)
    → is_seen o seen ≡ true
    → unseen seen (o ∷ os) ≡ unseen seen os
unseen_known o seen os h = rw h (
    select-select (λ x. not (is_seen x seen)) (λ x. not (same_trip o x)) (firsts os)
    ∙ select-cong (λ x. not (same_trip o x) && not (is_seen x seen)) (λ x. not (is_seen x seen))
        (λ x. ground (arith, h, same_trip-seen o x seen)) (firsts os))

unseen_new :
    (o : Observation) (seen os : List Observation)
    → is_seen o seen ≡ false
    → unseen seen (o ∷ os) ≡ o ∷ unseen (o ∷ seen) os
unseen_new o seen os h = rw h (
    ap (λ xs. o ∷ xs)
      (select-select (λ x. not (is_seen x seen)) (λ x. not (same_trip o x)) (firsts os)
        ∙ select-cong (λ x. not (same_trip o x) && not (is_seen x seen))
            (λ x. not (is_seen x (o ∷ seen))) (λ x. ground arith) (firsts os)))

add_trip_seen : (o : Observation) (b : Building) → is_seen o b.seen ≡ true → add_trip o b ≡ b
unfolding add_trip
add_trip_seen o b h = rw h

add_trip_new :
    (o : Observation) (b : Building)
    → is_seen o b.seen ≡ false
    → add_trip o b
      ≡ record b { seen = o ∷ b.seen; by_route = push o.route_id (trip_of o) b.by_route }
unfolding add_trip
add_trip_new o b h = rw h

build-trips :
    (feed_ts : Time) (os : List Observation) (b : Building) (route : String)
    → or_nil (get route (build feed_ts os b).by_route)
      ≡ or_nil (get route b.by_route) ++ trips_on route (unseen b.seen (select (active feed_ts) os))
unfolding build add_observation
build-trips feed_ts [] b route = rw (append-nil (or_nil (get route b.by_route)))
build-trips feed_ts (o ∷ os) b route = elim (Bool-cases (served o feed_ts || ghost o)) [
  | inl e ↦ rw (build-trips feed_ts os (add_observation feed_ts o b) route, add_observation, e)
  | inr e ↦
      let c = record b { by_stop = push o.stop_id (call_of o) b.by_stop } in
      elim (Bool-cases (is_seen o b.seen)) [
        | inl h ↦
            rw
              (
                build-trips feed_ts os (add_observation feed_ts o b) route,
                add_observation,
                e,
                add_trip_seen o c h,
              )
              (ap (λ xs. or_nil (get route b.by_route) ++ trips_on route xs)
                (sym (unseen_known o b.seen (select (active feed_ts) os) h)))
        | inr h ↦
            rw
              (
                build-trips feed_ts os (add_observation feed_ts o b) route,
                add_observation,
                e,
                add_trip_new o c h,
                get-push o.route_id route (trip_of o) b.by_route,
              )
              (grow trip_of (str_eq o.route_id route) (or_nil (get route b.by_route)) o (
                  select (λ x. str_eq x.route_id route)
                    (unseen (o ∷ b.seen) (select (active feed_ts) os)))
                ∙ ap (λ xs. or_nil (get route b.by_route) ++ trips_on route xs)
                    (sym (unseen_new o b.seen (select (active feed_ts) os) h)))
      ]
]

-- After a poll is put into the cache, its feed's snapshot has the poll's timestamp; at each stop it has
-- the calls of the observations there that are neither served nor ghosts, in the poll's order; on each
-- route it has one trip for each trip with such an observation, with its first one as the next stop;
-- and the snapshots of the other feeds are as they were.
pub update_lem :
    (feed_id : String) (feed_ts : Time) (obs : List Observation) (c : Cache)
    (stop route other : String)
    → (str_eq feed_id other ≡ false)
    → (s : Snapshot) × (get feed_id (update feed_id feed_ts obs c).feeds ≡ some s)
      × (s.feed_ts ≡ feed_ts)
      × (or_nil (get stop s.by_stop) ≡ calls_at stop (select (active feed_ts) obs))
      × (or_nil (get route s.by_route) ≡ trips_on route (firsts (select (active feed_ts) obs)))
      × (get other (update feed_id feed_ts obs c).feeds ≡ get other c.feeds)
unfolding update get
update_lem feed_id feed_ts obs c stop route other ne =
    let empty : Building = record { by_route = []; by_stop = []; seen = [] } in
    let s : Snapshot = record {
      feed_ts = feed_ts;
      by_route = (build feed_ts obs empty).by_route;
      by_stop = (build feed_ts obs empty).by_stop;
      unchanged = unchanged_after (get feed_id c.feeds) feed_ts;
    } in
    (
      s,
      get-put_self feed_id s c.feeds,
      refl,
      build-calls feed_ts obs empty stop,
      build-trips feed_ts obs empty route
          ∙ ap (trips_on route) (select-all (firsts (select (active feed_ts) obs))),
      rw (get-put feed_id other s c.feeds, ne),
    )

-- The next poll of a feed counts as unchanged, on top of those before, exactly when its timestamp is
-- not after the last one's, and Stale answers whether there are that many.
pub stale-update :
    (feed_id : String) (feed_ts : Time) (obs : List Observation) (c : Cache) (prev : Snapshot)
    (polls : ℕ)
    → get feed_id c.feeds ≡ some prev
    → stale feed_id polls (update feed_id feed_ts obs c)
      ≡ (if ltb_ℤ prev.feed_ts feed_ts then leb polls 0 else leb polls (suc prev.unchanged))
unfolding stale update
stale-update feed_id feed_ts obs c prev polls e =
    rw
      (
        get-put_self feed_id
            (record {
              feed_ts = feed_ts;
              by_route =
                  (build feed_ts obs (record { by_route = []; by_stop = []; seen = [] })).by_route;
              by_stop =
                  (build feed_ts obs (record { by_route = []; by_stop = []; seen = [] })).by_stop;
              unchanged = unchanged_after (get feed_id c.feeds) feed_ts;
            })
            c.feeds,
        stale,
        e,
      )
      (ground arith)
