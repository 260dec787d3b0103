-- ===== src/GtfsStatic/Publish/Rounds.antt =====
-- The loads and publications of a refresh against what they are for.
use headway.Base.{
  ℕ, ℤ, pos, eqb_ℤ, eqb_ℤ_iff, String, str_eq, eq_iff, Bool, true, false, ◌&&◌, List, [], ◌∷◌,
  Option, none, some, ◌⊎◌, inl, inr, if◌then◌else◌, ◌≡◌, ◌≢◌, refl, sym, ap, ◌∙◌, subst, arith,
  Bool-cases, Option-cases, some_ne_none, some_injective, true_ne_false,
}
use headway.Base.Eq.{string_eq}
use headway.Base.Dict.{get, has, get-put}
use headway.Match.Schedule.{Schedule}
use headway.Match.Matcher.{Matcher, swap, loaded, loaded_in}
use headway.GtfsStatic.Memory.{read_schedule}
use headway.GtfsStatic.Memory.Calls.{read_schedule_lem}
use headway.GtfsStatic.Versions.{Version, Versions, LoadError, load}
use headway.GtfsStatic.Versions.Active.{active_sha, serves}
use headway.GtfsStatic.Versions.Loads.{IsValid, Promised, load_lem}
use headway.GtfsStatic.Publish.{
  Store, active_id, Reads, schedule, published, publish_active, Due, stored, then_publish,
  refresh_one,
}

active_id-some :
    (feed sha : String) (vs : List Version)
    → active_sha feed vs ≡ some sha
    → (id : ℕ) × (active_id feed vs ≡ some id)
unfolding active_id active_sha
active_id-some feed sha [] h = some_ne_none {a = sha} (sym h)
active_id-some feed sha (v ∷ vs) h = elim (Bool-cases (serves feed v)) [
  | inl on ↦ (v.id, rw on refl)
  | inr off ↦ let (id, e) = active_id-some feed sha vs (rw off at h) in (id, rw off e)
]

-- swap and the feeds' schedules.
get-swap :
    (s : Schedule) (m : Matcher) (g : String)
    → get g (swap s m).schedules ≡ (
        if str_eq s.feed_id g && has s.feed_id m.schedules
        then some (some s)
        else get g m.schedules)
unfolding swap
get-swap s m g = elim (Option-cases (get s.feed_id m.schedules)) [
  | inl unknown ↦ rw (unknown, swap) (ground arith)
  | inr (old, there) ↦ rw (there, swap) (ground (arith, get-put s.feed_id g (some s) m.schedules))
]

abbrev version_of : Option (Option Schedule) → ℤ
version_of o = elim (loaded_in o) [ none ↦ pos 0 | some s ↦ s.version_id ]

loaded-swap :
    (s : Schedule) (m : Matcher)
    → has s.feed_id m.schedules ≡ true
    → loaded s.feed_id (swap s m) ≡ s.version_id
unfolding loaded
loaded-swap s m h =
    let now_there : get s.feed_id (swap s m).schedules ≡ some (some s) =
      get-swap s m s.feed_id ∙ ground (arith, h, eq_iff s.feed_id s.feed_id) in
    ap version_of now_there

-- What a publication does: it leaves the other feeds' schedules, and if it does not fail, the matcher has the
-- version that is active.
record Publishes (feed : String) (db : Store) (m m' : Matcher) (failed : Bool) : Type 0 where
  others : (g : String) → g ≢ feed → get g m'.schedules ≡ get g m.schedules
  here :
      has feed m.schedules ≡ true
      → failed ≡ false
      → (id : ℕ) → active_id feed db.versions.rows ≡ some id
      → loaded feed m' ≡ pos id

swap-Publishes :
    (feed : String) (db : Store) (m : Matcher) (n : ℕ)
    → active_id feed db.versions.rows ≡ some n
    → Publishes feed db m (swap (read_schedule (pos n) feed (db.timetables n)) m) false
swap-Publishes feed db m n e =
    let s = read_schedule (pos n) feed (db.timetables n) in
    let (v, f, trips, stops) = read_schedule_lem (pos n) feed (db.timetables n) in
    record {
      others = λ g ne. get-swap s m g ∙ ground (arith, eq_iff s.feed_id g, f, ne);
      here = λ known ok' id e'.
          ap (λ x. loaded x (swap s m)) (sym f)
          ∙ loaded-swap s m (subst (λ x. has x m.schedules ≡ true) (sym f) known)
          ∙ v
          ∙ ap pos (some_injective (sym e ∙ e'));
    }

nothing-Publishes :
    (feed : String) (db : Store) (m : Matcher)
    → ((id : ℕ) → active_id feed db.versions.rows ≡ some id → loaded feed m ≡ pos id)
    → Publishes feed db m m false
nothing-Publishes feed db m h = record { others = λ g ne. refl; here = λ known ok' id e. h id e }

failed-Publishes : (feed : String) (db : Store) (m : Matcher) → Publishes feed db m m true
failed-Publishes feed db m = record {
  others = λ g ne. refl;
  here = λ known ok' id e. true_ne_false ok';
}

published-Publishes :
    (q : Reads) (feed : String) (db : Store) (m : Matcher) (o : Option ℕ)
    → active_id feed db.versions.rows ≡ o
    → Publishes feed db m (published q feed db o m).0 (published q feed db o m).1
unfolding schedule
published-Publishes q feed db m none e =
    nothing-Publishes feed db m (λ id e'. some_ne_none {a = id} (sym e' ∙ e))
published-Publishes q feed db m (some n) e = elim (Bool-cases (eqb_ℤ (pos n) (loaded feed m))) [
  | inl same ↦ rw same (
      nothing-Publishes feed db m (λ id e'.
        sym ((eqb_ℤ_iff (pos n) (loaded feed m)).0 same) ∙ ap pos (some_injective (sym e ∙ e'))))
  | inr other ↦ elim (Bool-cases q.reads) [
    | inl read ↦ rw (other, read, e) (swap-Publishes feed db m n e)
    | inr unread ↦ rw (other, unread) (failed-Publishes feed db m)
  ]
]

publish_active-Publishes :
    (q : Reads) (feed : String) (db : Store) (m : Matcher)
    → Publishes feed db m (publish_active q feed db m).0 (publish_active q feed db m).1
unfolding publish_active
publish_active-Publishes q feed db m = elim (Bool-cases q.finds) [
  | inl found ↦ rw found (published-Publishes q feed db m (active_id feed db.versions.rows) refl)
  | inr lost ↦ rw lost (failed-Publishes feed db m)
]

-- The feed runs on the bundle just downloaded: that is active, and the matcher has it.
pub record Serves (d : Due) (db : Store) (m : Matcher) : Type 0 where
  pub id : ℕ
  pub active : active_id d.feed db.versions.rows ≡ some id
  pub downloaded : active_sha d.feed db.versions.rows ≡ some d.meets.sha
  pub in_use : loaded d.feed m ≡ pos id

-- The other feeds are as before, in the database and in the matcher.
pub record LeavesOthers (feed : String) (db : Store) (m : Matcher) (db' : Store) (m' : Matcher)
    : Type 0 where
  pub bundles :
      (g : String) → g ≢ feed → active_sha g db'.versions.rows ≡ active_sha g db.versions.rows
  pub schedules : (g : String) → g ≢ feed → get g m'.schedules ≡ get g m.schedules

abbrev pub Refreshed : Due → Store → Matcher → Store × Matcher × Bool → Type 0
Refreshed d db m (db', m', failed) =
    IsValid db'.versions
    × LeavesOthers d.feed db m db' m'
    × (has d.feed m.schedules ≡ true → failed ≡ false → Serves d db' m')

then_publish-Refreshed :
    (d : Due) (db : Store) (m : Matcher) (r : Versions × (LoadError ⊎ (ℕ × Bool)))
    → Promised d.feed d.meets.sha db.versions r
    → Refreshed d db m (then_publish d db m r)
then_publish-Refreshed d db m (versions, inl e) h =
    let done = publish_active-Publishes d.reading d.feed (stored d db versions) m in
    (
      h.0,
      record { bundles = λ g ne. h.1 g; schedules = done.others },
      λ known ok'. true_ne_false ok',
    )
then_publish-Refreshed d db m (versions, inr (id, changed)) h =
    let done = publish_active-Publishes d.reading d.feed (stored d db versions) m in
    let (n, active) = active_id-some d.feed d.meets.sha versions.rows h.1.here in
    (
      h.0,
      record { bundles = h.1.elsewhere; schedules = done.others },
      λ known ok'. record {
        id = n;
        active = active;
        downloaded = h.1.here;
        in_use = done.here known ok' n active;
      },
    )

-- One feed's turn in a refresh keeps at most one version active for each feed, and leaves the other feeds,
-- in the database and in the matcher. If nothing failed, and the matcher was built for the feed, then
-- the bundle just downloaded is the active one and the matcher has that version in use.
pub refresh_one_lem :
    (keep : ℕ) (d : Due) (db : Store) (m : Matcher)
    → IsValid db.versions
    → Refreshed d db m (refresh_one keep d db m)
unfolding refresh_one
refresh_one_lem keep d db m v =
    then_publish-Refreshed d db m (load d.meets keep d.feed db.versions)
      (load_lem d.meets keep d.feed db.versions v)
