-- ===== src/GtfsStatic/Versions.antt =====
-- internal/gtfsstatic/load.go: the table schedule_versions, and how Load changes it. A transaction changes
-- all that it says or nothing, by what the database promises.
pub mod Active
pub mod Found
pub mod Loads
use headway.Base.{
  ℕ, zero, suc, ◌+◌, ◌<◌, ltb, String, str_eq, Bool, true, false, not, ◌&&◌, ◌||◌, List, [], ◌∷◌,
  ◌++◌, Option, none, some, ◌⊎◌, inl, inr, if◌then◌else◌, select, map, length, ◌==◌,
}
use headway.GtfsStatic.Bundle.{BundleError}

pub record Version : Type 0 where
  pub id : ℕ
  pub feed_id : String
  pub sha : String
  pub is_active : Bool
  pub trip_count : ℕ
  pub stop_time_count : ℕ

-- The rows in the order of their ids, and the next id of the sequence.
pub record Versions : Type 0 where
  pub rows : List Version
  pub next_id : ℕ

-- SELECT id, active … WHERE feed_id = $1 AND sha256 = $2
unfoldable pub look_up : String → String → List Version → Option Version
look_up feed sha [] = none
look_up feed sha (v ∷ vs) =
    if str_eq v.feed_id feed && str_eq v.sha sha then some v else look_up feed sha vs

-- UPDATE … SET active = false WHERE feed_id = $1 AND active
abbrev pub deactivated : String → Version → Version
deactivated feed v =
    if str_eq v.feed_id feed && v.is_active then record v { is_active = false } else v

-- UPDATE … SET active = true WHERE id = $1
abbrev pub activated : ℕ → Version → Version
activated id v = if v.id == id then record v { is_active = true } else v

unfoldable pub activate : String → ℕ → List Version → List Version
activate feed id vs = map (activated id) (map (deactivated feed) vs)

-- The row that insert leaves: not active, with its counts.
abbrev pub new_row : String → String → ℕ × ℕ → ℕ → Version
new_row feed sha (trips, stop_times) id = record {
  id = id;
  feed_id = feed;
  sha = sha;
  is_active = false;
  trip_count = trips;
  stop_time_count = stop_times;
}

unfoldable pub insert : String → String → ℕ × ℕ → Versions → Versions × ℕ
insert feed sha counts db = (
  record { rows = db.rows ++ (new_row feed sha counts db.next_id ∷ []); next_id = suc db.next_id },
  db.next_id,
)

-- How many versions of the feed have a higher id.
unfoldable pub newer : String → ℕ → List Version → ℕ
newer feed id [] = 0
newer feed id (v ∷ vs) = (if str_eq v.feed_id feed && ltb id v.id then 1 else 0) + newer feed id vs

-- DELETE … WHERE feed_id = $1 AND NOT active AND id NOT IN (the `keep` newest of the feed)
abbrev pub prunable : String → ℕ → List Version → Version → Bool
prunable feed keep all v =
    str_eq v.feed_id feed && not v.is_active && not (ltb (newer feed v.id all) keep)

unfoldable pub prune : String → ℕ → List Version → List Version
unfolding newer
prune feed keep vs = select (λ v. not (prunable feed keep vs v)) vs

pub data LoadError : Type 0 where
  throttled : LoadError
  download_failed : LoadError
  lookup_failed : LoadError
  bundle : BundleError → LoadError
  insert_failed : LoadError
  activate_failed : LoadError

-- What a load meets: the limiter and the download, with the hash of the body and what becomes of its
-- files (the numbers of trips and stop times), and whether each statement and transaction succeeds.
pub record Circumstances : Type 0 where
  pub waits : Bool
  pub downloads : Bool
  pub sha : String
  pub content : BundleError ⊎ (ℕ × ℕ)
  pub looks_up : Bool
  pub inserts : Bool
  pub activates : Bool
  pub prunes : Bool

module _ (c : Circumstances) (keep : ℕ) (feed : String) where
  abbrev pub known : Version → Versions → Versions × (LoadError ⊎ (ℕ × Bool))
  known v db =
      if v.is_active
      then (db, inr (v.id, false))
      else if c.activates
      then (record db { rows = activate feed v.id db.rows }, inr (v.id, true))
      else (db, inl activate_failed)

  abbrev pub pruned : List Version → List Version
  pruned vs = if c.prunes then prune feed keep vs else vs

  abbrev pub put_in_use : Versions × ℕ → Versions × (LoadError ⊎ (ℕ × Bool))
  put_in_use (db, id) =
      if c.activates
      then (record db { rows = pruned (activate feed id db.rows) }, inr (id, true))
      else (db, inl activate_failed)

  abbrev pub unknown : BundleError ⊎ (ℕ × ℕ) → Versions → Versions × (LoadError ⊎ (ℕ × Bool))
  unknown (inl e) db = (db, inl (bundle e))
  unknown (inr counts) db =
      if c.inserts then put_in_use (insert feed c.sha counts db) else (db, inl insert_failed)

  abbrev pub looked_up : Option Version → Versions → Versions × (LoadError ⊎ (ℕ × Bool))
  looked_up (some v) db = known v db
  looked_up none db = unknown c.content db

  -- Load, less the times: the version in use and whether it changed.
  unfoldable pub load : Versions → Versions × (LoadError ⊎ (ℕ × Bool))
  unfolding look_up activate insert prune
  load db =
      if not c.waits
      then (db, inl throttled)
      else if not c.downloads
      then (db, inl download_failed)
      else if not c.looks_up
      then (db, inl lookup_failed)
      else looked_up (look_up feed c.sha db.rows) db
