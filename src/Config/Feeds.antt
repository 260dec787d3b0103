-- ===== src/Config/Feeds.antt =====
-- internal/config/feeds.go: the checks of the feed catalogue, and which of its feeds are polled. Reading the
-- JSON file and url.Parse are Go's library.
pub mod Selection
use headway.Base.{
  ℤ, pos, ltb_ℤ, String, str_eq, Bool, true, false, not, ◌||◌, List, [], ◌∷◌, ◌++◌, Option, none,
  some, ◌⊎◌, inl, inr, if◌then◌else◌, select,
}
use headway.Config.Rules.{Url}

pub record Feed : Type 0 where
  pub id : String
  pub label : String
  pub realtime_url : String
  pub schedule_url : String
  pub route_type : ℤ
  pub enabled : Bool

-- A problem with a feed of the catalogue, which is named by its id.
pub data FeedError : Type 0 where
  empty_id : FeedError
  twice : String → FeedError
  empty_label : String → FeedError
  negative_route_type : String → FeedError
  bad_url : String → String → FeedError

module _ (parse_url : String → Option Url) where
  abbrev pub bad_parsed : Option Url → Bool
  bad_parsed none = true
  bad_parsed (some u) = not (str_eq u.scheme "https") || str_eq u.host ""

  -- checkFeedURL
  unfoldable pub check_feed_url : String → String → String → List FeedError
  check_feed_url where' field raw =
      if str_eq raw "" || bad_parsed (parse_url raw) then bad_url where' field ∷ [] else []

  abbrev pub problem : Bool → FeedError → List FeedError
  problem bad e = if bad then e ∷ [] else []

  -- _, dup := seen[fd.ID]
  abbrev pub is_seen : String → List String → Bool
  is_seen id [] = false
  is_seen id (s ∷ seen) = str_eq s id || is_seen id seen

  abbrev pub id_problems : List String → String → List FeedError
  id_problems seen id = if str_eq id "" then empty_id ∷ [] else problem (is_seen id seen) (twice id)

  abbrev pub now_seen : List String → String → List String
  now_seen seen id = if str_eq id "" then seen else id ∷ seen

  -- The loop of LoadFeeds over the catalogue.
  unfoldable pub catalogue_problems : List String → List Feed → List FeedError
  unfolding check_feed_url
  catalogue_problems seen [] = []
  catalogue_problems seen (f ∷ fs) =
      id_problems seen f.id
      ++ (problem (str_eq f.label "") (empty_label f.id)
          ++ (problem (ltb_ℤ f.route_type (pos 0)) (negative_route_type f.id)
              ++ (check_feed_url f.id "realtime_url" f.realtime_url
                  ++ (check_feed_url f.id "schedule_url" f.schedule_url
                      ++ catalogue_problems (now_seen seen f.id) fs))))

pub data SelectError : Type 0 where
  none_enabled : SelectError
  not_in_catalogue : String → SelectError
  named_twice : String → SelectError

-- all[slices.IndexFunc(all, …)]
unfoldable pub find_feed : String → List Feed → Option Feed
find_feed id [] = none
find_feed id (f ∷ fs) = if str_eq f.id id then some f else find_feed id fs

abbrev pub contains_feed : String → List Feed → Bool
contains_feed id [] = false
contains_feed id (f ∷ fs) = str_eq f.id id || contains_feed id fs

abbrev pub pick_feed :
    String → Option Feed → List Feed × List SelectError → List Feed × List SelectError
pick_feed id none (out, errs) = (out, errs ++ not_in_catalogue id ∷ [])
pick_feed id (some f) (out, errs) =
    if contains_feed id out then (out, errs ++ named_twice id ∷ []) else (out ++ f ∷ [], errs)

-- The loop over ENABLED_FEEDS.
unfoldable pub pick_feeds :
    List Feed → List String → List Feed × List SelectError → List Feed × List SelectError
unfolding find_feed
pick_feeds all [] acc = acc
pick_feeds all (id ∷ ids) acc = pick_feeds all ids (pick_feed id (find_feed id all) acc)

abbrev pub any_enabled : List Feed → List SelectError ⊎ List Feed
any_enabled [] = inl (none_enabled ∷ [])
any_enabled (f ∷ fs) = inr (f ∷ fs)

abbrev pub no_errors : List Feed × List SelectError → List SelectError ⊎ List Feed
no_errors (out, []) = inr out
no_errors (out, e ∷ errs) = inl (e ∷ errs)

-- SelectFeeds
unfoldable pub select_feeds : List Feed → List String → List SelectError ⊎ List Feed
unfolding pick_feeds
select_feeds all [] = any_enabled (select (λ f. f.enabled) all)
select_feeds all (id ∷ ids) = no_errors (pick_feeds all (id ∷ ids) ([], []))
