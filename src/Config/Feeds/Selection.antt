-- ===== src/Config/Feeds/Selection.antt =====
-- Which feeds are polled.
use headway.Base.{
  String, eq_iff, List, [], ◌∷◌, ◌++◌, append_assoc, append-nil, some, inl, inr, ◌≡◌, ◌≢◌, refl,
  sym, ap, ◌∙◌, subst, arith, Bool-cases, Option-cases, All, All-append,
}
use headway.Config.Feeds.{
  Feed, SelectError, find_feed, contains_feed, pick_feeds, no_errors, select_feeds,
}

abbrev pub ids_of : List Feed → List String
ids_of [] = []
ids_of (f ∷ fs) = f.id ∷ ids_of fs

ids_of-append : (fs : List Feed) (f : Feed) → ids_of (fs ++ f ∷ []) ≡ ids_of fs ++ f.id ∷ []
ids_of-append [] f = refl
ids_of-append (g ∷ fs) f = ap (λ x. g.id ∷ x) (ids_of-append fs f)

find_feed_lem : (id : String) (all : List Feed) (f : Feed) → find_feed id all ≡ some f → f.id ≡ id
unfolding find_feed
find_feed_lem id [] f h = cc
find_feed_lem id (g ∷ all) f h = ground (arith, eq_iff g.id id, find_feed_lem id all f)

append_cons_not_nil : (errs : List SelectError) (e : SelectError) → errs ++ e ∷ [] ≢ []
append_cons_not_nil [] e h = cc
append_cons_not_nil (x ∷ errs) e h = cc

-- Each feed is the one that the catalogue has under its id.
abbrev pub InCatalogue : List Feed → Feed → Type 0
InCatalogue all f = find_feed f.id all ≡ some f

-- The feeds so far have the ids so far, where nothing went wrong.
record Picks (all : List Feed) (ids : List String) (acc final : List Feed × List SelectError)
    : Type 0 where
  fine : acc.1 ≡ []
  named : ids_of final.0 ≡ ids_of acc.0 ++ ids
  known : All (InCatalogue all) acc.0 → All (InCatalogue all) final.0

pick_feeds-Picks :
    (all : List Feed) (ids : List String) (out : List Feed) (errs : List SelectError)
    → (pick_feeds all ids (out, errs)).1 ≡ []
    → Picks all ids (out, errs) (pick_feeds all ids (out, errs))
unfolding pick_feeds
pick_feeds-Picks all [] out errs h = record {
  fine = h;
  named = sym (append-nil (ids_of out));
  known = λ k. k;
}
pick_feeds-Picks all (id ∷ ids) out errs h = elim (Option-cases (find_feed id all)) [
  | inl missing ↦
      let more = errs ++ SelectError.not_in_catalogue id ∷ [] in
      let ih = pick_feeds-Picks all ids out more (rw (missing, pick_feeds) at h) in
      absurd (append_cons_not_nil errs (SelectError.not_in_catalogue id) ih.fine)
  | inr (f, there) ↦ elim (Bool-cases (contains_feed id out)) [
    | inl again ↦
        let more = errs ++ SelectError.named_twice id ∷ [] in
        let ih = pick_feeds-Picks all ids out more (rw (there, pick_feeds, again) at h) in
        absurd (append_cons_not_nil errs (SelectError.named_twice id) ih.fine)
    | inr first ↦
        let ih =
          pick_feeds-Picks all ids (out ++ f ∷ []) errs (rw (there, pick_feeds, first) at h) in
        let same = find_feed_lem id all f there in
        rw (there, pick_feeds, first)
          (record {
            fine = ih.fine;
            named =
                ih.named
                ∙ ap (λ x. x ++ ids) (ids_of-append out f)
                ∙ append_assoc (ids_of out) (f.id ∷ []) ids
                ∙ ap (λ x. ids_of out ++ x ∷ ids) same;
            known = λ k. ih.known (
                All-append (InCatalogue all) out (f ∷ []) k
                  (subst (λ x. find_feed x all ≡ some f) (sym same) there, tt));
          })
  ]
]

no_errors_lem :
    (r : List Feed × List SelectError) (out : List Feed)
    → no_errors r ≡ inr out
    → (r.0 ≡ out) × (r.1 ≡ [])
no_errors_lem (fs, []) out h = (cc, refl)
no_errors_lem (fs, e ∷ errs) out h = cc

-- Feeds that ENABLED_FEEDS names and that are accepted are polled as they are named: one feed of the
-- catalogue for each name, in the order of the names, whether the catalogue enables it or not.
pub select_feeds_lem :
    (all : List Feed) (id : String) (ids : List String) (out : List Feed)
    → select_feeds all (id ∷ ids) ≡ inr out
    → (ids_of out ≡ id ∷ ids) × All (InCatalogue all) out
unfolding select_feeds
select_feeds_lem all id ids out h =
    let (same, fine) = no_errors_lem (pick_feeds all (id ∷ ids) ([], [])) out h in
    let picked = pick_feeds-Picks all (id ∷ ids) [] [] fine in
    (ap ids_of (sym same) ∙ picked.named, subst (All (InCatalogue all)) same (picked.known tt))
