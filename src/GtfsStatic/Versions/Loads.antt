-- ===== src/GtfsStatic/Versions/Loads.antt =====
-- A load against what it promises: after it the bundle just downloaded is in use for its feed, or nothing
-- in use has changed.
use headway.Base.{
  ℕ, suc, ◌<◌, ◌≤◌, String, str_eq, eq_iff, Bool, true, false, not, List, [], ◌∷◌, ◌++◌, Option,
  none, some, ◌⊎◌, inl, inr, All, All-append, All-select, ◌≡◌, ◌≢◌, refl, sym, ◌∙◌, arith,
  Bool-cases, true_ne_false,
}
use headway.GtfsStatic.Bundle.{BundleError}
use headway.GtfsStatic.Versions.{
  Version, Versions, look_up, activate, insert, new_row, prunable, prune, LoadError, Circumstances,
  known, pruned, unknown, looked_up, load,
}
use headway.GtfsStatic.Versions.Found.{look_up-All, look_up-Owned, look_up-active}
use headway.GtfsStatic.Versions.Active.{
  active_sha, actives, Ordered, Owned, has_id, activate-below, activate-Ordered,
  active_sha-activate_other, active_sha-activate, actives-activate_other, actives-activate-le,
  KeepsActive, active_sha-select, actives-select-le, select-Ordered, active_sha-append,
  actives-append, append-Ordered,
}

-- Ids ascend below the next, and no feed has two versions in use.
pub record IsValid (db : Versions) : Type 0 where
  pub ordered : Ordered db.rows
  pub below : All (λ v. v.id < db.next_id) db.rows
  pub one : (feed : String) → actives feed db.rows ≤ 1

abbrev SameInUse : List Version → List Version → Type 0
SameInUse vs ws = (g : String) → active_sha g ws ≡ active_sha g vs

module _ (feed : String) where
  prune-keeps :
      (keep : ℕ) (all vs : List Version)
      → All (KeepsActive (λ v. not (prunable feed keep all v))) vs
  prune-keeps keep all [] = tt
  prune-keeps keep all (v ∷ vs) = (λ on. ground (arith, on), prune-keeps keep all vs)

  prune-IsValid :
      (keep : ℕ) (db : Versions)
      → IsValid db
      → IsValid (record db { rows = prune feed keep db.rows })
  unfolding prune
  prune-IsValid keep db v =
      let p = λ (x : Version). not (prunable feed keep db.rows x) in
      record {
        ordered = select-Ordered p db.rows v.ordered;
        below = All-select (λ x. x.id < db.next_id) p db.rows v.below;
        one = λ g. omega (arith, actives-select-le p g db.rows, v.one g);
      }

  prune-SameInUse : (keep : ℕ) (vs : List Version) → SameInUse vs (prune feed keep vs)
  unfolding prune
  prune-SameInUse keep vs g =
      active_sha-select (λ x. not (prunable feed keep vs x)) g vs (prune-keeps keep vs vs)

  activate-IsValid :
      (id : ℕ) (sha : String) (db : Versions)
      → IsValid db
      → All (Owned feed id sha) db.rows
      → IsValid (record db { rows = activate feed id db.rows })
  activate-IsValid id sha db v own = record {
    ordered = activate-Ordered feed id db.rows v.ordered;
    below = activate-below feed id db.next_id db.rows v.below;
    one = λ g. elim (Bool-cases (str_eq g feed)) [
      | inl same ↦
          rw ((eq_iff g feed).0 same) (actives-activate-le feed id sha db.rows v.ordered own)
      | inr other ↦
          rw
            (actives-activate_other feed id g sha db.rows
              (λ e. true_ne_false (sym ((eq_iff g feed).1 e) ∙ other)) own)
            (v.one g)
    ];
  }

  -- `after` has the bundle in use for the feed, and for every other feed the one of `before`.
  pub record InUse (sha : String) (before after : List Version) : Type 0 where
    pub here : active_sha feed after ≡ some sha
    pub elsewhere : (g : String) → g ≢ feed → active_sha g after ≡ active_sha g before

  activate-InUse :
      (id : ℕ) (sha : String) (vs : List Version)
      → has_id feed id vs ≡ true
      → All (Owned feed id sha) vs
      → InUse sha vs (activate feed id vs)
  activate-InUse id sha vs here own = record {
    here = active_sha-activate feed id sha vs here own;
    elsewhere = λ g ne. active_sha-activate_other feed id g sha vs ne own;
  }

  below_suc : (n : ℕ) (vs : List Version) → All (λ v. v.id < n) vs → All (λ v. v.id < suc n) vs
  below_suc n [] h = tt
  below_suc n (v ∷ vs) h = (omega (arith, h.0), below_suc n vs h.1)

  below_Owned :
      (sha : String) (n : ℕ) (vs : List Version)
      → All (λ v. v.id < n) vs
      → All (Owned feed n sha) vs
  below_Owned sha n [] h = tt
  below_Owned sha n (v ∷ vs) h = (λ e. absurd (omega (arith, h.0, e)), below_Owned sha n vs h.1)

  has_id-append : (v : Version) (vs : List Version) → has_id feed v.id (vs ++ v ∷ []) ≡ true
  unfolding has_id
  has_id-append v [] = ground arith
  has_id-append v (w ∷ vs) = ground (arith, has_id-append v vs)

  module _ (sha : String) (counts : ℕ × ℕ) (db : Versions) where
    abbrev row : Version
    row = new_row feed sha counts db.next_id

    row_off : row.is_active ≡ false
    row_off = refl

    insert-IsValid : IsValid db → IsValid (insert feed sha counts db).0
    unfolding insert
    insert-IsValid v = record {
      ordered = append-Ordered row db.rows v.below v.ordered;
      below =
          All-append (λ x. x.id < suc db.next_id) db.rows (row ∷ [])
            (below_suc db.next_id db.rows v.below) (omega arith, tt);
      one = λ g. rw (actives-append row row_off g db.rows) (v.one g);
    }

    insert-SameInUse : SameInUse db.rows (insert feed sha counts db).0.rows
    unfolding insert
    insert-SameInUse g = active_sha-append row row_off g db.rows

    insert-Owned :
        IsValid db
        → (has_id feed db.next_id (insert feed sha counts db).0.rows ≡ true)
          × All (Owned feed db.next_id sha) (insert feed sha counts db).0.rows
    unfolding insert
    insert-Owned v = (
      has_id-append row db.rows,
      All-append (Owned feed db.next_id sha) db.rows (row ∷ [])
          (below_Owned sha db.next_id db.rows v.below) (λ e. (refl, refl), tt),
    )

  InUse-after :
      (sha : String) (a b d : List Version) → SameInUse a b → InUse sha b d → InUse sha a d
  InUse-after sha a b d same u = record {
    here = u.here;
    elsewhere = λ g ne. u.elsewhere g ne ∙ same g;
  }

  InUse-before :
      (sha : String) (a b d : List Version) → InUse sha a b → SameInUse b d → InUse sha a d
  InUse-before sha a b d u same = record {
    here = same feed ∙ u.here;
    elsewhere = λ g ne. same g ∙ u.elsewhere g ne;
  }

-- What a load promises of its outcome.
abbrev pub Promised : String → String → Versions → Versions × (LoadError ⊎ (ℕ × Bool)) → Type 0
Promised feed sha db (after, inl e) = IsValid after × SameInUse db.rows after.rows
Promised feed sha db (after, inr (id, changed)) =
    IsValid after × InUse feed sha db.rows after.rows × (changed ≡ false → after ≡ db)

module _ (c : Circumstances) (keep : ℕ) (feed : String) (db : Versions) (v : IsValid db) where
  unchanged : IsValid db × SameInUse db.rows db.rows
  unchanged = (v, λ g. refl)

  known-Promised :
      (found : Version)
      → look_up feed c.sha db.rows ≡ some found
      → Promised feed c.sha db (known c keep feed found db)
  known-Promised found e = elim (Bool-cases found.is_active) [
    | inl on ↦ rw on (
      v,
      record {
        here = look_up-active feed c.sha db.rows found (v.one feed) e on;
        elsewhere = λ g ne. refl;
      },
      λ h. refl,
    )
    | inr off ↦ elim (Bool-cases c.activates) [
      | inr fails ↦ rw (off, fails) unchanged
      | inl commits ↦
          let own = look_up-Owned feed c.sha db.rows found v.ordered e in
          let here = (look_up-All feed c.sha (λ x. x.id < db.next_id) db.rows found v.below e).2 in
          rw (off, commits)
            (
              activate-IsValid feed found.id c.sha db v own,
              activate-InUse feed found.id c.sha db.rows here own,
              λ h. true_ne_false h,
            )
    ]
  ]

  unknown-Promised :
      (content : BundleError ⊎ (ℕ × ℕ)) → Promised feed c.sha db (unknown c keep feed content db)
  unfolding insert
  unknown-Promised (inl e) = unchanged
  unknown-Promised (inr counts) = elim (Bool-cases c.inserts) [
    | inr fails ↦ rw fails unchanged
    | inl inserted ↦
        let new = (insert feed c.sha counts db).0 in
        let new_valid = insert-IsValid feed c.sha counts db v in
        let (here, own) = insert-Owned feed c.sha counts db v in
        elim (Bool-cases c.activates) [
          | inr fails ↦ rw (inserted, fails) (new_valid, insert-SameInUse feed c.sha counts db)
          | inl commits ↦
              let used = activate feed db.next_id new.rows in
              let used_valid = activate-IsValid feed db.next_id c.sha new new_valid own in
              let in_use =
                InUse-after feed c.sha db.rows new.rows used (insert-SameInUse feed c.sha counts db)
                  (activate-InUse feed db.next_id c.sha new.rows here own) in
              elim (Bool-cases c.prunes) [
                | inr fails ↦
                    rw (inserted, commits, fails) (used_valid, in_use, λ h. true_ne_false h)
                | inl pruned ↦
                    rw (inserted, commits, pruned)
                      (
                        prune-IsValid feed keep (record new { rows = used }) used_valid,
                        InUse-before feed c.sha db.rows used (prune feed keep used) in_use
                            (prune-SameInUse feed keep used),
                        λ h. true_ne_false h,
                      )
              ]
        ]
  ]

  looked_up-Promised :
      (o : Option Version)
      → look_up feed c.sha db.rows ≡ o
      → Promised feed c.sha db (looked_up c keep feed o db)
  looked_up-Promised (some found) e = known-Promised found e
  looked_up-Promised none e = unknown-Promised c.content

-- A load, whatever it meets, keeps the ids in order and at most one version active for each feed. If it
-- returns an error, the bundle in use is the same as before for every feed. If it returns a version, the
-- bundle in use for its feed is the one downloaded, by its hash, and for the other feeds the same as
-- before; and if it says that nothing changed, the table is as it was.
pub load_lem :
    (c : Circumstances) (keep : ℕ) (feed : String) (db : Versions)
    → IsValid db
    → Promised feed c.sha db (load c keep feed db)
unfolding load
load_lem c keep feed db v = elim (Bool-cases c.waits) [
  | inr no' ↦ rw no' (unchanged c keep feed db v)
  | inl waited ↦ elim (Bool-cases c.downloads) [
    | inr no' ↦ rw (waited, no') (unchanged c keep feed db v)
    | inl downloaded ↦ elim (Bool-cases c.looks_up) [
      | inr no' ↦ rw (waited, downloaded, no') (unchanged c keep feed db v)
      | inl read ↦
          rw (waited, downloaded, read)
            (looked_up-Promised c keep feed db v (look_up feed c.sha db.rows) refl)
    ]
  ]
]
