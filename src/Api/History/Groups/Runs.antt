-- ===== src/Api/History/Groups/Runs.antt =====
-- What the groups are: the rows cut where the key changes.
use headway.Base.{
  eqb_ℤ, eqb_ℤ_iff, Bool, List, [], ◌∷◌, ◌++◌, append_assoc, append-nil, All, All-append, inl, inr,
  ◌≡◌, ◌≢◌, refl, sym, ap, ◌∙◌, subst, Bool-cases, true_ne_false,
}
use headway.ServiceTime.{Time, Zone}
use headway.Api.History.{HourRow}
use headway.Api.History.Groups.{append_last, group_from, group_key, group_rows}

abbrev pub concat : List (List HourRow) → List HourRow
concat [] = []
concat (g ∷ gs) = g ++ concat gs

concat-append :
    (gs : List (List HourRow)) (g : List HourRow) → concat (gs ++ g ∷ []) ≡ concat gs ++ g
concat-append [] g = append-nil g
concat-append (h ∷ gs) g = rw (concat-append gs g) (sym (append_assoc h (concat gs) g))

module _ (key : HourRow → Time) where
  -- One row or more, all of one key.
  abbrev pub IsRun : Time → List HourRow → Type 0
  IsRun k [] = ⊥
  IsRun k (r ∷ g) = (key r ≡ k) × All (λ x. key x ≡ k) g

  -- Runs, the first of key `j` and the last of key `k`, each of another key than the one before.
  abbrev pub AreRuns : Time → List (List HourRow) → Time → Type 0
  AreRuns j [] k = ⊥
  AreRuns j (g ∷ []) k = IsRun j g × (j ≡ k)
  AreRuns j (g ∷ h ∷ gs) k = IsRun j g × ((i : Time) × (i ≢ j) × AreRuns i (h ∷ gs) k)

  IsRun-append :
      (k : Time) (g : List HourRow) (r : HourRow) → IsRun k g → key r ≡ k → IsRun k (g ++ r ∷ [])
  IsRun-append k [] r h e = absurd h
  IsRun-append k (x ∷ g) r h e = (h.0, All-append (λ y. key y ≡ k) g (r ∷ []) h.1 (e, tt))

  append_last-AreRuns :
      (j k : Time) (out : List (List HourRow)) (r : HourRow)
      → AreRuns j out k
      → key r ≡ k
      → AreRuns j (append_last r out) k
  unfolding append_last
  append_last-AreRuns j k [] r h e = absurd h
  append_last-AreRuns j k (g ∷ []) r h e = (IsRun-append j g r h.0 (e ∙ sym h.1), h.1)
  append_last-AreRuns j k (g ∷ h' ∷ []) r h e =
      let (i, ne, more) = h.1 in (h.0, (i, ne, append_last-AreRuns i k (h' ∷ []) r more e))
  append_last-AreRuns j k (g ∷ h' ∷ f ∷ gs) r h e =
      let (i, ne, more) = h.1 in (h.0, (i, ne, append_last-AreRuns i k (h' ∷ f ∷ gs) r more e))

  append_last-end :
      (out : List (List HourRow)) (r : HourRow)
      → append_last r (out ++ [] ∷ []) ≡ out ++ (r ∷ []) ∷ []
  unfolding append_last
  append_last-end [] r = refl
  append_last-end (g ∷ []) r = refl
  append_last-end (g ∷ h ∷ out) r = ap (λ x. g ∷ x) (append_last-end (h ∷ out) r)

  end-AreRuns :
      (j k : Time) (out : List (List HourRow)) (r : HourRow)
      → AreRuns j out k
      → key r ≢ k
      → AreRuns j (out ++ (r ∷ []) ∷ []) (key r)
  end-AreRuns j k [] r h ne = absurd h
  end-AreRuns j k (g ∷ []) r h ne = (h.0, (key r, (λ e. ne (e ∙ h.1)), ((refl, tt), refl)))
  end-AreRuns j k (g ∷ h' ∷ gs) r h ne =
      let (i, apart, more) = h.1 in (h.0, (i, apart, end-AreRuns i k (h' ∷ gs) r more ne))

  concat-append_last :
      (out : List (List HourRow)) (r : HourRow) (j k : Time)
      → AreRuns j out k
      → concat (append_last r out) ≡ concat out ++ r ∷ []
  unfolding append_last
  concat-append_last [] r j k h = absurd h
  concat-append_last (g ∷ []) r j k h =
      append-nil (g ++ r ∷ []) ∙ ap (λ x. x ++ r ∷ []) (sym (append-nil g))
  concat-append_last (g ∷ h' ∷ gs) r j k h =
      ap (λ x. g ++ x) (concat-append_last (h' ∷ gs) r h.1.0 k h.1.2)
      ∙ sym (append_assoc g (concat (h' ∷ gs)) (r ∷ []))

  -- The groups of the rows after those of `out`.
  group_from_lem :
      (rows : List HourRow) (out : List (List HourRow)) (j k : Time)
      → AreRuns j out k
      → (l : Time) × AreRuns j (group_from key rows out k) l
        × (concat (group_from key rows out k) ≡ concat out ++ rows)
  unfolding group_from
  group_from_lem [] out j k h = (k, h, sym (append-nil (concat out)))
  group_from_lem (r ∷ rows) [] j k h = absurd h
  group_from_lem (r ∷ rows) (g ∷ out) j k h = elim (Bool-cases (eqb_ℤ (key r) k)) [
    | inl same ↦
        let e = (eqb_ℤ_iff (key r) k).0 same in
        let grown = append_last-AreRuns j k (g ∷ out) r h e in
        let (l, runs, all) =
          group_from_lem rows (append_last r (g ∷ out)) j (key r)
            (subst (AreRuns j (append_last r (g ∷ out))) (sym e) grown) in
        rw same (
          l,
          runs,
          all
              ∙ ap (λ x. x ++ rows) (concat-append_last (g ∷ out) r j k h)
              ∙ append_assoc (concat (g ∷ out)) (r ∷ []) rows,
        )
    | inr other ↦
        let ne : key r ≢ k = λ e. true_ne_false (sym ((eqb_ℤ_iff (key r) k).1 e) ∙ other) in
        let (l, runs, all) =
          group_from_lem rows (g ∷ out ++ ((r ∷ []) ∷ [])) j (key r)
            (end-AreRuns j k (g ∷ out) r h ne) in
        rw (other, append_last-end (g ∷ out) r)
          (
            l,
            runs,
            all
                ∙ ap (λ x. x ++ rows) (concat-append (g ∷ out) (r ∷ []))
                ∙ append_assoc (concat (g ∷ out)) (r ∷ []) rows,
          )
  ]

-- groupRows loses no row and keeps their order: the groups one after another are the rows. No group is
-- empty, the rows of a group share their hour, or their day in Sydney, and neighbouring groups do not.
pub group_rows_lem :
    (loc : Zone) (by_day : Bool) (r : HourRow) (rows : List HourRow)
    → (concat (group_rows loc (r ∷ rows) by_day) ≡ r ∷ rows)
      × ((last : Time) × AreRuns
            (group_key loc by_day)
            (group_key loc by_day r)
            (group_rows loc (r ∷ rows) by_day)
            last)
unfolding group_rows group_from append_last
group_rows_lem loc by_day r rows =
    let key = group_key loc by_day in
    let (l, runs, all) =
      group_from_lem key rows ((r ∷ []) ∷ []) (key r) (key r) ((refl, tt), refl) in
    (all, (l, runs))
