-- ===== src/Cache/Read/Answers.antt =====
-- What Route and Stop answer, over all the feeds.
use headway.Base.{
  ◌-ℤ◌, ◌≤ℤ◌, ltb_ℤ, String, Bool, true, false, ◌||◌, ◌&&◌, not, List, [], ◌∷◌, ◌++◌, some,
  if◌then◌else◌, select, All, ◌≡◌, ◌⊎◌, refl, arith, Bool-cases, append-nil, append_assoc, inl, inr,
  Option-cases, sym, ◌∙◌, ltb_ℤ→ge, ltb_ℤ→le, ≤ℤ_trans, subst,
}
use headway.Base.Eq.{string_eq}
use headway.Base.Dict.{Dict, get, has, has-none, has-some}
use headway.ServiceTime.{Time, Duration}
use headway.Cache.{Cache, Snapshot, or_nil}
use headway.Cache.Read.{zero_time, Answer, fresh, gather_one, gather, route, stop}

module _ {ℓ} {A : Type ℓ} (index : Snapshot → Dict String (List A)) (ttl : Duration) (now : Time)
    (id : String) where
  -- A feed answers: it is fresh and has the route, or the stop.
  abbrev pub answers : String × Snapshot → Bool
  answers p = fresh index ttl now id p.1 && has id (index p.1)

  abbrev pub listed : List (String × Snapshot) → List A
  listed [] = []
  listed ((feed, s) ∷ feeds) = or_nil (get id (index s)) ++ listed feeds

  -- One turn of the loop keeps what it has, or takes a feed that answers.
  data Turn (p : String × Snapshot) (acc : Answer A) : Answer A → Type ℓ where
    kept : answers p ≡ false → Turn p acc acc
    taken :
        (xs : List A)
        → answers p ≡ true
        → get id (index p.1) ≡ some xs
        → Turn p acc
            (acc.0 ++ xs, if not acc.2 || ltb_ℤ p.1.feed_ts acc.1 then p.1.feed_ts else acc.1, true)

  turn_of :
      (p : String × Snapshot) (acc : Answer A) → Turn p acc (gather_one index ttl now id p.1 acc)
  turn_of (feed, s) acc = elim (Bool-cases (ltb_ℤ ttl (now -ℤ s.feed_ts))) [
    | inl e ↦ rw e (kept (rw e))
    | inr e ↦ elim (Option-cases (get id (index s))) [
      | inl g ↦ rw (e, g) (kept (rw (e, has-none id (index s) g)))
      | inr (xs, g) ↦ rw (e, g) (taken xs (rw (e, has-some id xs (index s) g)) g)
    ]
  ]

  listed_more :
      (p : String × Snapshot) (feeds : List (String × Snapshot)) (acc now_ : Answer A)
      → Turn p acc now_
      → now_.0 ++ listed (select answers feeds) ≡ acc.0 ++ listed (select answers (p ∷ feeds))
  listed_more p feeds acc now_ (kept e) = rw e
  listed_more p feeds acc now_ (taken xs e g) =
      rw (e, g) (append_assoc acc.0 xs (listed (select answers feeds)))

  gather-listed :
      (feeds : Dict String Snapshot) (acc : Answer A)
      → (gather index ttl now id feeds acc).0 ≡ acc.0 ++ listed (select answers feeds)
  gather-listed [] acc = sym (append-nil acc.0)
  gather-listed (p ∷ feeds) acc =
      gather-listed feeds (gather_one index ttl now id p.1 acc)
      ∙ listed_more p feeds acc (gather_one index ttl now id p.1 acc) (turn_of p acc)

  abbrev pub nonempty : List (String × Snapshot) → Bool
  nonempty [] = false
  nonempty (p ∷ feeds) = true

  abbrev pub IsBelow : Time → List (String × Snapshot) → Type 0
  IsBelow t feeds = All (λ p. t ≤ℤ p.1.feed_ts) feeds

  pub data Attains (t : Time) : List (String × Snapshot) → Type 0 where
    here :
        (p : String × Snapshot) (feeds : List (String × Snapshot))
        → p.1.feed_ts ≡ t
        → Attains t (p ∷ feeds)
    there :
        (p : String × Snapshot) (feeds : List (String × Snapshot))
        → Attains t feeds
        → Attains t (p ∷ feeds)

  -- What the rest of the loop does to the timestamp and the flag: it keeps them if no more feed answers;
  -- otherwise the timestamp becomes the least of those feeds', unless the one before is less still.
  data Rest (acc r : Answer A) (feeds : List (String × Snapshot)) : Type 0 where
    untouched : feeds ≡ [] → r.1 ≡ acc.1 → r.2 ≡ acc.2 → Rest acc r feeds
    older : acc.2 ≡ true → r.2 ≡ true → r.1 ≡ acc.1 → IsBelow r.1 feeds → Rest acc r feeds
    newer :
        r.2 ≡ true
        → Attains r.1 feeds
        → IsBelow r.1 feeds
        → ((acc.2 ≡ false) ⊎ (r.1 ≤ℤ acc.1))
        → Rest acc r feeds

  abbrev pub chosen : String × Snapshot → Answer A → Time
  chosen p acc = if not acc.2 || ltb_ℤ p.1.feed_ts acc.1 then p.1.feed_ts else acc.1

  chosen-cases :
      (p : String × Snapshot) (acc : Answer A)
      → ((chosen p acc ≡ p.1.feed_ts) × ((acc.2 ≡ false) ⊎ (p.1.feed_ts ≤ℤ acc.1)))
        ⊎ ((chosen p acc ≡ acc.1) × (acc.2 ≡ true) × (acc.1 ≤ℤ p.1.feed_ts))
  chosen-cases p acc = elim (Bool-cases acc.2) [
    | inr f ↦ rw f (inl (refl, inl refl))
    | inl f ↦ elim (Bool-cases (ltb_ℤ p.1.feed_ts acc.1)) [
      | inl l ↦ inl (rw (f, l), inr (ltb_ℤ→le p.1.feed_ts acc.1 l))
      | inr l ↦ inr (rw (f, l), f, ltb_ℤ→ge p.1.feed_ts acc.1 l)
    ]
  ]

  Rest-taken :
      (p : String × Snapshot) (feeds : List (String × Snapshot)) (acc r : Answer A) (xs : List A)
      → Rest (acc.0 ++ xs, chosen p acc, true) r feeds
      → Rest acc r (p ∷ feeds)
  Rest-taken p feeds acc r xs (untouched e t f) = elim (chosen-cases p acc) [
    | inl (q, le) ↦
        newer f (here p feeds (sym (t ∙ q))) (rw (t ∙ q, e) (omega arith, tt)) (rw (t ∙ q) le)
    | inr (q, found, le) ↦ older found f (t ∙ q) (rw (t ∙ q, e) (le, tt))
  ]
  Rest-taken p feeds acc r xs (older h f t below) = elim (chosen-cases p acc) [
    | inl (q, le) ↦
        newer f (here p feeds (sym (t ∙ q))) (rw (t ∙ q) (omega arith), below) (rw (t ∙ q) le)
    | inr (q, found, le) ↦ older found f (t ∙ q) (rw (t ∙ q) le, below)
  ]
  Rest-taken p feeds acc r xs (newer f at below (inl absurd_)) = ground arith
  Rest-taken p feeds acc r xs (newer f at below (inr le)) = elim (chosen-cases p acc) [
    | inl (q, same) ↦
        newer f (there p feeds at) (rw (sym q) le, below)
          (elim same [
            | inl e ↦ inl e
            | inr l ↦ inr (≤ℤ_trans r.1 p.1.feed_ts acc.1 (subst (λ t. r.1 ≤ℤ t) q le) l)
          ])
    | inr (q, found, ge) ↦
        newer f (there p feeds at)
          (≤ℤ_trans r.1 acc.1 p.1.feed_ts (subst (λ t. r.1 ≤ℤ t) q le) ge, below)
          (inr (rw (sym q) le))
  ]

  Rest-more :
      (p : String × Snapshot) (feeds : List (String × Snapshot)) (acc next r : Answer A)
      → Turn p acc next
      → Rest next r (select answers feeds)
      → Rest acc r (select answers (p ∷ feeds))
  Rest-more p feeds acc next r (kept e) rest = rw e rest
  Rest-more p feeds acc next r (taken xs e g) rest =
      rw e (Rest-taken p (select answers feeds) acc r xs rest)

  gather-Rest :
      (feeds : Dict String Snapshot) (acc : Answer A)
      → Rest acc (gather index ttl now id feeds acc) (select answers feeds)
  gather-Rest [] acc = untouched refl refl refl
  gather-Rest (p ∷ feeds) acc =
      Rest-more p feeds acc (gather_one index ttl now id p.1 acc)
        (gather index ttl now id feeds (gather_one index ttl now id p.1 acc)) (turn_of p acc)
        (gather-Rest feeds (gather_one index ttl now id p.1 acc))

  -- The items of the feeds that answer, and the least of those feeds' timestamps, if there are any.
  abbrev pub IsAnswer : Dict String Snapshot → Answer A → Type ℓ
  IsAnswer feeds r =
      (r.0 ≡ listed (select answers feeds))
      × (((select answers feeds ≡ []) × (r.2 ≡ false))
          ⊎ ((r.2 ≡ true)
              × Attains r.1 (select answers feeds)
              × IsBelow r.1 (select answers feeds)))

  answered :
      (feeds : Dict String Snapshot) (t : Time) (r : Answer A)
      → Rest ([], t, false) r feeds
      → ((feeds ≡ []) × (r.2 ≡ false)) ⊎ ((r.2 ≡ true) × Attains r.1 feeds × IsBelow r.1 feeds)
  answered feeds t r (untouched e at f) = inl (e, f)
  answered feeds t r (older h f at below) = ground arith
  answered feeds t r (newer f at below le) = inr (f, at, below)

  gather-IsAnswer :
      (feeds : Dict String Snapshot) (t : Time)
      → IsAnswer feeds (gather index ttl now id feeds ([], t, false))
  gather-IsAnswer feeds t = (
    gather-listed feeds ([], t, false),
    answered (select answers feeds) t (gather index ttl now id feeds ([], t, false))
        (gather-Rest feeds ([], t, false)),
  )

-- Route returns the trips on the route of all the feeds that are fresh and have the route; if there is
-- such a feed it is found and the time is the least of their timestamps, and otherwise it is not found.
pub route_lem :
    (id : String) (now : Time) (c : Cache)
    → IsAnswer (λ s. s.by_route) c.ttl now id c.feeds (route id now c)
unfolding route
route_lem id now c = gather-IsAnswer (λ s. s.by_route) c.ttl now id c.feeds zero_time

-- Stop returns the calls at the stop of all the feeds that are fresh and report the stop; if there is
-- such a feed it is found and the time is the least of their timestamps, and otherwise it is not found.
pub stop_lem :
    (id : String) (now : Time) (c : Cache)
    → IsAnswer (λ s. s.by_stop) c.ttl now id c.feeds (stop id now c)
unfolding stop
stop_lem id now c = gather-IsAnswer (λ s. s.by_stop) c.ttl now id c.feeds zero_time
