-- ===== src/Ingest/Filter/Bounds.antt =====
-- The size of the filter's map.
use headway.Base.{
  ℕ, zero, suc, ◌+◌, ◌<◌, ◌≤◌, ◌/◌, ℤ, true, List, [], ◌∷◌, some, length, take, arith, ◌≡◌, refl,
  inl, inr, Option-cases, Bool-cases, All,
}
use headway.Base.Dict.{Dict, get, put, remove, has, length-put, length-remove-le}
use headway.ServiceTime.{Date}
use headway.Ingest.{Observation, Key, key, key_eq}
use headway.Ingest.Filter.{
  Entry, Filter, new_filter, changed, entry_of, insert_by_seq, sort_by_seq, remove_all,
  at_least_one, evict_oldest, make_room, record_entry, admit, keep_from, count_before,
  expire_before, forget, len,
}
use headway.Ingest.Filter.Changes.{admit_known, admit_unknown}

-- The states that the filter passes through.
pub data Reachable (min_delta : ℤ) (max_entries : ℕ) : Filter → Type 0 where
  created : Reachable min_delta max_entries (new_filter min_delta max_entries)
  admitting :
      (f : Filter) (o : Observation)
      → Reachable min_delta max_entries f
      → Reachable min_delta max_entries (admit o f).0
  expiring :
      (f : Filter) (cutoff : Date)
      → Reachable min_delta max_entries f
      → Reachable min_delta max_entries (expire_before cutoff f).0
  forgetting :
      (f : Filter) (k : Key)
      → Reachable min_delta max_entries f
      → Reachable min_delta max_entries (forget k f)

length-remove-lt : (k : Key) (m : Dict Key Entry) → has k m ≡ true → length (remove k m) < length m
unfolding remove get
length-remove-lt k [] h = ground arith
length-remove-lt k ((i, w) ∷ m) h = ground (arith, length-remove-lt k m, length-remove-le k m)

length-remove_all :
    (as' : List (Key × Entry)) (m : Dict Key Entry) → length (remove_all as' m) ≤ length m
unfolding remove_all
length-remove_all [] m = omega arith
length-remove_all ((k, e) ∷ as') m =
    omega (arith, length-remove_all as' (remove k m), length-remove-le k m)

-- The entry that stands first after sorting is one of the map's.
insert-head :
    (a : Key × Entry) (bs : List (Key × Entry)) (P : Key × Entry → Type 0)
    → P a
    → All P bs
    → All P (insert_by_seq a bs)
unfolding insert_by_seq
insert-head a [] P h rest = (h, rest)
insert-head a (b ∷ bs) P h rest = ground (arith, insert-head a bs P h rest.1)

sort_by_seq-All :
    (as' : List (Key × Entry)) (P : Key × Entry → Type 0) → All P as' → All P (sort_by_seq as')
unfolding sort_by_seq
sort_by_seq-All [] P h = h
sort_by_seq-All (a ∷ as') P h = insert-head a (sort_by_seq as') P h.0 (sort_by_seq-All as' P h.1)

length-insert_by_seq :
    (a : Key × Entry) (bs : List (Key × Entry)) → length (insert_by_seq a bs) ≡ suc (length bs)
unfolding insert_by_seq
length-insert_by_seq a [] = refl
length-insert_by_seq a (b ∷ bs) = ground (arith, length-insert_by_seq a bs)

length-sort_by_seq : (as' : List (Key × Entry)) → length (sort_by_seq as') ≡ length as'
unfolding sort_by_seq
length-sort_by_seq [] = refl
length-sort_by_seq (a ∷ as') =
    omega (arith, length-insert_by_seq a (sort_by_seq as'), length-sort_by_seq as')

abbrev Held : Dict Key Entry → Key × Entry → Type 0
Held m p = has p.0 m ≡ true

hold_more :
    (i : Key) (w : Entry) (m : Dict Key Entry) (as' : List (Key × Entry))
    → All (Held m) as'
    → All (Held ((i, w) ∷ m)) as'
unfolding get
hold_more i w m [] h = h
hold_more i w m (a ∷ as') h = (ground (arith, h.0), hold_more i w m as' h.1)

All-Held : (m : Dict Key Entry) → All (Held m) m
unfolding get
All-Held [] = tt
All-Held ((i, w) ∷ m) = (ground (arith, key_eq.beq_iff i i), hold_more i w m m (All-Held m))

remove_all-shrinks :
    (as' : List (Key × Entry)) (m : Dict Key Entry) (q : ℕ)
    → All (Held m) as'
    → 0 < length as'
    → length (remove_all (take (suc q) as') m) < length m
unfolding remove_all
remove_all-shrinks [] m q h nonempty = elim nonempty [ ]
remove_all-shrinks ((k, e) ∷ as') m q h nonempty =
    omega (arith, length-remove_all (take q as') (remove k m), length-remove-lt k m h.0)

at_least_one_lem : (n : ℕ) → (q : ℕ) × (at_least_one n ≡ suc q)
at_least_one_lem zero = (0, refl)
at_least_one_lem (suc n) = (n, refl)

evict_oldest-shrinks :
    (f : Filter) → 0 < length f.entries → length (evict_oldest f).entries < length f.entries
unfolding evict_oldest
evict_oldest-shrinks f h =
    let q = at_least_one_lem (length f.entries / 10) in
    rw (q.1) (
      remove_all-shrinks (sort_by_seq f.entries) f.entries q.0
        (sort_by_seq-All f.entries (Held f.entries) (All-Held f.entries))
        (rw (length-sort_by_seq f.entries) h))

make_room-fits :
    (f : Filter)
    → 1 ≤ f.max_entries
    → length f.entries ≤ f.max_entries
    → length (make_room f).entries < f.max_entries
unfolding make_room
make_room-fits f h k = ground (arith, evict_oldest-shrinks f)

length-put-le : (k : Key) (e : Entry) (m : Dict Key Entry) → length (put k e m) ≤ suc (length m)
length-put-le k e m = ground (arith, length-put k e m)

length-put_known :
    (k : Key) (e prev : Entry) (m : Dict Key Entry)
    → get k m ≡ some prev
    → length (put k e m) ≡ length m
length-put_known k e prev m h = ground (arith, h, length-put k e m)

make_room-max_entries : (f : Filter) → (make_room f).max_entries ≡ f.max_entries
unfolding make_room evict_oldest
make_room-max_entries f = ground arith

abbrev Fits : ℕ → Filter → Type 0
Fits n f = (f.max_entries ≡ n) × (length f.entries ≤ n)

admit-Fits : (o : Observation) (f : Filter) (n : ℕ) → 1 ≤ n → Fits n f → Fits n (admit o f).0
unfolding record_entry
admit-Fits o f n h (m, fits) = elim (Option-cases (get (key o) f.entries)) [
  | inl e ↦ rw (admit_unknown o f e) (
    rw (make_room-max_entries f) m,
    omega (
      arith,
      length-put-le (key o) (record (entry_of o) { seq = suc (make_room f).seq })
          (make_room f).entries,
      make_room-fits f (rw m h) (rw m fits),
    ),
  )
  | inr (prev, e) ↦ elim (Bool-cases (changed prev (entry_of o) f.min_delta)) [
    | inl c ↦
        rw (admit_known o f prev e, c)
          (
            m,
            rw (length-put_known (key o) (record (entry_of o) { seq = suc f.seq }) prev f.entries e)
                fits,
          )
    | inr c ↦ rw (admit_known o f prev e, c) (m, fits)
  ]
]

length-keep_from :
    (cutoff : Date) (m : Dict Key Entry)
    → length (keep_from cutoff m) + count_before cutoff m ≡ length m
unfolding keep_from count_before
length-keep_from cutoff [] = refl
length-keep_from cutoff ((k, e) ∷ m) = ground (arith, length-keep_from cutoff m)

Reachable-Fits : (d : ℤ) (n : ℕ) (f : Filter) → Reachable d n f → 1 ≤ n → Fits n f
unfolding new_filter expire_before forget
Reachable-Fits d n f created h = (refl, omega arith)
Reachable-Fits d n f (admitting g o r) h = admit-Fits o g n h (Reachable-Fits d n g r h)
Reachable-Fits d n f (expiring g cutoff r) h = (
  (Reachable-Fits d n g r h).0,
  omega (arith, length-keep_from cutoff g.entries, (Reachable-Fits d n g r h).1),
)
Reachable-Fits d n f (forgetting g k r) h = (
  (Reachable-Fits d n g r h).0,
  omega (arith, length-remove-le k g.entries, (Reachable-Fits d n g r h).1),
)

-- A filter made for at least one entry never remembers more than it was made for, whatever is
-- admitted, expired and forgotten, in any order.
pub Reachable-len :
    (min_delta : ℤ) (max_entries : ℕ) (f : Filter)
    → Reachable min_delta max_entries f
    → 1 ≤ max_entries
    → len f ≤ max_entries
unfolding len
Reachable-len min_delta max_entries f r h = (Reachable-Fits min_delta max_entries f r h).1

-- Expiry drops as many entries as it reports.
pub expire_before-counts :
    (cutoff : Date) (f : Filter)
    → len (expire_before cutoff f).0 + (expire_before cutoff f).1 ≡ len f
unfolding len expire_before
expire_before-counts cutoff f = length-keep_from cutoff f.entries
