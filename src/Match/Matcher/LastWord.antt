-- ===== src/Match/Matcher/LastWord.antt =====
-- One observation for each key, and it is the last that the poll has for it.
use headway.Base.{
  ℕ, suc, zero, List, [], ◌∷◌, ◌++◌, Option, none, some, if◌then◌else◌, false, length, arith, ◌≡◌,
  ◌≢◌, ◌⊎◌, refl, Option-cases, Bool-cases, inl, inr, get_elem?, set, get_elem?-set_self,
  get_elem?-set_ne, get_elem?-append_here, get_elem?-append_before, get_elem?-lt, ◌∙◌, ◌==◌, ==_iff,
}
use headway.Ingest.{Observation, Key, key, key_beq, key_beq_iff, key_eq}
use headway.Base.Dict.{get, put, get-put, get-put_self}
use headway.Match.Matcher.{Run, add}

-- `at` holds the place of each key in `out`, and nothing else.
pub record IsIndexed (r : Run) : Type 0 where
  pub there :
      (k : Key) (i : ℕ)
      → get k r.at ≡ some i
      → (o : Observation) × (get_elem? r.out i ≡ some o) × (key o ≡ k)
  pub back : (i : ℕ) (o : Observation) → get_elem? r.out i ≡ some o → get (key o) r.at ≡ some i

-- A new observation stands at the end, and what was there stands where it stood.
append_inv :
    (xs : List Observation) (o p : Observation) (i : ℕ)
    → get_elem? (xs ++ o ∷ []) i ≡ some p
    → ((i ≡ length xs) × (p ≡ o)) ⊎ (get_elem? xs i ≡ some p)
append_inv [] o p zero h = inl (refl, ground arith)
append_inv [] o p (suc i) h = cc
append_inv (x ∷ xs) o p zero h = inr h
append_inv (x ∷ xs) o p (suc i) h = elim (append_inv xs o p i h) [
  | inl (here, same) ↦ inl (omega arith, same)
  | inr there ↦ inr there
]

set_inv :
    (xs : List Observation) (o p : Observation) (i j : ℕ)
    → get_elem? (set xs i o) j ≡ some p
    → ((i ≡ j) × (p ≡ o)) ⊎ ((i ≢ j) × (get_elem? xs j ≡ some p))
set_inv [] o p i j h = cc
set_inv (x ∷ xs) o p zero zero h = inl (refl, ground arith)
set_inv (x ∷ xs) o p zero (suc j) h = inr (omega arith, h)
set_inv (x ∷ xs) o p (suc i) zero h = inr (omega arith, h)
set_inv (x ∷ xs) o p (suc i) (suc j) h = elim (set_inv xs o p i j h) [
  | inl (here, same) ↦ inl (omega arith, same)
  | inr (other, there) ↦ inr (omega arith, there)
]

-- A key that is new goes to the end.
append-IsIndexed :
    (o : Observation) (r : Run)
    → IsIndexed r
    → get (key o) r.at ≡ none
    → IsIndexed (record r { at = put (key o) (length r.out) r.at; out = r.out ++ o ∷ [] })
append-IsIndexed o r h new = record {
  there = λ k i e. elim (Bool-cases (key_beq (key o) k)) [
    | inl same ↦
        let last : i ≡ length r.out = ground (arith, get-put (key o) k (length r.out) r.at) in
        (o, rw last (get_elem?-append_here r.out o), (key_beq_iff (key o) k).0 same)
    | inr other ↦
        let old : get k r.at ≡ some i = ground (arith, get-put (key o) k (length r.out) r.at) in
        let (p, there, named) = h.there k i old in
        (p, get_elem?-append_before r.out (o ∷ []) i (get_elem?-lt r.out i there) ∙ there, named)
  ];
  back = λ i p e. elim (append_inv r.out o p i e) [
    | inl (here, same) ↦ rw (same, here) (get-put_self (key o) (length r.out) r.at)
    | inr there ↦ ground (
      arith,
      get-put (key o) (key p) (length r.out) r.at,
      key_beq_iff (key o) (key p),
      h.back i p there,
    )
  ];
}

-- A key that is known keeps its place.
set-IsIndexed :
    (o : Observation) (i : ℕ) (r : Run)
    → IsIndexed r
    → get (key o) r.at ≡ some i
    → IsIndexed (record r { out = set r.out i o })
set-IsIndexed o i r h old =
    let (before, place, named) = h.there (key o) i old in
    record {
      there = λ k j e. elim (Bool-cases (i == j)) [
        | inl same ↦
            let (p, there, called) = h.there k j e in
            let here : i ≡ j = (==_iff i j).0 same in
            (
              o,
              rw (← here) (get_elem?-set_self r.out i o (get_elem?-lt r.out i place)),
              ground arith,
            )
        | inr other ↦
            let (p, there, called) = h.there k j e in
            (p, get_elem?-set_ne r.out i j o (ground arith) ∙ there, called)
      ];
      back = λ j p e. elim (set_inv r.out o p i j e) [
        | inl (here, same) ↦ rw (same, ← here) old
        | inr (other, there) ↦ h.back j p there
      ];
    }

-- Two keys have two places.
apart :
    (k : Key) (o : Observation) (i j : ℕ) (r : Run)
    → IsIndexed r
    → get (key o) r.at ≡ some i
    → get k r.at ≡ some j
    → key_beq (key o) k ≡ false
    → i ≢ j
apart k o i j r h old found other same =
    let (p, there, named) = h.there (key o) i old in
    let (q, place, called) = h.there k j found in ground (arith, key_beq_iff (key o) k)

pub add-IsIndexed : (o : Observation) (r : Run) → IsIndexed r → IsIndexed (add o r)
unfolding add
add-IsIndexed o r h = elim (Option-cases (get (key o) r.at)) [
  | inl new ↦
      rw (new, add)
        (record {
          there = (append-IsIndexed o r h new).there;
          back = (append-IsIndexed o r h new).back;
        })
  | inr (i, old) ↦
      rw (old, add)
        (record {
          there = (set-IsIndexed o i r h old).there;
          back = (set-IsIndexed o i r h old).back;
        })
]

-- The last of the observations with the key.
unfoldable pub last_word : Key → List Observation → Option Observation
last_word k [] = none
last_word k (o ∷ os) = elim (last_word k os) [
  | some later ↦ some later
  | none ↦ if key_beq (key o) k then some o else none
]

pub last_word-append :
    (k : Key) (os : List Observation) (o : Observation)
    → last_word k (os ++ o ∷ []) ≡ (if key_beq (key o) k then some o else last_word k os)
unfolding last_word
last_word-append k [] o = refl
last_word-append k (p ∷ os) o = ground (arith, last_word-append k os o)

unfoldable pub elem_at : List Observation → Option ℕ → Option Observation
elem_at out none = none
elem_at out (some i) = get_elem? out i

-- What the output holds for a key.
abbrev pub held : Key → Run → Option Observation
held k r = elem_at r.out (get k r.at)

held-append :
    (k : Key) (o : Observation) (r : Run)
    → IsIndexed r
    → get (key o) r.at ≡ none
    → held k (record r { at = put (key o) (length r.out) r.at; out = r.out ++ o ∷ [] })
      ≡ (if key_beq (key o) k then some o else held k r)
unfolding elem_at
held-append k o r h new = elim (Bool-cases (key_beq (key o) k)) [
  | inl same ↦ rw (get-put, same) (get_elem?-append_here r.out o)
  | inr other ↦ elim (Option-cases (get k r.at)) [
    | inl missing ↦ rw (get-put, other, missing)
    | inr (i, found) ↦
        let (p, there, named) = h.there k i found in
        rw (get-put, other, found)
          (get_elem?-append_before r.out (o ∷ []) i (get_elem?-lt r.out i there))
  ]
]

held-set :
    (k : Key) (o : Observation) (i : ℕ) (r : Run)
    → IsIndexed r
    → get (key o) r.at ≡ some i
    → held k (record r { out = set r.out i o }) ≡ (if key_beq (key o) k then some o else held k r)
unfolding elem_at
held-set k o i r h old = elim (Bool-cases (key_beq (key o) k)) [
  | inl same ↦
      let (p, there, named) = h.there (key o) i old in
      let e : key o ≡ k = (key_beq_iff (key o) k).0 same in
      rw (same, ← e, old) (get_elem?-set_self r.out i o (get_elem?-lt r.out i there))
  | inr other ↦ elim (Option-cases (get k r.at)) [
    | inl missing ↦ rw (other, missing)
    | inr (j, found) ↦
        rw (other, found) (get_elem?-set_ne r.out i j o (apart k o i j r h old found other))
  ]
]

pub held-add :
    (k : Key) (o : Observation) (r : Run)
    → IsIndexed r
    → held k (add o r) ≡ (if key_beq (key o) k then some o else held k r)
unfolding add
held-add k o r h = elim (Option-cases (get (key o) r.at)) [
  | inl new ↦ rw (new, add) (held-append k o r h new)
  | inr (i, old) ↦ rw (old, add) (held-set k o i r h old)
]
