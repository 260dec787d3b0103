-- ===== src/GtfsStatic/Tables/Checks.antt =====
-- What a record of stop_times.txt and of the calendar files is known to hold once it is converted.
use headway.Base.{
  ℤ, pos, ltb_ℤ, leb_ℤ, leb_ℤ→le, ◌≤ℤ◌, ltb_ℤ→ge, int16, String, str_eq, eq_iff, List, [], ◌∷◌,
  Option, none, some, inl, inr, ◌≡◌, ◌≢◌, refl, sym, ap, ◌∙◌, subst, arith, Bool-cases,
  true_ne_false,
}
use headway.ServiceTime.Clock.{parse_gtfs_time}
use headway.Civil.{codes}
use headway.GtfsStatic.Row.{
  RowError, malformed, Parsed, ok, wrong, ◌>>=◌, require, Row, str, need, int, within, stop_time,
}
use headway.GtfsStatic.Tables.{
  Value, text, number, opt_number, minus_one, not_negative, convert_stop_time,
}

ok_ne_wrong {ℓ κ} : {A : Type ℓ} {C : Type κ} {a : A} {e : RowError} → wrong e ≡ ok a → C
ok_ne_wrong {A = A} h = absurd (apart h)
  where
    apart : {a : A} {e : RowError} → wrong e ≡ ok a → ⊥
    apart h = cc

ok_injective {ℓ} : {A : Type ℓ} {a b : A} → ok a ≡ ok b → a ≡ b
ok_injective h = cc

-- The parts of a chain that succeeds.
>>=-ok {ℓ κ} :
    {A : Type ℓ} {B : Type κ} (m : Parsed A) (f : A → Parsed B) {b : B}
    → (m >>= f) ≡ ok b
    → (a : A) × (m ≡ ok a) × (f a ≡ ok b)
>>=-ok (ok a) f h = (a, refl, h)
>>=-ok (wrong e) f h = ok_ne_wrong h

pub need_lem :
    (r : Row) (col : String) (s : String) → need r col ≡ ok s → (s ≡ str r col) × (s ≢ "")
unfolding need
need_lem r col s h = elim (Bool-cases (str_eq (str r col) "")) [
  | inl blank ↦ ok_ne_wrong (rw blank at h)
  | inr there ↦
      let it : str r col ≡ s = ground (arith, rw there at h) in
      (sym it, λ e. true_ne_false (sym ((eq_iff (str r col) "").1 (it ∙ e)) ∙ there))
]

not_negative_lem : (col : String) (n m : ℤ) → not_negative col n ≡ ok m → pos 0 ≤ℤ m
not_negative_lem col n m h = elim (Bool-cases (ltb_ℤ n (pos 0))) [
  | inl below ↦ ok_ne_wrong (rw below at h)
  | inr above ↦ ground (arith, rw above at h, ltb_ℤ→ge n (pos 0) above)
]

-- A time is none, or no more than the limit.
abbrev pub InLimit : ℤ → Option ℤ → Type 0
InLimit max_s none = Unit
InLimit max_s (some n) = n ≤ℤ max_s

within_lem :
    (col : String) (max_s n : ℤ) (o : Option ℤ) → within col max_s n ≡ ok o → InLimit max_s o
within_lem col max_s n o h = elim (Bool-cases (leb_ℤ n max_s)) [
  | inr above ↦ ok_ne_wrong (rw above at h)
  | inl inside ↦
      let same : some n ≡ o = ground (arith, rw inside at h) in
      subst (InLimit max_s) same (leb_ℤ→le n max_s inside)
]

stop_time_lem :
    (r : Row) (col : String) (max_s : ℤ) (o : Option ℤ)
    → stop_time r col max_s ≡ ok o
    → InLimit max_s o
unfolding stop_time
stop_time_lem r col max_s o h = elim (Bool-cases (str_eq (str r col) "")) [
  | inl blank ↦ let same : none ≡ o = ground (arith, rw blank at h) in subst (InLimit max_s) same tt
  | inr there ↦
      let (n, parsed, checked) =
        >>=-ok (require (malformed col) (parse_gtfs_time (codes (str r col)))) (within col max_s)
          (rw there at h) in
      within_lem col max_s n o checked
]

module _ (F : Type 0) (parse_float : String → Option F) where
  abbrev pub call_of : String → ℤ → String → Option ℤ → Option ℤ → ℤ → ℤ → List (Value F)
  call_of trip_id seq stop_id arr dep pickup drop_off =
      text trip_id
      ∷ number seq
      ∷ text stop_id
      ∷ opt_number arr
      ∷ opt_number dep
      ∷ number (int16 pickup)
      ∷ number (int16 drop_off)
      ∷ []

  -- The values of a call: its trip and stop are named, its place is not negative, and no time is past
  -- the limit.
  pub record IsCall (max_s : ℤ) (r : Row) (vals : List (Value F)) : Type 0 where
    pub seq : ℤ
    pub arr : Option ℤ
    pub dep : Option ℤ
    pub pickup : ℤ
    pub drop_off : ℤ
    pub vals_eq : vals ≡ call_of (str r "trip_id") seq (str r "stop_id") arr dep pickup drop_off
    pub trip_named : str r "trip_id" ≢ ""
    pub stop_named : str r "stop_id" ≢ ""
    pub seq_ge : pos 0 ≤ℤ seq
    pub arr_le : InLimit max_s arr
    pub dep_le : InLimit max_s dep

  -- A record of stop_times.txt that is converted is a call: it names a trip and a stop, which go to
  -- their columns, its place in the trip is not negative, and each of its times is absent or at most
  -- SERVICE_TIME_MAX_S.
  pub convert_stop_time_lem :
      (max_s : ℤ) (r : Row) (vals : List (Value F))
      → convert_stop_time F parse_float max_s r ≡ ok vals
      → IsCall max_s r vals
  unfolding convert_stop_time
  convert_stop_time_lem max_s r vals h =
      let (trip_id, trip_ok, h1) = >>=-ok (need r "trip_id") _ h in
      let (stop_id, stop_ok, h2) = >>=-ok (need r "stop_id") _ h1 in
      let (n, seq_ok, h3) = >>=-ok (int r "stop_sequence" minus_one) _ h2 in
      let (seq, sign_ok, h4) = >>=-ok (not_negative "stop_sequence" n) _ h3 in
      let (arr, arr_ok, h5) = >>=-ok (stop_time r "arrival_time" max_s) _ h4 in
      let (dep, dep_ok, h6) = >>=-ok (stop_time r "departure_time" max_s) _ h5 in
      let (pu, pu_ok, h7) = >>=-ok (int r "pickup_type" (pos 0)) _ h6 in
      let (dof, dof_ok, h8) = >>=-ok (int r "drop_off_type" (pos 0)) _ h7 in
      let trip = need_lem r "trip_id" trip_id trip_ok in
      let stop = need_lem r "stop_id" stop_id stop_ok in
      record {
        seq = seq;
        arr = arr;
        dep = dep;
        pickup = pu;
        drop_off = dof;
        vals_eq =
            sym (ok_injective h8)
            ∙ ap (λ t. call_of t seq stop_id arr dep pu dof) trip.0
            ∙ ap (λ t. call_of (str r "trip_id") seq t arr dep pu dof) stop.0;
        trip_named = rw (trip.0) at trip.1;
        stop_named = rw (stop.0) at stop.1;
        seq_ge = not_negative_lem "stop_sequence" n seq sign_ok;
        arr_le = stop_time_lem r "arrival_time" max_s arr arr_ok;
        dep_le = stop_time_lem r "departure_time" max_s dep dep_ok;
      }
