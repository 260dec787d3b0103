-- ===== src/Api/RateLimit/Sweeps.antt =====
-- Forgetting idle clients: the limiter of the source against one that never sweeps.
use headway.Base.{
  ℤ, pos, ◌-ℤ◌, ◌≤ℤ◌, ◌<ℤ◌, String, str_eq, Bool, true, false, not, only_if, ◌||◌, List, [], ◌∷◌,
  Option, none, some, if◌then◌else◌, ◌≡◌, refl, sym, ap, ◌∙◌, subst, arith, int_laws, Bool-cases,
  inl, inr, ltb_ℤ→lt,
}
use headway.Base.Eq.{string_eq}
use headway.Base.Dict.{
  Dict, get, put, get-put, Distinct, put-Distinct, select_values-Distinct, get-select_values,
}
use headway.ServiceTime.{Time, Duration}
use headway.Feed.Limiter.{Floats}
use headway.Api.RateLimit.{
  idle_after, Admission, served, Bucket, IpLimiter, new_ip_limiter, is_idle, sweep, bucket_of,
  refilled, take_token, take_from, allow, answer, limit, limit_all,
}

-- What the limiter relies on of float64: a refill over more than a minute fills a bucket, tokens do not
-- become negative, and no time adds nothing to a full bucket.
pub record RefillLaws (f : Floats) (rate : f.Float) : Type 0 where
  pub rate_ge : f.ge rate f.zero ≡ true
  pub fresh : f.min rate (f.add rate (f.mul (f.seconds (pos 0)) rate)) ≡ rate
  pub full :
      (t : f.Float) (d : Duration)
      → idle_after <ℤ d
      → f.ge t f.zero ≡ true
      → f.min rate (f.add t (f.mul (f.seconds d) rate)) ≡ rate
  pub stays :
      (t : f.Float) (d : Duration)
      → pos 0 ≤ℤ d
      → f.ge t f.zero ≡ true
      → f.ge (f.min rate (f.add t (f.mul (f.seconds d) rate))) f.zero ≡ true
  pub spent : (t : f.Float) → f.ge t f.one ≡ true → f.ge (f.sub t f.one) f.zero ≡ true

module _ (f : Floats) where
  -- The sweep's test.
  abbrev busy : Time → Bucket f → Bool
  busy t b = not (is_idle f t b.last)

  -- `allow` of a limiter that forgets nobody.
  abbrev pub keeping : Time → String → IpLimiter f → IpLimiter f × Bool × Duration
  keeping = take_from f

  -- What the two hold for one client, at time `t`: the same, or a bucket that is full by now.
  abbrev Agrees : Time → Option (Bucket f) → Option (Bucket f) → Type 0
  Agrees t none none = Unit
  Agrees t none (some c) = (idle_after <ℤ t -ℤ c.last) × (f.ge c.tokens f.zero ≡ true)
  Agrees t (some b) none = ⊥
  Agrees t (some b) (some c) = (b ≡ c) × (c.last ≤ℤ t) × (f.ge c.tokens f.zero ≡ true)

  record Sim (t : Time) (l u : IpLimiter f) : Type 0 where
    rates : l.rate ≡ u.rate
    keys : Distinct l.buckets
    agree : (ip : String) → Agrees t (get ip l.buckets) (get ip u.buckets)

  Agrees-later : (t t' : Time) (a b : Option (Bucket f)) → t ≤ℤ t' → Agrees t a b → Agrees t' a b
  Agrees-later t t' none none h g = tt
  Agrees-later t t' none (some c) h g = (omega (int_laws, g.0), g.1)
  Agrees-later t t' (some b) none h g = g
  Agrees-later t t' (some b) (some c) h g = (g.0, omega (arith, g.1), g.2)

  Agrees-only_if :
      (t : Time) (a b : Option (Bucket f)) → Agrees t a b → Agrees t (only_if (busy t) a) b
  Agrees-only_if t none b g = g
  Agrees-only_if t (some b) none g = absurd g
  Agrees-only_if t (some b) (some c) g = elim (Bool-cases (is_idle f t b.last)) [
    | inl idle ↦
        rw idle
          (subst (λ x. idle_after <ℤ t -ℤ x.last) g.0 (ltb_ℤ→lt idle_after (t -ℤ b.last) idle), g.2)
    | inr active ↦ rw active g
  ]

  sweep-Sim : (t : Time) (l u : IpLimiter f) → Sim t l u → Sim t (sweep f t l) u
  unfolding sweep
  sweep-Sim t l u s = elim (Bool-cases (is_idle f t l.last_sweep)) [
    | inl due ↦ rw due (record {
      rates = s.rates;
      keys = select_values-Distinct (busy t) l.buckets s.keys;
      agree = λ ip.
          rw (get-select_values (busy t) ip l.buckets s.keys)
            (Agrees-only_if t (get ip l.buckets) (get ip u.buckets) (s.agree ip));
    })
    | inr not_due ↦ rw not_due s
  ]

  module _ (rate : f.Float) (laws : RefillLaws f rate) where
    no_time : (t : Time) → t -ℤ t ≡ pos 0
    no_time t = omega int_laws

    refilled_new : (t : Time) → refilled f t rate (record { tokens = rate; last = t }) ≡ rate
    unfolding refilled
    refilled_new t =
        subst (λ d. f.min rate (f.add rate (f.mul (f.seconds d) rate)) ≡ rate) (sym (no_time t))
          laws.fresh

    refilled-Agrees :
        (t : Time) (a b : Option (Bucket f))
        → Agrees t a b
        → refilled f t rate (bucket_of f t rate a) ≡ refilled f t rate (bucket_of f t rate b)
    refilled-Agrees t none none g = refl
    refilled-Agrees t none (some c) g = refilled_new t ∙ sym (filled c g)
      where
        filled :
            (c : Bucket f)
            → (idle_after <ℤ t -ℤ c.last) × (f.ge c.tokens f.zero ≡ true)
            → refilled f t rate c ≡ rate
        filled c g = unfold refilled in laws.full c.tokens (t -ℤ c.last) g.0 g.1
    refilled-Agrees t (some b) none g = absurd g
    refilled-Agrees t (some b) (some c) g = rw (g.0) refl

    refilled_ge :
        (t : Time) (a b : Option (Bucket f))
        → Agrees t a b
        → f.ge (refilled f t rate (bucket_of f t rate b)) f.zero ≡ true
    refilled_ge t a none g = rw (refilled_new t) laws.rate_ge
    refilled_ge t none (some c) g =
        rw (sym (refilled-Agrees t none (some c) g)) (rw (refilled_new t) laws.rate_ge)
    refilled_ge t (some b) (some c) g =
        unfold refilled in laws.stays c.tokens (t -ℤ c.last) (omega (int_laws, g.1)) g.2

    taken_ge :
        (t : Time) (x : f.Float)
        → f.ge x f.zero ≡ true
        → ((take_token f t rate x).0.last ≡ t)
          × (f.ge (take_token f t rate x).0.tokens f.zero ≡ true)
    taken_ge t x h = elim (Bool-cases (f.ge x f.one)) [
      | inl enough ↦ rw enough (refl, laws.spent x enough)
      | inr short ↦ rw short (refl, h)
    ]

    -- After a request the two hold the same bucket for the client, and agree on the others.
    Agrees-put :
        (t : Time) (ip j : String) (b : Bucket f) (m n : Dict String (Bucket f))
        → (b.last ≡ t) × (f.ge b.tokens f.zero ≡ true)
        → Agrees t (get j m) (get j n)
        → Agrees t (get j (put ip b m)) (get j (put ip b n))
    Agrees-put t ip j b m n h g = elim (Bool-cases (str_eq ip j)) [
      | inl same ↦
          rw (get-put ip j b m, get-put ip j b n, same)
            (refl, subst (λ x. x ≤ℤ t) (sym h.0) (omega arith), h.1)
      | inr other ↦ rw (get-put ip j b m, get-put ip j b n, other) g
    ]

    take_from-Sim :
        (t : Time) (ip : String) (l u : IpLimiter f)
        → u.rate ≡ rate
        → Sim t l u
        → ((take_from f t ip l).1 ≡ (take_from f t ip u).1)
          × ((take_from f t ip l).2 ≡ (take_from f t ip u).2)
          × Sim t (take_from f t ip l).0 (take_from f t ip u).0
    unfolding take_from
    take_from-Sim t ip l u hr s =
        let x = refilled f t rate (bucket_of f t rate (get ip u.buckets)) in
        let lr : l.rate ≡ rate = s.rates ∙ hr in
        let e = refilled-Agrees t (get ip l.buckets) (get ip u.buckets) (s.agree ip) in
        let b = (take_token f t rate x).0 in
        let ok = taken_ge t x (refilled_ge t (get ip l.buckets) (get ip u.buckets) (s.agree ip)) in
        rw (lr, hr, e)
          (
            refl,
            refl,
            record {
              rates = refl;
              keys = put-Distinct ip b l.buckets s.keys;
              agree = λ j. Agrees-put t ip j b l.buckets u.buckets ok (s.agree j);
            },
          )

    module _ (ceil_seconds : Duration → ℤ) where
      -- `limit` and `limit_all` of a limiter that forgets nobody.
      abbrev pub limit_keeping : Time → String → String → IpLimiter f → IpLimiter f × Admission
      limit_keeping now path ip l =
          if f.ge f.zero l.rate || str_eq path "/healthz" || str_eq path "/readyz"
          then (l, served)
          else answer f ceil_seconds (keeping now ip l)

      abbrev pub answers_keeping : List (Time × String × String) → IpLimiter f → List Admission
      answers_keeping [] l = []
      answers_keeping ((now, path, ip) ∷ rs) l =
          (limit_keeping now path ip l).1 ∷ answers_keeping rs (limit_keeping now path ip l).0

      -- Each request comes at or after the one before.
      abbrev pub FromOn : Time → List (Time × String × String) → Type 0
      FromOn t [] = Unit
      FromOn t ((now, path, ip) ∷ rs) = (t ≤ℤ now) × FromOn now rs

      answer-Sim :
          (t : Time) (p q : IpLimiter f × Bool × Duration)
          → (p.1 ≡ q.1) × (p.2 ≡ q.2) × Sim t p.0 q.0
          → ((answer f ceil_seconds p).1 ≡ (answer f ceil_seconds q).1)
            × Sim t (answer f ceil_seconds p).0 (answer f ceil_seconds q).0
      answer-Sim t (l, true, w) (u, true, v) h = (refl, h.2)
      answer-Sim t (l, true, w) (u, false, v) h = cc
      answer-Sim t (l, false, w) (u, true, v) h = cc
      answer-Sim t (l, false, w) (u, false, v) h = (rw (h.1) refl, h.2)

      limit-Sim :
          (t : Time) (path ip : String) (l u : IpLimiter f)
          → u.rate ≡ rate
          → Sim t l u
          → ((limit f ceil_seconds t path ip l).1 ≡ (limit_keeping t path ip u).1)
            × Sim t (limit f ceil_seconds t path ip l).0 (limit_keeping t path ip u).0
      unfolding limit allow
      limit-Sim t path ip l u hr s =
          let exempt =
            λ (r : f.Float). f.ge f.zero r || str_eq path "/healthz" || str_eq path "/readyz" in
          let same : exempt l.rate ≡ exempt u.rate = ap exempt s.rates in
          elim (Bool-cases (exempt u.rate)) [
            | inl is_exempt ↦ rw (same ∙ is_exempt, is_exempt) (refl, s)
            | inr limited ↦
                rw (same ∙ limited, limited)
                  (answer-Sim t (allow f t ip l) (keeping t ip u)
                    (take_from-Sim t ip (sweep f t l) u hr (sweep-Sim t l u s)))
          ]

      limit_keeping-rate :
          (t : Time) (path ip : String) (u : IpLimiter f)
          → (limit_keeping t path ip u).0.rate ≡ u.rate
      unfolding take_from
      limit_keeping-rate t path ip u = ground arith

      answers-Sim :
          (t : Time) (rs : List (Time × String × String)) (l u : IpLimiter f)
          → FromOn t rs
          → u.rate ≡ rate
          → Sim t l u
          → limit_all f ceil_seconds rs l ≡ answers_keeping rs u
      unfolding limit_all
      answers-Sim t [] l u h hr s = refl
      answers-Sim t ((now, path, ip) ∷ rs) l u h hr s =
          let later : Sim now l u = record {
            rates = s.rates;
            keys = s.keys;
            agree = λ j. Agrees-later t now (get j l.buckets) (get j u.buckets) h.0 (s.agree j);
          } in
          let (same, next) = limit-Sim now path ip l u hr later in
          rw same (
            ap (λ as'. (limit_keeping now path ip u).1 ∷ as')
              (answers-Sim now rs _ _ h.1 (limit_keeping-rate now path ip u ∙ hr) next))

      -- Forgetting clients that were idle for more than a minute changes no answer: for requests whose
      -- times do not go back, a new limiter answers each as one that keeps every bucket for ever,
      -- if the arithmetic of float64 meets RefillLaws at the rate.
      pub limit_all-forgets :
          (start : Time) (rs : List (Time × String × String))
          → FromOn start rs
          → limit_all f ceil_seconds rs (new_ip_limiter f rate start)
            ≡ answers_keeping rs (new_ip_limiter f rate start)
      unfolding new_ip_limiter get
      limit_all-forgets start rs h =
          answers-Sim start rs (new_ip_limiter f rate start) (new_ip_limiter f rate start) h refl
            (record { rates = refl; keys = tt; agree = λ j. tt })
