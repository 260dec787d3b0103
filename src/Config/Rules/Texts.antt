-- ===== src/Config/Rules/Texts.antt =====
-- What the rules on the database's URL, the CORS origin and the profiler's address accept.
use headway.Base.{
  String, true, false, ◌↔◌, ◌≡◌, ◌≢◌, ◌⊎◌, inl, inr, Option, none, some, str_eq, eq_iff, refl, sym,
  ap, ◌∙◌, subst, arith, Bool-cases, true_ne_false, some_ne_none, some_injective,
}
use headway.Config.Rules.{
  Url, Library, bad_scheme, bad_origin_url, bad_host, blank, bad_database, bad_origin, bad_pprof,
}

module _ {F : Type 0} (lib : Library F) where
  -- No URL, or one of PostgreSQL's two schemes.
  abbrev pub DatabaseSound : String → Type 0
  DatabaseSound raw =
      (raw ≡ "")
      ⊎ ((u : Url) × (lib.parse_url raw ≡ some u)
          × ((u.scheme ≡ "postgres") ⊎ (u.scheme ≡ "postgresql")))

  -- No origin, or a scheme of the web with a host, no path and no query.
  abbrev pub OriginSound : String → Type 0
  OriginSound o =
      (o ≡ "")
      ⊎ ((u : Url) × (lib.parse_url o ≡ some u)
          × ((u.scheme ≡ "https") ⊎ (u.scheme ≡ "http"))
          × (u.host ≢ "")
          × (u.path ≡ "")
          × (u.raw_query ≡ ""))

  -- No address, or a port of this machine only.
  abbrev pub ProfilerSound : String → Type 0
  ProfilerSound a =
      (a ≡ "")
      ⊎ ((host : String) × (lib.split_host a ≡ some host)
          × ((host ≡ "localhost") ⊎ (lib.is_loopback_ip host ≡ true)))

  bad_scheme_iff :
      (o : Option Url)
      → (bad_scheme lib o ≡ false)
        ↔ ((u : Url) × (o ≡ some u) × ((u.scheme ≡ "postgres") ⊎ (u.scheme ≡ "postgresql")))
  bad_scheme_iff none = ((λ h. true_ne_false h), λ h. some_ne_none {a = h.0} (sym h.1))
  bad_scheme_iff (some u) = (
    (λ h. (u, refl, ground (arith, h, eq_iff u.scheme "postgres", eq_iff u.scheme "postgresql"))),
    λ h.
        let same = ap (λ (x : Url). x.scheme) (some_injective h.1) in
        ground (arith, h.2, same, eq_iff u.scheme "postgres", eq_iff u.scheme "postgresql"),
  )

  pub database_iff : (raw : String) → (bad_database lib raw ≡ false) ↔ DatabaseSound raw
  database_iff raw = elim (Bool-cases (str_eq raw "")) [
    | inl unset ↦ rw unset ((λ h. inl ((eq_iff raw "").0 unset)), λ h. refl)
    | inr given ↦
        let it = bad_scheme_iff (lib.parse_url raw) in
        rw given (
          (λ h. inr (it.0 h)),
          λ h. elim h [
            | inl empty ↦ true_ne_false (sym ((eq_iff raw "").1 empty) ∙ given)
            | inr good ↦ it.1 good
          ],
        )
  ]

  bad_origin_url_iff :
      (o : Option Url)
      → (bad_origin_url lib o ≡ false) ↔ (
          (u : Url) × (o ≡ some u)
          × ((u.scheme ≡ "https") ⊎ (u.scheme ≡ "http"))
          × (u.host ≢ "")
          × (u.path ≡ "")
          × (u.raw_query ≡ ""))
  bad_origin_url_iff none = ((λ h. true_ne_false h), λ h. some_ne_none {a = h.0} (sym h.1))
  bad_origin_url_iff (some u) = (
    (λ h. let (scheme, host, path, query) = parts u h in (u, refl, scheme, host, path, query)),
    λ h.
        subst (λ x. bad_origin_url lib (some x) ≡ false) (sym (some_injective h.1))
          (whole h.0 (h.2, h.3, h.4, h.5)),
  )
    where
      parts :
          (v : Url)
          → bad_origin_url lib (some v) ≡ false
          → ((v.scheme ≡ "https") ⊎ (v.scheme ≡ "http"))
            × (v.host ≢ "")
            × (v.path ≡ "")
            × (v.raw_query ≡ "")
      parts v h = (
        ground (arith, h, eq_iff v.scheme "https", eq_iff v.scheme "http"),
        (λ e. ground (arith, h, e, eq_iff v.host "")),
        ground (arith, h, eq_iff v.path ""),
        ground (arith, h, eq_iff v.raw_query ""),
      )

      whole :
          (v : Url)
          → ((v.scheme ≡ "https") ⊎ (v.scheme ≡ "http"))
            × (v.host ≢ "")
            × (v.path ≡ "")
            × (v.raw_query ≡ "")
          → bad_origin_url lib (some v) ≡ false
      whole v h = ground (
        arith,
        h.0,
        h.1,
        h.2,
        h.3,
        eq_iff v.scheme "https",
        eq_iff v.scheme "http",
        eq_iff v.host "",
        eq_iff v.path "",
        eq_iff v.raw_query "",
      )

  pub origin_iff : (o : String) → (bad_origin lib o ≡ false) ↔ OriginSound o
  origin_iff o = elim (Bool-cases (str_eq o "")) [
    | inl unset ↦ rw unset ((λ h. inl ((eq_iff o "").0 unset)), λ h. refl)
    | inr given ↦
        let it = bad_origin_url_iff (lib.parse_url o) in
        rw given (
          (λ h. inr (it.0 h)),
          λ h. elim h [
            | inl empty ↦ true_ne_false (sym ((eq_iff o "").1 empty) ∙ given)
            | inr good ↦ it.1 good
          ],
        )
  ]

  bad_host_iff :
      (o : Option String)
      → (bad_host lib o ≡ false) ↔ (
          (host : String) × (o ≡ some host)
          × ((host ≡ "localhost") ⊎ (lib.is_loopback_ip host ≡ true)))
  bad_host_iff none = ((λ h. true_ne_false h), λ h. some_ne_none {a = h.0} (sym h.1))
  bad_host_iff (some host) = (
    (λ h. (host, refl, ground (arith, h, eq_iff host "localhost"))),
    λ h. subst (λ x. bad_host lib (some x) ≡ false) (sym (some_injective h.1)) (whole h.0 h.2),
  )
    where
      whole :
          (x : String)
          → (x ≡ "localhost") ⊎ (lib.is_loopback_ip x ≡ true)
          → bad_host lib (some x) ≡ false
      whole x h = ground (arith, h, eq_iff x "localhost")

  pub profiler_iff : (a : String) → (bad_pprof lib a ≡ false) ↔ ProfilerSound a
  profiler_iff a = elim (Bool-cases (str_eq a "")) [
    | inl unset ↦ rw unset ((λ h. inl ((eq_iff a "").0 unset)), λ h. refl)
    | inr given ↦
        let it = bad_host_iff (lib.split_host a) in
        rw given (
          (λ h. inr (it.0 h)),
          λ h. elim h [
            | inl empty ↦ true_ne_false (sym ((eq_iff a "").1 empty) ∙ given)
            | inr good ↦ it.1 good
          ],
        )
  ]

  pub not_blank_iff : (s : String) → (blank s ≡ false) ↔ (s ≢ "")
  not_blank_iff s = (
    (λ h e. true_ne_false (sym ((eq_iff s "").1 e) ∙ h)),
    λ h. elim (Bool-cases (str_eq s "")) [
      | inl empty ↦ absurd (h ((eq_iff s "").0 empty))
      | inr there ↦ there
    ],
  )
