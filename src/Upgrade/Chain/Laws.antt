-- ===== src/Upgrade/Chain/Laws.antt =====
-- What the chain of the routines does to a collector.
use opentelemetry_operator.Prelude.{
  String, true, false, Option, none, some, List, [], ◌∷◌, ◌≡◌, refl, sym, ◌==◌, Bool-cases, inl,
  inr,
}
use opentelemetry_operator.Upgrade.Types.{Otelcol, Outcome, ok, err, panic}
use opentelemetry_operator.Upgrade.Chain.{
  Semver, OtelcolVersion, after_step, run_newer, at_version, with_version, managed_instance,
}

ok_eq :
    {S : Type 0} (o p : Otelcol) (s t : S)
    → ◌≡◌ {A = Outcome × S} (ok o, s) (ok p, t)
    → (o ≡ p) × (s ≡ t)
ok_eq o p s t h = (cc h, cc h)

module _ (sem : Semver) {S : Type 0} where
  unfoldable pub newer :
      sem.Version → List (OtelcolVersion sem.Version S) → List (OtelcolVersion sem.Version S)
  newer v [] = []
  newer v (a ∷ as_) =
      let rest = newer v as_ in elim (sem.greater a.version v) [ true ↦ a ∷ rest | false ↦ rest ]

  -- These routines have run, one after the other and each without an error.
  pub data Applied : List (OtelcolVersion sem.Version S) → Otelcol → S → Otelcol → S → Type 0 where
    applied_none : {o p : Otelcol} {s t : S} → o ≡ p → s ≡ t → Applied [] o s p t
    applied :
        {a : OtelcolVersion sem.Version S} {as_ : List (OtelcolVersion sem.Version S)}
        {o p q : Otelcol} {s t u : S}
        → a.upgrade o s ≡ (ok p, t)
        → Applied as_ (record p { version = sem.print a.version }) t q u
        → Applied (a ∷ as_) o s q u

  stepped :
      (a : OtelcolVersion sem.Version S) (as_ : List (OtelcolVersion sem.Version S))
      (v : sem.Version) (o p : Otelcol) (s t : S) (x : Outcome × S)
      → a.upgrade o s ≡ x
      → ((q : Otelcol) (u : S)
          → run_newer sem as_ v q u ≡ (ok p, t)
          → Applied (newer v as_) q u p t)
      → after_step sem (run_newer sem as_ v) a.version x ≡ (ok p, t)
      → Applied (a ∷ newer v as_) o s p t
  stepped a as_ v o p s t (ok q, u) e ih h =
      applied e (ih (record q { version = sem.print a.version }) u h)
  stepped a as_ v o p s t (err m, u) e ih h = cc h
  stepped a as_ v o p s t (panic, u) e ih h = cc h

  run_newer-Applied :
      (as_ : List (OtelcolVersion sem.Version S)) (v : sem.Version) (o p : Otelcol) (s t : S)
      → run_newer sem as_ v o s ≡ (ok p, t)
      → Applied (newer v as_) o s p t
  unfolding run_newer newer
  run_newer-Applied [] v o p s t h = applied_none (ok_eq o p s t h).0 (ok_eq o p s t h).1
  run_newer-Applied (a ∷ as_) v o p s t h = elim (Bool-cases (sem.greater a.version v)) [
    | inl e ↦
        rw (e, newer)
          (stepped a as_ v o p s t (a.upgrade o s) refl (λ q u g. run_newer-Applied as_ v q p u t g)
            (rw (e, run_newer) at h))
    | inr e ↦ rw (e, newer) (run_newer-Applied as_ v o p s t (rw (e, run_newer) at h))
  ]

  run_newer-none :
      (as_ : List (OtelcolVersion sem.Version S)) (v : sem.Version) (o : Otelcol) (s : S)
      → newer v as_ ≡ []
      → run_newer sem as_ v o s ≡ (ok o, s)
  unfolding run_newer newer
  run_newer-none [] v o s h = refl
  run_newer-none (a ∷ as_) v o s h = elim (Bool-cases (sem.greater a.version v)) [
    | inl e ↦ cc (rw (e, newer) at h)
    | inr e ↦ rw (e, run_newer) (run_newer-none as_ v o s (rw (e, newer) at h))
  ]

  versioned :
      (current : String) (x : Outcome × S) (o : Otelcol) (s : S)
      → at_version sem current x ≡ (ok o, s)
      → (p : Otelcol) × (x ≡ (ok p, s)) × (o ≡ record p { version = current })
  versioned current (ok p, t) o s h =
      let (e, f) = ok_eq (record p { version = current }) o t s h in (p, rw f refl, sym e)
  versioned current (err m, t) o s h = cc h
  versioned current (panic, t) o s h = cc h

  -- Where a collector has a version that can be read and is not newer than the last routine's, an
  -- upgrade without an error has run the routines of the newer versions, all of them and in order, and
  -- has then set the operator's version.
  pub managed_instance-Applied :
      (as_ : List (OtelcolVersion sem.Version S)) (last v : sem.Version) (current : String)
      (o p : Otelcol) (s t : S)
      → (o.version == "") ≡ false
      → sem.new_version o.version ≡ some v
      → sem.greater v last ≡ false
      → managed_instance sem as_ last current o s ≡ (ok p, t)
      → (q : Otelcol) × Applied (newer v as_) o s q t × (p ≡ record q { version = current })
  unfolding managed_instance
  managed_instance-Applied as_ last v current o p s t named parsed old h =
      let (q, e, f) =
        versioned current (run_newer sem as_ v o s) p t
          (rw (named, parsed, old, managed_instance, with_version) at h) in
      (q, run_newer-Applied as_ v o q s t e, f)

  again_with :
      (as_ : List (OtelcolVersion sem.Version S)) (last v : sem.Version) (current : String)
      (p : Otelcol) (t : S)
      → newer v as_ ≡ []
      → p.version ≡ current
      → with_version sem as_ last current p t (some v) ≡ (ok p, t)
  again_with as_ last v current p t none_newer same = elim (Bool-cases (sem.greater v last)) [
    | inl f ↦ rw (f, with_version) refl
    | inr f ↦ rw (f, with_version, run_newer-none as_ v p t none_newer, ← same) refl
  ]

  again :
      (as_ : List (OtelcolVersion sem.Version S)) (last v : sem.Version) (current : String)
      (p : Otelcol) (t : S)
      → sem.new_version current ≡ some v
      → newer v as_ ≡ []
      → p.version ≡ current
      → managed_instance sem as_ last current p t ≡ (ok p, t)
  unfolding managed_instance
  again as_ last v current p t parsed none_newer same = elim (Bool-cases (p.version == "")) [
    | inl e ↦ rw (e, managed_instance) refl
    | inr e ↦
        let read : sem.new_version p.version ≡ some v = rw same parsed in
        rw (e, managed_instance, read) (again_with as_ last v current p t none_newer same)
  ]

  parsed_idem :
      (as_ : List (OtelcolVersion sem.Version S)) (last v : sem.Version) (current : String)
      (o p : Otelcol) (s t : S)
      → sem.new_version current ≡ some v
      → newer v as_ ≡ []
      → managed_instance sem as_ last current o s ≡ (ok p, t)
      → (x : Option sem.Version) → sem.new_version o.version ≡ x
      → with_version sem as_ last current o s x ≡ (ok p, t)
      → managed_instance sem as_ last current p t ≡ (ok p, t)
  unfolding managed_instance
  parsed_idem as_ last v current o p s t parsed none_newer h none e g = cc g
  parsed_idem as_ last v current o p s t parsed none_newer h (some w) e g =
      elim (Bool-cases (sem.greater w last)) [
        | inl f ↦ let (x, y) = ok_eq o p s t (rw (f, with_version) at g) in rw (x, y) at h
        | inr f ↦
            let (q, x, y) =
              versioned current (run_newer sem as_ w o s) p t (rw (f, with_version) at g) in
            again as_ last v current p t parsed none_newer (rw y refl)
      ]

  -- Where the operator's version can be read and no routine's version is newer, an upgrade after one
  -- without an error changes neither the collector nor the server.
  pub managed_instance_idem :
      (as_ : List (OtelcolVersion sem.Version S)) (last v : sem.Version) (current : String)
      (o p : Otelcol) (s t : S)
      → sem.new_version current ≡ some v
      → newer v as_ ≡ []
      → managed_instance sem as_ last current o s ≡ (ok p, t)
      → managed_instance sem as_ last current p t ≡ (ok p, t)
  unfolding managed_instance
  managed_instance_idem as_ last v current o p s t parsed none_newer h =
      elim (Bool-cases (o.version == "")) [
        | inl e ↦ let (x, y) = ok_eq o p s t (rw (e, managed_instance) at h) in rw (x, y) at h
        | inr e ↦
            parsed_idem as_ last v current o p s t parsed none_newer h (sem.new_version o.version)
              refl (rw (e, managed_instance) at h)
      ]
