-- ===== src/Prometheus/Replace/Stable.antt =====
-- A run of ReplaceConfig that returns a configuration, and the run on its own result.
use opentelemetry_operator.Prelude.{
  String, true, false, Option, none, some, ◌≡◌, ◌==◌, refl, sym, subst, ◌∙◌, Bool-cases, inl, inr,
  ap,
}
use opentelemetry_operator.Yaml.{obj, Fields, end, find, set, as_map}
use opentelemetry_operator.Yaml.Laws.{find-set, find-set_other, set_same}
use opentelemetry_operator.Yaml.Same.{Same, map_in}
use opentelemetry_operator.Upgrade.Types.{Yaml}
use opentelemetry_operator.Upgrade.Middle.{map_at}
use opentelemetry_operator.Prometheus.Config.{
  valid, Problem, ◌>>=◌, config_from_string, config_to_prom_config, validate_prom_config,
  bind_valid, valid_eq,
}
use opentelemetry_operator.Prometheus.Replace.{
  Replacement, checked, rewritten, with_prometheus, printed, updated_config, replace_enabled,
  replace_config,
}
use opentelemetry_operator.Prometheus.Rewrite.Same.{validate_prom_config-Same}
use opentelemetry_operator.Prometheus.Replace.Same.{with_prometheus-Same, rewritten-Same}
use opentelemetry_operator.Prometheus.Replace.Laws.{
  rewritten_idem, validate_prom_config-rewritten, config_to_prom_config-find,
  config_to_prom_config-found, parsed, from_parsed,
}

map_at-found : (m n : Fields) (k : String) → find m k ≡ some (obj n) → map_at m k ≡ n
map_at-found m n k e = ap (λ o. elim (as_map o) [ none ↦ end | some n ↦ n ]) e

-- The other sections, and the other receivers.
pub find-with_prometheus :
    (config prometheus : Fields) (j k : String)
    → ("receivers" == j) ≡ false
    → ("prometheus" == k) ≡ false
    → (find (with_prometheus config prometheus) j ≡ find config j)
      × (find (map_at (with_prometheus config prometheus) "receivers") k
          ≡ find (map_at config "receivers") k)
find-with_prometheus config prometheus j k other1 other2 =
    let old = map_at config "receivers" in
    let receivers = set old "prometheus" (obj prometheus) in
    let at_receivers = find-set config "receivers" (obj receivers) in
    (
      find-set_other config "receivers" j (obj receivers) other1,
      rw (map_at-found (with_prometheus config prometheus) receivers "receivers" at_receivers)
          (find-set_other old "prometheus" k (obj prometheus) other2),
    )

checked-valid : (o : Option Problem) (m n : Fields) → checked o m ≡ valid n → (o ≡ none) × (m ≡ n)
checked-valid none m n h = (refl, valid_eq m n h)
checked-valid (some p) m n h = absurd (cc h)

module _ (y : Yaml) where
  -- The maps of a run with a result.
  pub record IsReplaced (r : Replacement) (out : String) : Type 0 where
    pub config : Fields
    pub receivers : Fields
    pub prometheus : Fields
    pub updated : Fields
    pub is_parsed : y.parse r.config ≡ some config
    pub has_receivers : find config "receivers" ≡ some (obj receivers)
    pub has_prometheus : find receivers "prometheus" ≡ some (obj prometheus)
    pub is_rewritten : rewritten r prometheus ≡ valid updated
    pub is_updated : updated_config y r ≡ valid (with_prometheus config updated)
    pub is_marshalled : y.marshal (with_prometheus config updated) ≡ some out

  printed_from :
      (m : Fields) (o : Option String) (out : String)
      → y.marshal m ≡ o
      → printed y m ≡ valid out
      → o ≡ some out
  printed_from m none out e h = absurd (cc (rw (printed, e) at h))
  printed_from m (some s) out e h = ap some (valid_eq s out (rw (printed, e) at h))

  pub replace_enabled-IsReplaced :
      (r : Replacement) (out : String) → replace_enabled y r ≡ valid out → IsReplaced r out
  replace_enabled-IsReplaced r out h =
      let (new, h', done) = bind_valid (updated_config y r) (printed y) out h in
      let (config, a, h1) =
        bind_valid (config_from_string y r.config)
          (λ config. config_to_prom_config y r.config >>= (λ m.
            checked (validate_prom_config m r.target_allocator_enabled r.rewrite_enabled) m
            >>= (λ m. rewritten r m >>= (λ u. valid (with_prometheus config u)))))
          new h' in
      let (m, b, h2) =
        bind_valid (config_to_prom_config y r.config)
          (λ m.
            checked (validate_prom_config m r.target_allocator_enabled r.rewrite_enabled) m
            >>= (λ m. rewritten r m >>= (λ u. valid (with_prometheus config u))))
          new h1 in
      let (m1, c, h3) =
        bind_valid (checked (validate_prom_config m r.target_allocator_enabled r.rewrite_enabled) m)
          (λ m. rewritten r m >>= (λ u. valid (with_prometheus config u))) new h2 in
      let (u, d, h4) = bind_valid (rewritten r m1) (λ u. valid (with_prometheus config u)) new h3 in
      let is : with_prometheus config u ≡ new = valid_eq (with_prometheus config u) new h4 in
      let (config1, receivers, e1, e2, e3) = config_to_prom_config-find y r.config m b in
      let same : m ≡ m1 = (checked-valid _ m m1 c).1 in
      let same1 : config ≡ config1 = cc (parsed y r.config config (y.parse r.config) refl a, e1) in
      record {
        config = config1;
        receivers = receivers;
        prometheus = m;
        updated = u;
        is_parsed = e1;
        has_receivers = e2;
        has_prometheus = e3;
        is_rewritten = rw same d;
        is_updated = rw (← same1, is) h';
        is_marshalled = rw (← same1, is) (printed_from new (y.marshal new) out refl done);
      }

  -- What is printed reads back as the configuration of this run, the order of keys apart.
  abbrev pub ReadsBack : Replacement → String → Type 0
  ReadsBack r out =
      (m : Fields) → updated_config y r ≡ valid m → (n : Fields) × (y.parse out ≡ some n) × Same m n

  -- The configuration that is returned, once it is read back, has the receiver that was rewritten.
  pub found_again :
      (r : Replacement) (out : String) (p : IsReplaced r out) (n : Fields)
      → y.parse out ≡ some n
      → Same (with_prometheus p.config p.updated) n
      → (u : Fields) × (config_to_prom_config y out ≡ valid u)
        × Same p.updated u
        × Same (map_at (with_prometheus p.config p.updated) "receivers") (map_at n "receivers")
  found_again r out p n e s =
      let receivers = map_at p.config "receivers" in
      let new = with_prometheus p.config p.updated in
      let receivers1 = set receivers "prometheus" (obj p.updated) in
      let at_receivers = find-set p.config "receivers" (obj receivers1) in
      let (receivers2, f1, s1) = map_in receivers1 (s "receivers") at_receivers in
      let (u, f2, s2) =
        map_in p.updated (s1 "prometheus") (find-set receivers "prometheus" (obj p.updated)) in
      (
        u,
        config_to_prom_config-found y out n receivers2 u e f1 f2,
        s2,
        rw
            (
              map_at-found new receivers1 "receivers" at_receivers,
              map_at-found n receivers2 "receivers" f1,
            )
            s1,
      )

  with_prometheus_idem :
      (config prometheus : Fields)
      → with_prometheus (with_prometheus config prometheus) prometheus
        ≡ with_prometheus config prometheus
  with_prometheus_idem config prometheus =
      let receivers = set (map_at config "receivers") "prometheus" (obj prometheus) in
      let at_receivers = find-set config "receivers" (obj receivers) in
      let at_prometheus = find-set (map_at config "receivers") "prometheus" (obj prometheus) in
      rw
        (
          map_at-found (with_prometheus config prometheus) receivers "receivers" at_receivers,
          set_same receivers "prometheus" (obj prometheus) at_prometheus,
          set_same (with_prometheus config prometheus) "receivers" (obj receivers) at_receivers,
        )
        refl

  printed_again : (m : Fields) (out : String) → y.marshal m ≡ some out → printed y m ≡ valid out
  printed_again m out e = rw (printed, e) refl

  again :
      (r : Replacement) (out : String)
      → r.target_allocator_enabled ≡ true
      → IsReplaced r out
      → ReadsBack r out
      → ((m n : Fields) → Same m n → y.marshal m ≡ y.marshal n)
      → replace_enabled y (record r { config = out }) ≡ valid out
  again r out enabled p reads_back sorts =
      let new = with_prometheus p.config p.updated in
      let (n, is_parsed, s) = reads_back new p.is_updated in
      let (u, found, s1, s2) = found_again r out p n is_parsed s in
      let (v, is_rewritten, s3) =
        rewritten-Same r p.updated u p.updated s1
          (rewritten_idem r p.prometheus p.updated p.is_rewritten) in
      let no_error =
        sym (validate_prom_config-Same p.updated u r.rewrite_enabled s1)
        ∙ validate_prom_config-rewritten r p.prometheus p.updated p.is_rewritten in
      let same : Same new (with_prometheus n v) =
        subst (λ m. Same m (with_prometheus n v)) (with_prometheus_idem p.config p.updated)
          (with_prometheus-Same new n p.updated v s s2 s3) in
      rw (from_parsed y out n is_parsed, found, enabled, no_error, is_rewritten)
        (printed_again (with_prometheus n v) out
          (sym (sorts new (with_prometheus n v) same) ∙ p.is_marshalled))

  -- Where ReplaceConfig returns a configuration without an error, what is printed reads back as the
  -- same maps, and maps that are the same but for the order of their keys are printed alike,
  -- ReplaceConfig returns that configuration unchanged the next time.
  pub replace_config_idem :
      (r : Replacement) (out : String)
      → ReadsBack r out
      → ((m n : Fields) → Same m n → y.marshal m ≡ y.marshal n)
      → replace_config y r ≡ valid out
      → replace_config y (record r { config = out }) ≡ valid out
  unfolding replace_config
  replace_config_idem r out reads_back sorts h = elim (Bool-cases r.target_allocator_enabled) [
    | inr e ↦ rw (replace_config, e) refl
    | inl e ↦
        let p = replace_enabled-IsReplaced r out (rw (replace_config, e) at h) in
        rw (replace_config, e) (again r out e p reads_back sorts)
  ]
