-- ===== src/Prometheus/Rewrite/Same.antt =====
-- The rewriting of a receiver does not depend on the order of the keys of its maps.
use opentelemetry_operator.Prelude.{
  ℕ, suc, String, Bool, true, false, Option, none, some, ◌≡◌, refl, Bool-cases, inl, inr, arith,
  eq_iff, ◌==◌,
}
use opentelemetry_operator.Yaml.{
  Value, null, bool, num, str, seq, string_maps, obj, Items, nil, item, Fields, end, field, find,
  set,
}
use opentelemetry_operator.Yaml.Same.{
  SameValue, same_leaf, same_seq, same_obj, SameItems, same_nil, same_item, same_none, same_some,
  Same, Same-refl, map_in, list_in, text_in, none_in, null_in, Same-set, Same-remove, is_some-Same,
}
use opentelemetry_operator.Prometheus.Config.{
  Checked, valid, ◌>>=◌, each_item, with_configs, component_at, edit_scrape_configs,
  validate_prom_config, bind_valid, valid_eq, edited_configs, find-component_at,
}
use opentelemetry_operator.Prometheus.Rewrite.{
  is_discovery, without_discovery, http_sd_configs, discover, rewrite_scrape_config,
  add_http_sd_config_to_prom_config, target_allocator_section, with_endpoint, with_sections,
  add_ta_config_to_prom_config,
}
use opentelemetry_operator.Prometheus.Rewrite.Stable.{component_at-found, scrape_configs-found}
use opentelemetry_operator.Prometheus.Rewrite.Laws.{find-without_discovery}

-- The result that a step has, another has too, up to the order.
abbrev pub Follows : {A : Type 0} → (A → A → Type 0) → A → Checked A → Type 0
Follows {A} R a y = (b : A) × (y ≡ valid b) × R a b

discovery_gone :
    (m : Fields) (k : String) → is_discovery k ≡ true → find (without_discovery m) k ≡ none
unfolding find without_discovery
discovery_gone end k h = refl
discovery_gone (field i v m) k h = elim (Bool-cases (is_discovery i)) [
  | inl e ↦ rw e (discovery_gone m k h)
  | inr e ↦ elim (Bool-cases (i == k)) [
    | inl f ↦ let same : i ≡ k = ground (arith, f, eq_iff i k) in absurd (cc (rw same at e, h))
    | inr f ↦ rw (e, find, f) (discovery_gone m k h)
  ]
]

Same-without_discovery :
    (m n : Fields) → Same m n → Same (without_discovery m) (without_discovery n)
Same-without_discovery m n s k = elim (Bool-cases (is_discovery k)) [
  | inl e ↦ rw (discovery_gone m k e, discovery_gone n k e) same_none
  | inr e ↦ rw (find-without_discovery m k e, find-without_discovery n k e) (s k)
]

module _ (service : String) where
  discover-Same :
      (i : ℕ) (m n : Fields) (w : Value) (o : Option Value)
      → find m "job_name" ≡ o
      → Same m n
      → discover service i m ≡ valid w
      → Follows SameValue w (discover service i n)
  unfolding discover
  discover-Same i m n w none e s h = absurd (cc (rw (discover, e) at h))
  discover-Same i m n w (some (str job)) e s h =
      let v = http_sd_configs service job in
      let is : obj (set m "http_sd_configs" v) ≡ w = valid_eq _ _ (rw (discover, e) at h) in
      let f = text_in job (s "job_name") e in
      (
        obj (set n "http_sd_configs" v),
        rw (discover, f) refl,
        rw (← is) (same_obj (Same-set m n "http_sd_configs" v v s same_leaf)),
      )
  discover-Same i m n w (some null) e s h = absurd (cc (rw (discover, e) at h))
  discover-Same i m n w (some (bool b)) e s h = absurd (cc (rw (discover, e) at h))
  discover-Same i m n w (some (num b)) e s h = absurd (cc (rw (discover, e) at h))
  discover-Same i m n w (some (seq b)) e s h = absurd (cc (rw (discover, e) at h))
  discover-Same i m n w (some (string_maps b)) e s h = absurd (cc (rw (discover, e) at h))
  discover-Same i m n w (some (obj b)) e s h = absurd (cc (rw (discover, e) at h))

  rewrite_scrape_config-Same :
      (i : ℕ) (v v' w : Value)
      → SameValue v v'
      → rewrite_scrape_config service i v ≡ valid w
      → Follows SameValue w (rewrite_scrape_config service i v')
  unfolding rewrite_scrape_config
  rewrite_scrape_config-Same i (obj m) v' w s h =
      let (n, e, x) = map_in m (same_some s) refl in
      let is : v' ≡ obj n = cc e in
      rw is (
        discover-Same i (without_discovery m) (without_discovery n) w
          (find (without_discovery m) "job_name") refl (Same-without_discovery m n x) h)
  rewrite_scrape_config-Same i null v' w s h = absurd (cc h)
  rewrite_scrape_config-Same i (bool b) v' w s h = absurd (cc h)
  rewrite_scrape_config-Same i (num b) v' w s h = absurd (cc h)
  rewrite_scrape_config-Same i (str b) v' w s h = absurd (cc h)
  rewrite_scrape_config-Same i (seq b) v' w s h = absurd (cc h)
  rewrite_scrape_config-Same i (string_maps b) v' w s h = absurd (cc h)

  each_item-Same :
      (i : ℕ) (xs xs' ys : Items)
      → SameItems xs xs'
      → each_item (rewrite_scrape_config service) i xs ≡ valid ys
      → Follows SameItems ys (each_item (rewrite_scrape_config service) i xs')
  unfolding each_item
  each_item-Same i nil nil ys same_nil h = (nil, refl, rw (← valid_eq nil ys h) same_nil)
  each_item-Same i nil (item v' xs') ys s h = elim s [ ]
  each_item-Same i (item v xs) nil ys s h = elim s [ ]
  each_item-Same i (item v xs) (item v' xs') ys (same_item a b) h =
      let (w, e, h1) =
        bind_valid (rewrite_scrape_config service i v)
          (λ w. each_item (rewrite_scrape_config service) (suc i) xs >>= (λ ys. valid (item w ys)))
          ys h in
      let (zs, f, h2) =
        bind_valid (each_item (rewrite_scrape_config service) (suc i) xs) (λ ys. valid (item w ys))
          ys h1 in
      let (w', e', x) = rewrite_scrape_config-Same i v v' w a e in
      let (zs', f', y) = each_item-Same (suc i) xs xs' zs b f in
      (item w' zs', rw (e', f') refl, rw (← valid_eq (item w zs) ys h2) (same_item x y))

  pub add_http_sd_config_to_prom_config-Same :
      (m n new : Fields)
      → Same m n
      → add_http_sd_config_to_prom_config m service ≡ valid new
      → Follows Same new (add_http_sd_config_to_prom_config n service)
  unfolding add_http_sd_config_to_prom_config edit_scrape_configs
  add_http_sd_config_to_prom_config-Same m n new s h =
      let (config, xs, ys, e1, e2, done, is) =
        edited_configs (rewrite_scrape_config service) m new h in
      let (config', f1, s1) = map_in config (s "config") e1 in
      let (xs', f2, s2) = list_in xs (s1 "scrape_configs") e2 in
      let (ys', f3, s3) = each_item-Same 0 xs xs' ys s2 done in
      (
        with_configs n config' ys',
        rw
            (
              component_at-found n config' "config" "prometheusConfig" f1,
              scrape_configs-found config' xs' f2,
              f3,
            )
            refl,
        rw is (
            Same-set m n "config" _ _ s
              (same_obj (Same-set config config' "scrape_configs" _ _ s1 (same_seq s3)))),
      )

  with_endpoint-Same :
      (m n : Fields) → Same m n → Same (with_endpoint m service) (with_endpoint n service)
  unfolding with_endpoint
  with_endpoint-Same m n s =
      Same-set _ _ "collector_id" _ _
        (Same-set _ _ "interval" _ _ (Same-set m n "endpoint" _ _ s same_leaf) same_leaf) same_leaf

  section-Same :
      (m n a : Fields) (o : Option Value)
      → find m "target_allocator" ≡ o
      → Same m n
      → target_allocator_section m ≡ valid a
      → Follows Same a (target_allocator_section n)
  unfolding target_allocator_section
  section-Same m n a none e s h =
      let f = none_in (s "target_allocator") e in
      (
        end,
        rw (target_allocator_section, f) refl,
        rw (← valid_eq end a (rw (target_allocator_section, e) at h)) (Same-refl end),
      )
  section-Same m n a (some null) e s h =
      let f = null_in (s "target_allocator") e in
      (
        end,
        rw (target_allocator_section, f) refl,
        rw (← valid_eq end a (rw (target_allocator_section, e) at h)) (Same-refl end),
      )
  section-Same m n a (some (obj c)) e s h =
      let (d, f, x) = map_in c (s "target_allocator") e in
      (
        d,
        rw (target_allocator_section, f) refl,
        rw (← valid_eq c a (rw (target_allocator_section, e) at h)) x,
      )
  section-Same m n a (some (bool b)) e s h = absurd (cc (rw (target_allocator_section, e) at h))
  section-Same m n a (some (num b)) e s h = absurd (cc (rw (target_allocator_section, e) at h))
  section-Same m n a (some (str b)) e s h = absurd (cc (rw (target_allocator_section, e) at h))
  section-Same m n a (some (seq b)) e s h = absurd (cc (rw (target_allocator_section, e) at h))
  section-Same m n a (some (string_maps b)) e s h =
      absurd (cc (rw (target_allocator_section, e) at h))

  pub add_ta_config_to_prom_config-Same :
      (m n new : Fields)
      → Same m n
      → add_ta_config_to_prom_config m service ≡ valid new
      → Follows Same new (add_ta_config_to_prom_config n service)
  unfolding add_ta_config_to_prom_config
  add_ta_config_to_prom_config-Same m n new s h =
      let (config, a, h1) =
        bind_valid (component_at m "config" "prometheusConfig")
          (λ config.
            target_allocator_section m
            >>= (λ section. valid (with_sections m config section service)))
          new h in
      let (section, b, h2) =
        bind_valid (target_allocator_section m)
          (λ section. valid (with_sections m config section service)) new h1 in
      let (config', f1, s1) =
        map_in config (s "config") (find-component_at m config "config" "prometheusConfig" a) in
      let (section', f2, s2) = section-Same m n section (find m "target_allocator") refl s b in
      (
        with_sections n config' section' service,
        rw (component_at-found n config' "config" "prometheusConfig" f1, f2) refl,
        rw (← valid_eq (with_sections m config section service) new h2) (
            Same-set _ _ "config" _ _
              (Same-set m n "target_allocator" _ _ s
                (same_obj (with_endpoint-Same section section' s2)))
              (same_obj (Same-remove config config' "scrape_configs" s1))),
      )

-- Whether a section is there.
pub validate_prom_config-Same :
    (m n : Fields) (rewrite : Bool)
    → Same m n
    → validate_prom_config m true rewrite ≡ validate_prom_config n true rewrite
unfolding validate_prom_config
validate_prom_config-Same m n true s = refl
validate_prom_config-Same m n false s =
    rw
      (
        validate_prom_config,
        is_some-Same (s "config"),
        is_some-Same (s "target_allocator"),
        validate_prom_config,
      )
      refl
