-- ===== src/Prometheus/Rewrite/Laws.antt =====
-- The scrape configurations that the collectors get, and the section of the target allocator.
use opentelemetry_operator.Prelude.{
  ℕ, suc, String, true, false, Option, none, some, ◌≡◌, refl, sym, ◌∙◌, Bool-cases, inl, inr, ◌==◌,
  if◌then◌else◌, arith, eq_iff, has_suffix, contains,
}
use opentelemetry_operator.Yaml.{
  Value, null, bool, num, str, seq, string_maps, obj, Items, nil, item, Fields, end, field, find,
  set,
}
use opentelemetry_operator.Prometheus.Config.{
  valid, ◌>>=◌, each_item, with_configs, bind_valid, valid_eq, edited_configs,
}
use opentelemetry_operator.Prometheus.Rewrite.{
  is_discovery, without_discovery, http_sd_configs, discover, rewrite_scrape_config,
  add_http_sd_config_to_prom_config,
}

-- The service discovery of a scrape configuration.
unfoldable pub only_discovery : Fields → Fields
only_discovery end = end
only_discovery (field k v m) =
    let rest = only_discovery m in if is_discovery k then field k v rest else rest

own : is_discovery "http_sd_configs" ≡ true
unfolding is_discovery has_suffix contains
own = refl

apart : (k : String) → is_discovery k ≡ false → (k == "http_sd_configs") ≡ false
apart k h = elim (Bool-cases (k == "http_sd_configs")) [
  | inr e ↦ e
  | inl e ↦
      let same : k ≡ "http_sd_configs" = ground (arith, e, eq_iff k "http_sd_configs") in
      absurd (cc (own, rw same at h))
]

only_discovery-set :
    (m : Fields) (v : Value)
    → only_discovery (set (without_discovery m) "http_sd_configs" v) ≡ field "http_sd_configs" v end
unfolding only_discovery without_discovery set
only_discovery-set end v = rw own refl
only_discovery-set (field k w m) v = elim (Bool-cases (is_discovery k)) [
  | inl e ↦ rw (without_discovery, e) (only_discovery-set m v)
  | inr e ↦ rw (without_discovery, e, set, apart k e, only_discovery, e) (only_discovery-set m v)
]

pub without_discovery-set :
    (m : Fields) (v : Value)
    → without_discovery (set (without_discovery m) "http_sd_configs" v) ≡ without_discovery m
unfolding without_discovery set
without_discovery-set end v = rw own refl
without_discovery-set (field k w m) v = elim (Bool-cases (is_discovery k)) [
  | inl e ↦ rw (without_discovery, e) (without_discovery-set m v)
  | inr e ↦
      rw (without_discovery, e, set, apart k e, without_discovery, e, without_discovery-set m v)
        refl
]

pub find-without_discovery :
    (m : Fields) (k : String) → is_discovery k ≡ false → find (without_discovery m) k ≡ find m k
unfolding find without_discovery
find-without_discovery end k h = refl
find-without_discovery (field j v m) k h = elim (Bool-cases (is_discovery j)) [
  | inr e ↦ rw (without_discovery, e, find, find-without_discovery m k h) refl
  | inl e ↦ elim (Bool-cases (j == k)) [
    | inr f ↦ rw (without_discovery, e, find, f) (find-without_discovery m k h)
    | inl f ↦ let same : j ≡ k = ground (arith, f, eq_iff j k) in absurd (cc (h, rw same at e))
  ]
]

named : is_discovery "job_name" ≡ false
unfolding is_discovery has_suffix contains
named = refl

module _ (service : String) where
  -- One list of discovery, the target allocator's for the job, and all else as it was.
  abbrev pub Discovers : Fields → Fields → Type 0
  Discovers m n =
      (job : String) × (find m "job_name" ≡ some (str job))
      × (only_discovery n ≡ field "http_sd_configs" (http_sd_configs service job) end)
      × (without_discovery n ≡ without_discovery m)

  pub data Rewritten : Items → Items → Type 0 where
    no_configs : Rewritten nil nil
    one_config :
        {m n : Fields} {xs ys : Items}
        → Discovers m n
        → Rewritten xs ys
        → Rewritten (item (obj m) xs) (item (obj n) ys)

  discovered :
      (i : ℕ) (m : Fields) (w : Value) (v : Option Value)
      → find (without_discovery m) "job_name" ≡ v
      → discover service i (without_discovery m) ≡ valid w
      → (n : Fields) × (w ≡ obj n) × Discovers m n
  unfolding discover
  discovered i m w none e h = absurd (cc (rw (discover, e) at h))
  discovered i m w (some (str job)) e h =
      let n = set (without_discovery m) "http_sd_configs" (http_sd_configs service job) in
      let same : obj n ≡ w = valid_eq (obj n) w (rw (discover, e) at h) in
      let found = sym (find-without_discovery m "job_name" named) ∙ e in
      let only = only_discovery-set m (http_sd_configs service job) in
      let others = without_discovery-set m (http_sd_configs service job) in
      (n, sym same, (job, found, only, others))
  discovered i m w (some null) e h = absurd (cc (rw (discover, e) at h))
  discovered i m w (some (bool b)) e h = absurd (cc (rw (discover, e) at h))
  discovered i m w (some (num n)) e h = absurd (cc (rw (discover, e) at h))
  discovered i m w (some (seq xs)) e h = absurd (cc (rw (discover, e) at h))
  discovered i m w (some (string_maps xs)) e h = absurd (cc (rw (discover, e) at h))
  discovered i m w (some (obj n)) e h = absurd (cc (rw (discover, e) at h))

  each_item-Rewritten :
      (i : ℕ) (xs ys : Items)
      → each_item (rewrite_scrape_config service) i xs ≡ valid ys
      → Rewritten xs ys
  unfolding each_item rewrite_scrape_config
  each_item-Rewritten i nil ys h = rw (← valid_eq nil ys h) no_configs
  each_item-Rewritten i (item (obj m) xs) ys h =
      let (w, a, h1) =
        bind_valid (discover service i (without_discovery m))
          (λ w. each_item (rewrite_scrape_config service) (suc i) xs >>= (λ ys. valid (item w ys)))
          ys h in
      let (zs, b, h2) =
        bind_valid (each_item (rewrite_scrape_config service) (suc i) xs) (λ ys. valid (item w ys))
          ys h1 in
      let (n, same, d) = discovered i m w (find (without_discovery m) "job_name") refl a in
      let all : item (obj n) zs ≡ ys = valid_eq (item (obj n) zs) ys (rw same at h2) in
      rw (← all) (one_config d (each_item-Rewritten (suc i) xs zs b))
  each_item-Rewritten i (item null xs) ys h = absurd (cc h)
  each_item-Rewritten i (item (bool b) xs) ys h = absurd (cc h)
  each_item-Rewritten i (item (num n) xs) ys h = absurd (cc h)
  each_item-Rewritten i (item (str s) xs) ys h = absurd (cc h)
  each_item-Rewritten i (item (seq x) xs) ys h = absurd (cc h)
  each_item-Rewritten i (item (string_maps x) xs) ys h = absurd (cc h)

  -- Where AddHTTPSDConfigToPromConfig returns no error, each scrape configuration has one list of
  -- discovery, the target allocator's for its job, and all else of the receiver is as it was.
  pub add_http_sd_config_to_prom_config-Rewritten :
      (prometheus new : Fields)
      → add_http_sd_config_to_prom_config prometheus service ≡ valid new
      → (config : Fields) × (xs : Items) × (ys : Items) × (find prometheus "config"
          ≡ some (obj config))
        × (find config "scrape_configs" ≡ some (seq xs))
        × Rewritten xs ys
        × (new ≡ with_configs prometheus config ys)
  unfolding add_http_sd_config_to_prom_config
  add_http_sd_config_to_prom_config-Rewritten prometheus new h =
      let (c, xs, ys, e, f, g, same) =
        edited_configs (rewrite_scrape_config service) prometheus new h in
      (c, xs, ys, e, f, each_item-Rewritten 0 xs ys g, same)
