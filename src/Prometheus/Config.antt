-- ===== src/Prometheus/Config.antt =====
-- config_to_prom_config.go: the errors, the way to the Prometheus receiver, and ValidatePromConfig.
use opentelemetry_operator.Prelude.{
  ℕ, suc, String, Bool, true, false, Option, none, some, is_some, ◌||◌, ◌≡◌, refl,
}
use opentelemetry_operator.Yaml.{
  Value, null, bool, num, str, seq, string_maps, obj, Items, nil, item, Fields, find, set, as_map,
}
use opentelemetry_operator.Upgrade.Types.{Yaml}

pub data Problem : Type 0 where
  invalid_yaml : Problem
  cannot_marshal : Problem
  no_component : String → Problem
  not_a_map : String → Problem
  not_a_map_at : String → ℕ → Problem
  not_a_list : String → Problem
  not_a_list_at : String → ℕ → Problem
  not_a_string_at : String → ℕ → Problem
  neither_present : Problem

pub data Checked {ℓ} (A : Type ℓ) : Type ℓ where
  valid : A → Checked A
  invalid : Problem → Checked A

infixl 10 ◌>>=◌
abbrev pub ◌>>=◌ {ℓ κ} : {A : Type ℓ} {B : Type κ} → Checked A → (A → Checked B) → Checked B
valid a >>= f = f a
invalid p >>= f = invalid p

-- adapters.ConfigFromString
unfoldable pub config_from_string : Yaml → String → Checked Fields
config_from_string y s = elim (y.parse s) [ none ↦ invalid invalid_yaml | some m ↦ valid m ]

-- v.([]interface{})
abbrev pub as_list : Value → Option Items
as_list (seq xs) = some xs
as_list _ = none

-- A map at a key, with the component's name for the errors.
unfoldable pub component_at : Fields → String → String → Checked Fields
component_at m k component = elim (find m k) [
  | none ↦ invalid (no_component component)
  | some v ↦ elim (as_map (some v)) [ none ↦ invalid (not_a_map component) | some n ↦ valid n ]
]

unfoldable pub config_to_prom_config : Yaml → String → Checked Fields
config_to_prom_config y s = do
  config ← config_from_string y s
  receivers ← component_at config "receivers" "receivers"
  component_at receivers "prometheus" "prometheus"

-- A loop over a list that ends with the first error; the number is the index.
unfoldable pub each_item : (ℕ → Value → Checked Value) → ℕ → Items → Checked Items
each_item f i nil = valid nil
each_item f i (item v xs) = do w ← f i v; ys ← each_item f (suc i) xs; valid (item w ys)

abbrev pub with_configs : Fields → Fields → Items → Fields
with_configs prometheus config ys =
    set prometheus "config" (obj (set config "scrape_configs" (seq ys)))

-- The list of the scrape configurations.
unfoldable pub scrape_configs : Fields → Checked Items
scrape_configs config = elim (find config "scrape_configs") [
  | none ↦ invalid (no_component "scrape_configs")
  | some v ↦ elim (as_list v) [ none ↦ invalid (not_a_list "scrape_configs") | some xs ↦ valid xs ]
]

-- The frame of the functions that change each scrape configuration.
unfoldable pub edit_scrape_configs : (ℕ → Value → Checked Value) → Fields → Checked Fields
edit_scrape_configs f prometheus = do
  config ← component_at prometheus "config" "prometheusConfig"
  xs ← scrape_configs config
  ys ← each_item f 0 xs
  valid (with_configs prometheus config ys)

-- `none` is no error.
unfoldable pub validate_prom_config : Fields → Bool → Bool → Option Problem
validate_prom_config config true true = none
validate_prom_config config true false =
    elim (is_some (find config "config") || is_some (find config "target_allocator")) [
      | true ↦ none
      | false ↦ some neither_present
    ]
validate_prom_config config false rewrite = elim (is_some (find config "config")) [
  | true ↦ none
  | false ↦ some (no_component "prometheusConfig")
]

pub bind_valid {ℓ κ} :
    {A : Type ℓ} {B : Type κ} (x : Checked A) (f : A → Checked B) (b : B)
    → (x >>= f) ≡ valid b
    → (a : A) × (x ≡ valid a) × (f a ≡ valid b)
bind_valid (valid a) f b h = (a, refl, h)
bind_valid (invalid p) f b h = absurd (cc h)

found :
    (m n : Fields) (k component : String) (v : Option Value)
    → find m k ≡ v
    → component_at m k component ≡ valid n
    → find m k ≡ some (obj n)
unfolding component_at
found m n k component none e h = absurd (cc (rw (component_at, e) at h))
found m n k component (some (obj a)) e h =
    let same : valid a ≡ valid n = rw (component_at, e) at h in cc (e, same)
found m n k component (some null) e h = absurd (cc (rw (component_at, e) at h))
found m n k component (some (bool b)) e h = absurd (cc (rw (component_at, e) at h))
found m n k component (some (num i)) e h = absurd (cc (rw (component_at, e) at h))
found m n k component (some (str s)) e h = absurd (cc (rw (component_at, e) at h))
found m n k component (some (seq x)) e h = absurd (cc (rw (component_at, e) at h))
found m n k component (some (string_maps x)) e h = absurd (cc (rw (component_at, e) at h))

pub find-component_at :
    (m n : Fields) (k component : String)
    → component_at m k component ≡ valid n
    → find m k ≡ some (obj n)
find-component_at m n k component h = found m n k component (find m k) refl h

listed :
    (m : Fields) (xs : Items) (v : Option Value)
    → find m "scrape_configs" ≡ v
    → scrape_configs m ≡ valid xs
    → find m "scrape_configs" ≡ some (seq xs)
unfolding scrape_configs
listed m xs none e h = absurd (cc (rw (scrape_configs, e) at h))
listed m xs (some (seq a)) e h =
    let same : valid a ≡ valid xs = rw (scrape_configs, e) at h in cc (e, same)
listed m xs (some null) e h = absurd (cc (rw (scrape_configs, e) at h))
listed m xs (some (bool b)) e h = absurd (cc (rw (scrape_configs, e) at h))
listed m xs (some (num i)) e h = absurd (cc (rw (scrape_configs, e) at h))
listed m xs (some (str s)) e h = absurd (cc (rw (scrape_configs, e) at h))
listed m xs (some (obj x)) e h = absurd (cc (rw (scrape_configs, e) at h))
listed m xs (some (string_maps x)) e h = absurd (cc (rw (scrape_configs, e) at h))

-- What a change of the scrape configurations that succeeds has read and written.
pub edited_configs :
    (f : ℕ → Value → Checked Value) (prometheus new : Fields)
    → edit_scrape_configs f prometheus ≡ valid new
    → (config : Fields) × (xs : Items) × (ys : Items) × (find prometheus "config"
        ≡ some (obj config))
      × (find config "scrape_configs" ≡ some (seq xs))
      × (each_item f 0 xs ≡ valid ys)
      × (new ≡ with_configs prometheus config ys)
unfolding edit_scrape_configs
edited_configs f prometheus new h =
    let (config, a, h1) =
      bind_valid (component_at prometheus "config" "prometheusConfig")
        (λ config.
          scrape_configs config
          >>= (λ xs. each_item f 0 xs >>= (λ ys. valid (with_configs prometheus config ys))))
        new h in
    let (xs, b, h2) =
      bind_valid (scrape_configs config)
        (λ xs. each_item f 0 xs >>= (λ ys. valid (with_configs prometheus config ys))) new h1 in
    let (ys, c, h3) =
      bind_valid (each_item f 0 xs) (λ ys. valid (with_configs prometheus config ys)) new h2 in
    (
      config,
      xs,
      ys,
      find-component_at prometheus config "config" "prometheusConfig" a,
      listed config xs (find config "scrape_configs") refl b,
      c,
      cc h3,
    )

pub valid_eq : {A : Type 0} (x y : A) → valid x ≡ valid y → x ≡ y
valid_eq x y h = cc h
