-- ===== src/Allocator/PreHook/Laws.antt =====
-- What the filter keeps, and what it is configured with.
use opentelemetry_operator.Prelude.{
  String, List, [], ◌∷◌, true, Option, none, some, ◌≡◌, refl, sym, ◌∙◌, arith, ◌==◌, eq_iff, elem,
  for_each, length, nat_eq, if◌then◌else◌, Bool-cases, inl, inr,
}
use opentelemetry_operator.GoMap.{Map, Range, get}
use opentelemetry_operator.GoMap.Laws.{get-put, get-delete, get-copy}
use opentelemetry_operator.Allocator.Target.{Item}
use opentelemetry_operator.Allocator.State.Targets.{IsHashed}
use opentelemetry_operator.Allocator.PreHook.{
  Config, RelabelConfigTargetFilter, Process, keep_target, keeps, filter_target, apply,
  replace_relabel_config, set_key, set_config, get_config,
}

no_entry : (m : Map (List Config)) (k : String) → nat_eq (length m) 0 ≡ true → get m k ≡ none
unfolding get
no_entry [] k e = refl
no_entry (x ∷ m) k e = absurd (ground arith)

module _ (process : Process) (r : Range) (tf : RelabelConfigTargetFilter) where
  -- A target that its job's configurations keep.
  abbrev pub kept : Option Item → Option Item
  kept none = none
  kept (some item) = if keeps process r tf item then some item else none

  kept_idem : (o : Option Item) → kept (kept o) ≡ kept o
  kept_idem none = refl
  kept_idem (some item) = ground arith

  was_kept : (o : Option Item) (it : Item) → kept o ≡ some it → o ≡ some it
  was_kept none it e = absurd (cc)
  was_kept (some item) it e = ground (arith, e)

  seen :
      (m : Map Item) (j : String)
      → (if elem j (r.visit Item m) then kept (get m j) else get m j) ≡ kept (get m j)
  seen m j = ground (arith, r.elem-visit Item m j)

  get-filter_target :
      (m : Map Item) (k j : String)
      → get (filter_target process r tf m k) j ≡ (if k == j then kept (get m j) else get m j)
  unfolding filter_target
  get-filter_target m k j = grind (arith, eq_iff k j, get-delete)

  get-filter_each :
      (ks : List String) (m : Map Item) (j : String)
      → get (for_each (filter_target process r tf) m ks) j
        ≡ (if elem j ks then kept (get m j) else get m j)
  get-filter_each [] m j = refl
  get-filter_each (k ∷ ks) m j = ground (
    arith,
    get-filter_each ks (filter_target process r tf m k) j,
    get-filter_target m k j,
    kept_idem (get m j),
  )

  keeps_all :
      (item : Item) → nat_eq (length tf.relabel_cfg) 0 ≡ true → keeps process r tf item ≡ true
  unfolding keeps keep_target
  keeps_all item e = rw (no_entry tf.relabel_cfg item.job_name e) refl

  kept_all : (o : Option Item) → nat_eq (length tf.relabel_cfg) 0 ≡ true → o ≡ kept o
  kept_all none e = refl
  kept_all (some item) e = rw (keeps_all item e) refl

  -- Apply keeps a target exactly if each relabel configuration of its job keeps it, in their order;
  -- without configurations it keeps all.
  pub get-apply : (m : Map Item) (j : String) → get (apply process r tf m) j ≡ kept (get m j)
  unfolding apply
  get-apply m j = elim (Bool-cases (nat_eq (length tf.relabel_cfg) 0)) [
    | inl e ↦ rw e (kept_all (get m j) e)
    | inr e ↦ rw e (get-filter_each (r.visit Item m) m j ∙ seen m j)
  ]

  -- Targets keyed by their hash stay so, as the allocators need them.
  pub apply-IsHashed : (m : Map Item) → IsHashed m → IsHashed (apply process r tf m)
  apply-IsHashed m hashed k it e = hashed k it (was_kept (get m k) it (sym (get-apply m k) ∙ e))

module _ (r : Range) (tf : RelabelConfigTargetFilter) (cfgs : Map (List Config)) where
  abbrev pub replaced : Option (List Config) → Option (List Config)
  replaced none = none
  replaced (some v) = some (replace_relabel_config v)

  abbrev or_old : Option (List Config) → Option (List Config) → Option (List Config)
  or_old none o = o
  or_old (some v) o = some v

  get-set_key :
      (m : Map (List Config)) (k j : String)
      → get (set_key cfgs m k) j
        ≡ (if k == j then or_old (replaced (get cfgs j)) (get m j) else get m j)
  unfolding set_key
  get-set_key m k j = grind (arith, eq_iff k j, get-put)

  get-set_each :
      (ks : List String) (m : Map (List Config)) (j : String)
      → get (for_each (set_key cfgs) m ks) j
        ≡ (if elem j ks then or_old (replaced (get cfgs j)) (get m j) else get m j)
  get-set_each [] m j = refl
  get-set_each (k ∷ ks) m j =
      ground (arith, get-set_each ks (set_key cfgs m k) j, get-set_key m k j)

  get-set_config : (j : String) → get (set_config r tf cfgs).relabel_cfg j ≡ replaced (get cfgs j)
  unfolding set_config get
  get-set_config j =
      rw (get-set_each (r.visit (List Config) cfgs) [] j)
        (ground (arith, r.elem-visit (List Config) cfgs j))

  -- What GetConfig returns after SetConfig: each job's configurations, where 0 stands for $(SHARD).
  pub get_config-set_config :
      (j : String) → get (get_config r (set_config r tf cfgs)) j ≡ replaced (get cfgs j)
  unfolding get_config
  get_config-set_config j = get-copy r (set_config r tf cfgs).relabel_cfg j ∙ get-set_config j
