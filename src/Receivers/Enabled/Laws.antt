-- ===== src/Receivers/Enabled/Laws.antt =====
-- Which receivers GetEnabledReceivers reports.
use opentelemetry_operator.Prelude.{
  String, Bool, true, false, Option, none, some, ◌≡◌, refl, sym, ◌∙◌, ◌==◌, ◌||◌, Bool-cases, inl,
  inr, ◌⊎◌, arith,
}
use opentelemetry_operator.GoMap.{Map}
use opentelemetry_operator.Yaml.{
  Value, null, bool, num, str, seq, string_maps, obj, Items, nil, item, Fields, end, field, find,
  as_map,
}
use opentelemetry_operator.Receivers.Enabled.{
  Progress, flags, nil_map, gives_up, panics, available, enable, only_enabled, enabled_list,
  use_list, use_receivers, use_pipeline, go_on, use_pipelines, get_enabled_receivers, is_enabled,
}
use opentelemetry_operator.Receivers.Enabled.Flags.{
  lists, listed_in, in_pipeline, listed, has_true, has_true-enable, has_true-only_enabled,
  is_enabled-only_enabled, has_true-available, is_enabled-available,
}

module _ (r : String) where
  list_nil : (xs : Items) (m : Map Bool) → use_list xs nil_map ≡ flags m → true ≡ false
  unfolding use_list
  list_nil nil m h = cc h
  list_nil (item (str s) xs) m h = cc h
  list_nil (item null xs) m h = cc h
  list_nil (item (bool b) xs) m h = cc h
  list_nil (item (num i) xs) m h = cc h
  list_nil (item (seq ys) xs) m h = cc h
  list_nil (item (string_maps ys) xs) m h = cc h
  list_nil (item (obj f) xs) m h = cc h

  receivers_nil :
      (v : Option Value) (m : Map Bool) → use_receivers v nil_map ≡ flags m → true ≡ false
  receivers_nil none m h = cc h
  receivers_nil (some (seq xs)) m h = list_nil xs m h
  receivers_nil (some null) m h = cc h
  receivers_nil (some (bool b)) m h = cc h
  receivers_nil (some (num i)) m h = cc h
  receivers_nil (some (str s)) m h = cc h
  receivers_nil (some (string_maps ys)) m h = cc h
  receivers_nil (some (obj f)) m h = cc h

  pipeline_nil : (v : Value) (m : Map Bool) → use_pipeline v nil_map ≡ flags m → true ≡ false
  pipeline_nil (obj d) m h = receivers_nil (find d "receivers") m h
  pipeline_nil null m h = cc h
  pipeline_nil (bool b) m h = cc h
  pipeline_nil (num i) m h = cc h
  pipeline_nil (str s) m h = cc h
  pipeline_nil (seq ys) m h = cc h
  pipeline_nil (string_maps ys) m h = cc h

  pub continued :
      (rest : Progress → Progress) (x : Progress) (fs : Map Bool)
      → go_on rest x ≡ flags fs
      → ((x ≡ nil_map) × (rest nil_map ≡ flags fs))
        ⊎ ((m : Map Bool) × (x ≡ flags m) × (rest (flags m) ≡ flags fs))
  continued rest (flags m) fs h = inr (m, refl, h)
  continued rest nil_map fs h = inl (refl, h)
  continued rest gives_up fs h = cc h
  continued rest panics fs h = cc h

  -- After an empty list, the function reports nothing or panics.
  pub from_nil : (ps : Fields) (fs : Map Bool) → use_pipelines ps nil_map ≡ flags fs → true ≡ false
  unfolding use_pipelines
  from_nil end fs h = cc h
  from_nil (field k v m) fs h = elim (Bool-cases (k == "")) [
    | inl e ↦ from_nil m fs (rw (use_pipelines, e) at h)
    | inr e ↦
        elim (continued (use_pipelines m) (use_pipeline v nil_map) fs
          (rw (use_pipelines, e) at h)) [
            | inl x ↦ from_nil m fs x.1
            | inr y ↦ pipeline_nil v y.0 y.1
          ]
  ]

  -- What a pipeline adds, and that the map has no other entry for the receiver.
  abbrev pub Adds : Bool → Map Bool → Map Bool → Type 0
  Adds b m n =
      (has_true r n ≡ (b || has_true r m))
      × (is_enabled m r ≡ has_true r m → is_enabled n r ≡ has_true r n)

  adds_nothing : (m n : Map Bool) → flags m ≡ flags n → Adds false m n
  adds_nothing m n h = let same : m ≡ n = cc h in rw (← same) (refl, λ e. e)

  list_adds :
      (xs : Items) (m n : Map Bool) (o : Option (Map Bool))
      → enable xs m ≡ o
      → enabled_list o ≡ flags n
      → Adds (lists xs r) m n
  list_adds xs m n none e h = absurd (cc h)
  list_adds xs m n (some k) e h =
      let same : only_enabled k ≡ n = cc h in
      rw (← same) (
        has_true-only_enabled r k ∙ has_true-enable r xs m k e,
        λ _. is_enabled-only_enabled r k ∙ sym (has_true-only_enabled r k),
      )

  use_list_adds :
      (xs : Items) (m n : Map Bool) → use_list xs (flags m) ≡ flags n → Adds (lists xs r) m n
  unfolding use_list
  use_list_adds nil m n h = absurd (cc h)
  use_list_adds (item v xs) m n h = list_adds (item v xs) m n (enable (item v xs) m) refl h

  receivers_adds :
      (v : Option Value) (m n : Map Bool)
      → use_receivers v (flags m) ≡ flags n
      → Adds (listed_in v r) m n
  receivers_adds none m n h = adds_nothing m n h
  receivers_adds (some (seq xs)) m n h = use_list_adds xs m n h
  receivers_adds (some null) m n h = adds_nothing m n h
  receivers_adds (some (bool b)) m n h = adds_nothing m n h
  receivers_adds (some (num i)) m n h = adds_nothing m n h
  receivers_adds (some (str s)) m n h = adds_nothing m n h
  receivers_adds (some (string_maps ys)) m n h = adds_nothing m n h
  receivers_adds (some (obj f)) m n h = adds_nothing m n h

  pipeline_adds :
      (v : Value) (m n : Map Bool) → use_pipeline v (flags m) ≡ flags n → Adds (in_pipeline v r) m n
  pipeline_adds (obj d) m n h = receivers_adds (find d "receivers") m n h
  pipeline_adds null m n h = absurd (cc h)
  pipeline_adds (bool b) m n h = absurd (cc h)
  pipeline_adds (num i) m n h = absurd (cc h)
  pipeline_adds (str s) m n h = absurd (cc h)
  pipeline_adds (seq ys) m n h = absurd (cc h)
  pipeline_adds (string_maps ys) m n h = absurd (cc h)

  pipelines_add :
      (ps : Fields) (m fs : Map Bool)
      → use_pipelines ps (flags m) ≡ flags fs
      → Adds (listed ps r) m fs
  unfolding use_pipelines listed
  pipelines_add end m fs h = adds_nothing m fs h
  pipelines_add (field k v ps) m fs h = elim (Bool-cases (k == "")) [
    | inl e ↦ rw (listed, e) (pipelines_add ps m fs (rw (use_pipelines, e) at h))
    | inr e ↦
        elim (continued (use_pipelines ps) (use_pipeline v (flags m)) fs
          (rw (use_pipelines, e) at h)) [
            | inl x ↦ absurd (cc (from_nil ps fs x.1))
            | inr y ↦
                let first = pipeline_adds v m y.0 y.1 in
                let later = pipelines_add ps y.0 fs y.2 in
                rw (listed, e) (ground (arith, first.0, later.0), λ g. later.1 (first.1 g))
          ]
  ]

  of_pipelines :
      (receivers pipelines : Fields) (fs : Map Bool)
      → use_pipelines pipelines (flags (available receivers)) ≡ flags fs
      → is_enabled fs r ≡ listed pipelines r
  of_pipelines receivers pipelines fs h =
      let (added, exact) = pipelines_add pipelines (available receivers) fs h in
      exact (is_enabled-available r receivers ∙ sym (has_true-available r receivers))
      ∙ added
      ∙ rw (has_true-available r receivers) (ground arith)

  found_pipelines :
      (config receivers service : Fields) (fs : Map Bool) (z : Option Fields)
      → as_map (find service "pipelines") ≡ z
      → as_map (find config "receivers") ≡ some receivers
      → as_map (find config "service") ≡ some service
      → get_enabled_receivers config ≡ flags fs
      → (pipelines : Fields) × (as_map (find service "pipelines") ≡ some pipelines)
        × (is_enabled fs r ≡ listed pipelines r)
  unfolding get_enabled_receivers
  found_pipelines config receivers service fs none ez ex ey h =
      absurd (cc (rw (get_enabled_receivers, ex, ey, ez) at h))
  found_pipelines config receivers service fs (some ps) ez ex ey h =
      (ps, ez, of_pipelines receivers ps fs (rw (get_enabled_receivers, ex, ey, ez) at h))

  found_receivers :
      (config : Fields) (fs : Map Bool) (x y : Option Fields)
      → as_map (find config "receivers") ≡ x
      → as_map (find config "service") ≡ y
      → get_enabled_receivers config ≡ flags fs
      → (service : Fields) × (pipelines : Fields) × (as_map (find config "service") ≡ some service)
        × (as_map (find service "pipelines") ≡ some pipelines)
        × (is_enabled fs r ≡ listed pipelines r)
  unfolding get_enabled_receivers
  found_receivers config fs none y ex ey h = absurd (cc (rw (get_enabled_receivers, ex) at h))
  found_receivers config fs (some receivers) none ex ey h =
      absurd (cc (rw (get_enabled_receivers, ex, ey) at h))
  found_receivers config fs (some receivers) (some service) ex ey h =
      let (ps, e, same) =
        found_pipelines config receivers service fs (as_map (find service "pipelines")) refl ex ey
          h in
      (service, ps, ey, e, same)

  -- Where GetEnabledReceivers returns a map, the configuration has pipelines, and a receiver is enabled
  -- in the map exactly if a pipeline with a name lists it.
  pub get_enabled_receivers-listed :
      (config : Fields) (fs : Map Bool)
      → get_enabled_receivers config ≡ flags fs
      → (service : Fields) × (pipelines : Fields) × (as_map (find config "service") ≡ some service)
        × (as_map (find service "pipelines") ≡ some pipelines)
        × (is_enabled fs r ≡ listed pipelines r)
  get_enabled_receivers-listed config fs h =
      found_receivers config fs (as_map (find config "receivers")) (as_map (find config "service"))
        refl refl h
