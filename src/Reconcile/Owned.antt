-- ===== src/Reconcile/Owned.antt =====
-- The labels of a collector's objects (pkg/collector/labels.go) against the labels by which the tasks of
-- pkg/collector/reconcile list what they may delete.
use opentelemetry_operator.Prelude.{
  ◌≤◌, ◌<◌, String, Bool, true, false, List, [], ◌∷◌, some, ◌≡◌, sym, ap, subst, ◌∙◌, ◌==◌, ◌<+>◌,
  Bool-cases, inl, inr, ◌⊎◌, eq_of_some, none, arith, eq_iff, eq_refl, length,
}
use opentelemetry_operator.GoMap.{Map, Range, get}
use opentelemetry_operator.Naming.Truncate.{Bytes, truncate, trim_non_alpha_numeric}
use opentelemetry_operator.Naming.Truncate.Bounds.{length-truncate, truncate_fits}
use opentelemetry_operator.Naming.Texts.{bytes, joined_by_dot, bytes-joined_by_dot}
use opentelemetry_operator.Collector.Labels.{
  LabelledCollector, instance_label, collector_labels, target_allocator_labels,
}
use opentelemetry_operator.Collector.Labels.Laws.{get-collector_labels, get-target_allocator_labels}
use opentelemetry_operator.Reconcile.Api.{Object, Api, keeps, selected}
use opentelemetry_operator.Reconcile.Task.{Kind, Lawful, Owner, Instance, owned_by, reconcile}
use opentelemetry_operator.Reconcile.Task.Wanted.{Distinct}
use opentelemetry_operator.Reconcile.Task.Total.{reconcile_settles}
use opentelemetry_operator.Reconcile.Task.Untouched.{reconcile-others}

-- The collector as the tasks name it.
abbrev pub instance_of : LabelledCollector → Instance
instance_of c = record { namespace = c.namespace; name = c.name }

selected-owned_by :
    (i : Instance) (m : Map String) (v : String)
    → get m "app.kubernetes.io/instance" ≡ some v
    → get m "app.kubernetes.io/managed-by" ≡ some "opentelemetry-operator"
    → selected (owned_by i) m ≡ (v == (i.namespace <+> "." <+> i.name))
unfolding owned_by selected
selected-owned_by i m v e f = rw (selected, e, selected, f) (ground arith)

module _ (text : Bytes → String) (matches : String → String → Bool) (order : Range)
    (c : LabelledCollector) where
  abbrev pub full_name : String
  full_name = c.namespace <+> "." <+> c.name

  abbrev pub label_bytes : Bytes
  label_bytes = truncate joined_by_dot 63 (bytes c.namespace ∷ bytes c.name ∷ [])

  -- The labels that the operator gives to an object of the collector.
  abbrev pub HasLabels : Map String → Type 0
  HasLabels m =
      ((name : String) × (filters : List String) × (m
          ≡ collector_labels text matches order c name filters))
      ⊎ ((name : String) × (m ≡ target_allocator_labels text matches order c name))

  selected-HasLabels :
      (m : Map String)
      → HasLabels m
      → selected (owned_by (instance_of c)) m ≡ (instance_label text matches order c == full_name)
  selected-HasLabels m (inl (name, filters, e)) =
      let (a, b, component) = get-collector_labels text matches order c name filters in
      rw e (selected-owned_by (instance_of c) _ (instance_label text matches order c) a b)
  selected-HasLabels m (inr (name, e)) =
      let (a, b) = get-target_allocator_labels text matches order c name in
      rw e (selected-owned_by (instance_of c) _ (instance_label text matches order c) a b)

  -- A full name that needs no truncation is the label.
  pub label-full_name :
      text (bytes full_name) ≡ full_name
      → length (bytes full_name) ≤ 63
      → trim_non_alpha_numeric (bytes full_name) ≡ bytes full_name
      → instance_label text matches order c ≡ full_name
  unfolding instance_label
  label-full_name read short trimmed =
      let same = bytes-joined_by_dot c.namespace c.name in
      let values = bytes c.namespace ∷ bytes c.name ∷ [] in
      ap text
        (truncate_fits joined_by_dot 63 values (rw same at short) (rw same at trimmed) ∙ sym same)
      ∙ read

  -- A full name of more bytes than the label may have is not the label.
  pub label-truncated :
      bytes (text label_bytes) ≡ label_bytes
      → 63 < length (bytes full_name)
      → (instance_label text matches order c == full_name) ≡ false
  unfolding instance_label
  label-truncated read long = elim (Bool-cases (text label_bytes == full_name)) [
    | inr e ↦ e
    | inl e ↦
        let same : text label_bytes ≡ full_name =
          ground (arith, e, eq_iff (text label_bytes) full_name) in
        let bound = length-truncate joined_by_dot 63 (bytes c.namespace ∷ bytes c.name ∷ []) in
        let lengths : length label_bytes ≡ length (bytes full_name) =
          ap length (sym read) ∙ ap (λ t. length (bytes t)) same in
        absurd (omega (arith, long, bound, lengths))
  ]

  module _ {S : Type 0} (api : Api S) (kind : Kind S) (r : Range) (owner : Owner S)
      (desired : List (Object S)) where
    open api use {Server, stored}

    -- Where the text namespace.name reads back from its bytes, has at most 63 of them, and begins
    -- and ends with a letter or a digit, a task without an error, whose wanted objects are at
    -- different places, leaves no object in the collector's namespace that has the labels of the
    -- collector's objects and is not wanted.
    pub reconcile-HasLabels :
        (laws : Lawful kind) (s : Server) (n : String) (o : Object S)
        → text (bytes full_name) ≡ full_name
        → length (bytes full_name) ≤ 63
        → trim_non_alpha_numeric (bytes full_name) ≡ bytes full_name
        → Distinct desired
        → (reconcile api kind r owner (instance_of c) desired s).0 ≡ none
        → stored (reconcile api kind r owner (instance_of c) desired s).1 c.namespace n ≡ some o
        → HasLabels o.labels
        → keeps desired c.namespace n ≡ true
    reconcile-HasLabels laws s n o read short trimmed ds done there labelled =
        let (settled, no_extra) =
          reconcile_settles api kind laws r owner (instance_of c) desired s ds done in
        let same = label-full_name read short trimmed in
        no_extra n o there (selected-HasLabels o.labels labelled ∙ rw same (eq_refl full_name))

    -- Where the text namespace.name has more than 63 bytes, and the text of the truncated ones has
    -- those bytes, a task leaves an object with the labels of the collector's objects alone,
    -- although it is not wanted.
    pub reconcile_keeps_unwanted :
        (s : Server) (a b : String) (o : Object S)
        → bytes (text label_bytes) ≡ label_bytes
        → 63 < length (bytes full_name)
        → keeps desired a b ≡ false
        → stored s a b ≡ some o
        → HasLabels o.labels
        → stored (reconcile api kind r owner (instance_of c) desired s).1 a b ≡ some o
    reconcile_keeps_unwanted s a b o read long unwanted there labelled =
        let foreign : (p : Object S)
            → stored s a b ≡ some p
            → p.namespace ≡ c.namespace
            → selected (owned_by (instance_of c)) p.labels ≡ false =
          λ p e ns.
            let same : o ≡ p = eq_of_some (sym there ∙ e) in
            subst (λ q. selected (owned_by (instance_of c)) q.labels ≡ false) same
              (selected-HasLabels o.labels labelled ∙ label-truncated read long) in
        reconcile-others api kind r owner a b (instance_of c) desired s unwanted foreign ∙ there
