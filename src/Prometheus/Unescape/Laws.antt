-- ===== src/Prometheus/Unescape/Laws.antt =====
-- What the unescaping does to texts, and to lists, in which every "$" is doubled.
use Prim.Native.Char.{Char, code}
use opentelemetry_operator.Prelude.{
  ℕ, suc, String, Bool, true, false, Option, none, some, ◌≡◌, refl, nat_eq, Bool-cases, inl, inr,
  ◌&&◌, arith,
}
use opentelemetry_operator.Yaml.{
  Value, null, bool, num, str, seq, string_maps, obj, Items, nil, item, Fields, find, set,
}
use opentelemetry_operator.Yaml.Laws.{find-set, set-find}
use opentelemetry_operator.Prometheus.Config.{valid, each_item}
use opentelemetry_operator.Prometheus.Unescape.{
  dollar, unescape_after, unescape, unescape_replacement,
}

-- What a user writes for a text: each "$" twice.
unfoldable pub doubled : String → String
doubled String.[] = String.[]
doubled (String.◌∷◌ c s) = elim (nat_eq (code c) dollar) [
  | true ↦ String.◌∷◌ c (String.◌∷◌ c (doubled s))
  | false ↦ String.◌∷◌ c (doubled s)
]

skipped :
    (c : Char) (s : String)
    → nat_eq (code c) dollar ≡ true
    → unescape_after true (String.◌∷◌ c s) ≡ unescape_after false s
unfolding unescape_after
skipped c s e = rw (unescape_after, e) refl

pub unescape-doubled : (s : String) → unescape (doubled s) ≡ s
unfolding unescape_after doubled
unescape-doubled String.[] = refl
unescape-doubled (String.◌∷◌ c s) = elim (Bool-cases (nat_eq (code c) dollar)) [
  | inl e ↦ rw (e, doubled, e, unescape_after, skipped c (doubled s) e, unescape-doubled s) refl
  | inr e ↦ rw (e, doubled, e, unescape_after, unescape-doubled s) refl
]

abbrev pub double_text : Fields → Option Value → Value
double_text m (some (str s)) = obj (set m "replacement" (str (doubled s)))
double_text m _ = obj m

-- A list of relabel configurations with every "$" of their replacements doubled.
unfoldable pub double_items : Items → Items
double_items nil = nil
double_items (item (obj m) xs) = item (double_text m (find m "replacement")) (double_items xs)
double_items (item v xs) = item v (double_items xs)

abbrev pub is_text : Option Value → Bool
is_text none = true
is_text (some (str s)) = true
is_text (some _) = false

-- Whether all are maps, whose replacements are texts.
unfoldable pub are_relabel_configs : Items → Bool
are_relabel_configs nil = true
are_relabel_configs (item (obj m) xs) = is_text (find m "replacement") && are_relabel_configs xs
are_relabel_configs (item v xs) = false

module _ (component : String) where
  unescape_replacement_doubled :
      (i : ℕ) (m : Fields) (v : Option Value)
      → find m "replacement" ≡ v
      → is_text v ≡ true
      → unescape_replacement component i (double_text m v) ≡ valid (obj m)
  unfolding unescape_replacement
  unescape_replacement_doubled i m none e h = rw (unescape_replacement, e) refl
  unescape_replacement_doubled i m (some (str s)) e h =
      rw
        (
          unescape_replacement,
          find-set m "replacement" (str (doubled s)),
          unescape-doubled s,
          set-find m "replacement" (str s) (str (doubled s)) e,
        )
        refl
  unescape_replacement_doubled i m (some null) e h = cc h
  unescape_replacement_doubled i m (some (bool b)) e h = cc h
  unescape_replacement_doubled i m (some (num n)) e h = cc h
  unescape_replacement_doubled i m (some (seq xs)) e h = cc h
  unescape_replacement_doubled i m (some (string_maps xs)) e h = cc h
  unescape_replacement_doubled i m (some (obj n)) e h = cc h

  -- A list of relabel configurations in whose replacements every "$" was doubled is as it was before.
  pub each_item-double_items :
      (i : ℕ) (xs : Items)
      → are_relabel_configs xs ≡ true
      → each_item (unescape_replacement component) i (double_items xs) ≡ valid xs
  unfolding each_item double_items are_relabel_configs
  each_item-double_items i nil h = refl
  each_item-double_items i (item (obj m) xs) h =
      rw
        (
          unescape_replacement_doubled i m (find m "replacement") refl (ground (arith, h)),
          each_item-double_items (suc i) xs (ground (arith, h)),
        )
        refl
  each_item-double_items i (item null xs) h = cc h
  each_item-double_items i (item (bool b) xs) h = cc h
  each_item-double_items i (item (num n) xs) h = cc h
  each_item-double_items i (item (str s) xs) h = cc h
  each_item-double_items i (item (seq ys) xs) h = cc h
  each_item-double_items i (item (string_maps ys) xs) h = cc h
