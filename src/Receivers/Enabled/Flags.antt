-- ===== src/Receivers/Enabled/Flags.antt =====
-- The receivers that pipelines list, and the map of those that are enabled.
use opentelemetry_operator.Prelude.{
  String, Bool, true, false, [], ◌∷◌, Option, some, ◌≡◌, refl, ◌∙◌, ◌==◌, ◌||◌, ◌&&◌, Bool-cases,
  inl, inr, arith, if◌then◌else◌, eq_of_some, eq_iff,
}
use opentelemetry_operator.GoMap.{Map, get, put}
use opentelemetry_operator.Yaml.{
  Value, null, bool, num, str, seq, string_maps, obj, Items, nil, item, Fields, end, field, find,
}
use opentelemetry_operator.Receivers.Enabled.{available, enable, only_enabled, is_enabled}

-- Whether a list names a receiver.
unfoldable pub lists : Items → String → Bool
lists nil r = false
lists (item (str s) xs) r = s == r || lists xs r
lists (item v xs) r = lists xs r

abbrev pub listed_in : Option Value → String → Bool
listed_in (some (seq xs)) r = lists xs r
listed_in _ r = false

abbrev pub in_pipeline : Value → String → Bool
in_pipeline (obj m) r = listed_in (find m "receivers") r
in_pipeline _ r = false

-- Whether one of the pipelines that have a name lists a receiver.
unfoldable pub listed : Fields → String → Bool
listed end r = false
listed (field k v m) r = let rest = listed m r in if k == "" then rest else in_pipeline v r || rest

unfoldable pub has_true : String → Map Bool → Bool
has_true r [] = false
has_true r ((k, b) ∷ m) = k == r && b || has_true r m

module _ (r : String) where
  pub has_true-put :
      (m : Map Bool) (s : String) → has_true r (put m s true) ≡ ((s == r) || has_true r m)
  unfolding has_true put
  has_true-put [] s = ground arith
  has_true-put ((k, b) ∷ m) s = elim (Bool-cases (k == s)) [
    | inl e ↦ let same : k ≡ s = ground (arith, e, eq_iff k s) in rw (put, e, same) (ground arith)
    | inr e ↦ rw (put, e, has_true-put m s) (ground arith)
  ]

  pub has_true-enable :
      (xs : Items) (m n : Map Bool)
      → enable xs m ≡ some n
      → has_true r n ≡ (lists xs r || has_true r m)
  unfolding enable lists
  has_true-enable nil m n h = rw (eq_of_some h) refl
  has_true-enable (item (str s) xs) m n h =
      rw (has_true-enable xs (put m s true) n h, has_true-put m s) (ground arith)
  has_true-enable (item null xs) m n h = cc h
  has_true-enable (item (bool b) xs) m n h = cc h
  has_true-enable (item (num i) xs) m n h = cc h
  has_true-enable (item (seq ys) xs) m n h = cc h
  has_true-enable (item (string_maps ys) xs) m n h = cc h
  has_true-enable (item (obj f) xs) m n h = cc h

  pub has_true-only_enabled : (m : Map Bool) → has_true r (only_enabled m) ≡ has_true r m
  unfolding has_true only_enabled
  has_true-only_enabled [] = refl
  has_true-only_enabled ((k, true) ∷ m) = rw (has_true-only_enabled m) refl
  has_true-only_enabled ((k, false) ∷ m) = rw (has_true-only_enabled m) (ground arith)

  pub is_enabled_cons :
      (k : String) (b : Bool) (m : Map Bool)
      → is_enabled ((k, b) ∷ m) r ≡ (if k == r then b else is_enabled m r)
  unfolding get is_enabled
  is_enabled_cons k b m = elim (Bool-cases (k == r)) [
    | inl e ↦ rw (is_enabled, get, e) refl
    | inr e ↦ rw (is_enabled, get, e) refl
  ]

  pub is_enabled-only_enabled : (m : Map Bool) → is_enabled (only_enabled m) r ≡ has_true r m
  unfolding has_true only_enabled get is_enabled
  is_enabled-only_enabled [] = refl
  is_enabled-only_enabled ((k, true) ∷ m) =
      is_enabled_cons k true (only_enabled m) ∙ rw (is_enabled-only_enabled m) (ground arith)
  is_enabled-only_enabled ((k, false) ∷ m) = rw (is_enabled-only_enabled m) (ground arith)

  pub has_true-available : (m : Fields) → has_true r (available m) ≡ false
  unfolding has_true available
  has_true-available end = refl
  has_true-available (field k v m) = rw (has_true-available m) (ground arith)

  pub is_enabled-available : (m : Fields) → is_enabled (available m) r ≡ false
  unfolding available get is_enabled
  is_enabled-available end = refl
  is_enabled-available (field k v m) =
      is_enabled_cons k false (available m) ∙ rw (is_enabled-available m) (ground arith)
