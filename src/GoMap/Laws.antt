-- ===== src/GoMap/Laws.antt =====
-- Laws of Go's maps.
use opentelemetry_operator.Prelude.{
  ◌∙◌, ℕ, ◌+◌, String, List, elem, for_each, ◌≡◌, refl, ap, Bool, false, Option, none, some, [],
  ◌∷◌, arith, ◌==◌, eq_iff, eq_refl, bit, if◌then◌else◌,
}
use opentelemetry_operator.GoMap.{
  Range, copy, copy_into, copy_key, read, or_empty, Map, get, put, delete,
}

module _ {ℓ} {V : Type ℓ} where
  pub get-put :
      (m : Map V) (k : String) (v : V) (j : String)
      → get (put m k v) j ≡ (if k == j then some v else get m j)
  unfolding get put
  get-put [] k v j = refl
  get-put ((i, w) ∷ m) k v j = ground (arith, eq_iff k j, eq_iff i k, eq_iff i j, get-put m k v j)

  pub get-delete :
      (m : Map V) (k j : String) → get (delete m k) j ≡ (if k == j then none else get m j)
  unfolding get delete
  get-delete [] k j = ground arith
  get-delete ((i, w) ∷ m) k j = ground (arith, eq_iff k j, eq_iff i k, eq_iff i j, get-delete m k j)

  -- No key stands twice.
  abbrev pub Distinct : Map V → Type ℓ
  Distinct [] = Unit
  Distinct ((k, v) ∷ m) = (get m k ≡ none) × Distinct m

  pub Distinct-put : (m : Map V) (k : String) (v : V) → Distinct m → Distinct (put m k v)
  unfolding put
  Distinct-put [] k v d = (unfold get in refl, tt)
  Distinct-put ((i, w) ∷ m) k v d =
      ground (arith, d.0, d.1, get-put m k v i, eq_iff i k, eq_iff k i, Distinct-put m k v d.1)

  pub Distinct-delete : (m : Map V) (k : String) → Distinct m → Distinct (delete m k)
  unfolding delete
  Distinct-delete [] k d = tt
  Distinct-delete ((i, w) ∷ m) k d =
      ground (arith, d.0, get-delete m k i, eq_iff i k, Distinct-delete m k d.1)

  -- How many entries pass a test.
  unfoldable pub count : (V → Bool) → Map V → ℕ
  count p [] = 0
  count p ((k, v) ∷ m) = bit (p v) + count p m

  -- The test at a key, false where the key is missing.
  abbrev pub holds_at : (V → Bool) → Option V → Bool
  holds_at p none = false
  holds_at p (some v) = p v

  pub delete_missing : (m : Map V) (k : String) → get m k ≡ none → delete m k ≡ m
  unfolding get delete
  delete_missing [] k e = refl
  delete_missing ((i, w) ∷ m) k e = ground (arith, delete_missing m k)

  pub count-delete :
      (p : V → Bool) (m : Map V) (k : String)
      → Distinct m
      → count p (delete m k) + bit (holds_at p (get m k)) ≡ count p m
  unfolding get delete count
  count-delete p [] k d = omega arith
  count-delete p ((i, w) ∷ m) k d =
      ground (arith, d.0, eq_iff i k, count-delete p m k d.1, delete_missing m k)

  pub count-put :
      (p : V → Bool) (m : Map V) (k : String) (v : V)
      → Distinct m
      → count p (put m k v) ≡ count p (delete m k) + bit (p v)
  unfolding put delete count
  count-put p [] k v d = omega arith
  count-put p ((i, w) ∷ m) k v d =
      ground (arith, d.0, eq_iff i k, count-put p m k v d.1, delete_missing m k)

  -- No entry passes a test that fails at every key.
  pub count_none :
      (p : V → Bool) (m : Map V)
      → Distinct m
      → ((k : String) (v : V) → get m k ≡ some v → p v ≡ false)
      → count p m ≡ 0
  unfolding count get
  count_none p [] d h = refl
  count_none p ((k, v) ∷ m) d h = omega (
    arith,
    ap bit (h k v (rw eq_refl)),
    count_none p m d.1 (λ j w e. h j w (ground (arith, d.0, eq_iff k j))),
  )

pub read-put : (m : Map String) (k v : String) → read (put m k v) k ≡ v
unfolding read
read-put m k v =
    let found : get (put m k v) k ≡ some v = get-put m k v k ∙ rw (eq_refl k) refl in
    ap or_empty found

-- The first of two lookups, or the second where it finds nothing.
abbrev pub or_old {ℓ} : {V : Type ℓ} → Option V → Option V → Option V
or_old none o = o
or_old (some v) o = some v

-- A copy holds what the map holds.
module _ {V : Type 0} (r : Range) (m : Map V) where
  get-copy_key :
      (n : Map V) (k j : String)
      → get (copy_key m n k) j ≡ (if k == j then or_old (get m j) (get n j) else get n j)
  unfolding copy_key
  get-copy_key n k j = grind (arith, eq_iff k j, get-put)

  get-copy_each :
      (ks : List String) (n : Map V) (j : String)
      → get (for_each (copy_key m) n ks) j
        ≡ (if elem j ks then or_old (get m j) (get n j) else get n j)
  get-copy_each [] n j = refl
  get-copy_each (k ∷ ks) n j =
      ground (arith, get-copy_each ks (copy_key m n k) j, get-copy_key n k j)

  pub get-copy : (j : String) → get (copy r m) j ≡ get m j
  unfolding copy get
  get-copy j = rw (get-copy_each (r.visit V m) [] j) (ground (arith, r.elem-visit V m j))

  -- Copied into another map, it hides what that holds at its keys.
  pub get-copy_into :
      (n : Map V) (j : String) → get (copy_into r m n) j ≡ or_old (get m j) (get n j)
  unfolding copy_into
  get-copy_into n j = rw (get-copy_each (r.visit V m) n j) (ground (arith, r.elem-visit V m j))
