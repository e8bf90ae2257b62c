-- ===== src/Yaml/Laws.antt =====
-- Keys after the writes and deletions of the maps of a configuration, and what a loop leaves.
use opentelemetry_operator.Prelude.{
  String, Bool, false, none, some, ◌≡◌, refl, ◌==◌, ◌||◌, Bool-cases, inl, inr, arith, eq_iff,
  eq_refl, eq_of_some,
}
use opentelemetry_operator.Yaml.{
  Value, Fields, end, field, find, set, remove, Round, keep, drop, leave, fail, panic, Edited,
  edited, left, failed, panicked, and_rest, each,
}

pub find-remove : (m : Fields) (k : String) → find (remove m k) k ≡ none
unfolding find remove
find-remove end k = refl
find-remove (field j v m) k = elim (Bool-cases (j == k)) [
  | inl e ↦ rw e (find-remove m k)
  | inr e ↦ rw (e, find-remove m k, e) refl
]

pub find-set : (m : Fields) (k : String) (v : Value) → find (set m k v) k ≡ some v
unfolding find set
find-set end k v = rw (eq_refl k) refl
find-set (field j w m) k v = elim (Bool-cases (j == k)) [
  | inl e ↦ rw (e, e) refl
  | inr e ↦ rw (e, e) (find-set m k v)
]

pub find-set_other :
    (m : Fields) (j k : String) (v : Value) → (j == k) ≡ false → find (set m j v) k ≡ find m k
unfolding find set
find-set_other end j k v h = rw h refl
find-set_other (field i w m) j k v h = elim (Bool-cases (i == j)) [
  | inl e ↦
      let same : i ≡ j = ground (arith, e, eq_iff i j) in
      let other : (i == k) ≡ false = rw same h in rw (e, other) refl
  | inr e ↦ rw (e, find-set_other m j k v h) refl
]

pub set-find : (m : Fields) (k : String) (v w : Value) → find m k ≡ some v → set (set m k w) k v ≡ m
unfolding find set
set-find end k v w h = cc h
set-find (field j u m) k v w h = elim (Bool-cases (j == k)) [
  | inl e ↦ let same : u ≡ v = eq_of_some (rw (e, find) at h) in rw (e, set, e, same) refl
  | inr e ↦ rw (e, set, e, set-find m k v w (rw (e, find) at h)) refl
]

pub set_same : (m : Fields) (k : String) (v : Value) → find m k ≡ some v → set m k v ≡ m
unfolding find set
set_same end k v h = cc h
set_same (field j u m) k v h = elim (Bool-cases (j == k)) [
  | inl e ↦ let same : u ≡ v = eq_of_some (rw (e, find) at h) in rw (e, same) refl
  | inr e ↦ rw (e, set_same m k v (rw (e, find) at h)) refl
]

pub remove_idem : (m : Fields) (k : String) → remove (remove m k) k ≡ remove m k
unfolding remove
remove_idem end k = refl
remove_idem (field j u m) k = elim (Bool-cases (j == k)) [
  | inl e ↦ rw e (remove_idem m k)
  | inr e ↦ rw (e, e, remove_idem m k) refl
]

-- Whether the test holds of a key and its value.
pub any : (String → Value → Bool) → Fields → Bool
any p end = false
any p (field k v m) = p k v || any p m

module _ (f : String → Value → Round) (p : String → Value → Bool) where
  gone :
      (k : String) (r : Round) (e : Edited) (n : Fields)
      → ((w : Value) → r ≡ keep w → p k w ≡ false)
      → ((n : Fields) → e ≡ edited n → any p n ≡ false)
      → and_rest r k e ≡ edited n
      → any p n ≡ false
  unfolding any
  gone k (keep w) (edited m) n kept rest h =
      let same : n ≡ field k w m = cc h in rw (same, any, kept w refl) (rest m refl)
  gone k (keep w) left n kept rest h = cc h
  gone k (keep w) (failed x) n kept rest h = cc h
  gone k (keep w) panicked n kept rest h = cc h
  gone k drop e n kept rest h = rest n h
  gone k leave e n kept rest h = cc h
  gone k (fail x) e n kept rest h = cc h
  gone k panic e n kept rest h = cc h

  -- Where no value that a round writes passes the test, none that the loop leaves does.
  pub any-each :
      ((k : String) (v w : Value) → f k v ≡ keep w → p k w ≡ false)
      → (m n : Fields) → each f m ≡ edited n
      → any p n ≡ false
  unfolding each any
  any-each kept end n h = let same : n ≡ end = cc h in rw (same, any) refl
  any-each kept (field k v m) n h =
      gone k (f k v) (each f m) n (kept k v) (λ n. any-each kept m n) h
