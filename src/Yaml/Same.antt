-- ===== src/Yaml/Same.antt =====
-- Values that are the same map of Go: the order in which a map lists its keys does not count.
use opentelemetry_operator.Prelude.{
  String, false, Option, none, some, ◌≡◌, refl, is_some, subst, ◌==◌, Bool-cases, inl, inr, arith,
  eq_iff, eq_refl,
}
use opentelemetry_operator.Yaml.{
  Value, null, str, seq, obj, Items, nil, item, Fields, end, field, find, set, remove,
}
use opentelemetry_operator.Yaml.Laws.{find-set, find-set_other, find-remove}

mutual
  pub data SameValue : Value → Value → Type 0 where
    same_leaf : {v : Value} → SameValue v v
    same_seq : {xs ys : Items} → SameItems xs ys → SameValue (seq xs) (seq ys)
    same_obj :
        {m n : Fields} → ((k : String) → SameAt (find m k) (find n k)) → SameValue (obj m) (obj n)

  pub data SameItems : Items → Items → Type 0 where
    same_nil : SameItems nil nil
    same_item :
        {v w : Value} {xs ys : Items}
        → SameValue v w
        → SameItems xs ys
        → SameItems (item v xs) (item w ys)

  pub data SameAt : Option Value → Option Value → Type 0 where
    same_none : SameAt none none
    same_some : {v w : Value} → SameValue v w → SameAt (some v) (some w)

-- Each key has the same value in both.
abbrev pub Same : Fields → Fields → Type 0
Same m n = (k : String) → SameAt (find m k) (find n k)

SameAt-refl : (o : Option Value) → SameAt o o
SameAt-refl none = same_none
SameAt-refl (some v) = same_some same_leaf

pub Same-refl : (m : Fields) → Same m m
Same-refl m k = SameAt-refl (find m k)

pub SameItems-refl : (xs : Items) → SameItems xs xs
SameItems-refl nil = same_nil
SameItems-refl (item v xs) = same_item same_leaf (SameItems-refl xs)

map_of :
    {v w : Value} (m : Fields) → SameValue v w → v ≡ obj m → (n : Fields) × (w ≡ obj n) × Same m n
map_of m same_leaf e = (m, e, Same-refl m)
map_of m (same_seq s) e = absurd (cc e)
map_of m (same_obj {m = a} {n = b} s) e =
    let same : a ≡ m = cc e in (b, refl, subst (λ x. Same x b) same s)

pub map_in :
    {o p : Option Value} (m : Fields)
    → SameAt o p
    → o ≡ some (obj m)
    → (n : Fields) × (p ≡ some (obj n)) × Same m n
map_in m same_none e = absurd (cc e)
map_in m (same_some {v = v} s) e =
    let is : v ≡ obj m = cc e in let (n, f, x) = map_of m s is in (n, rw f refl, x)

list_of :
    {v w : Value} (xs : Items)
    → SameValue v w
    → v ≡ seq xs
    → (ys : Items) × (w ≡ seq ys) × SameItems xs ys
list_of xs same_leaf e = (xs, e, SameItems-refl xs)
list_of xs (same_seq {xs = a} {ys = b} s) e =
    let same : a ≡ xs = cc e in (b, refl, subst (λ x. SameItems x b) same s)
list_of xs (same_obj s) e = absurd (cc e)

pub list_in :
    {o p : Option Value} (xs : Items)
    → SameAt o p
    → o ≡ some (seq xs)
    → (ys : Items) × (p ≡ some (seq ys)) × SameItems xs ys
list_in xs same_none e = absurd (cc e)
list_in xs (same_some {v = v} s) e =
    let is : v ≡ seq xs = cc e in let (ys, f, x) = list_of xs s is in (ys, rw f refl, x)

text_of : {v w : Value} (s : String) → SameValue v w → v ≡ str s → w ≡ str s
text_of s same_leaf e = e
text_of s (same_seq x) e = absurd (cc e)
text_of s (same_obj x) e = absurd (cc e)

pub text_in : {o p : Option Value} (s : String) → SameAt o p → o ≡ some (str s) → p ≡ some (str s)
text_in s same_none e = absurd (cc e)
text_in s (same_some {v = v} x) e = let is : v ≡ str s = cc e in rw (text_of s x is) refl

pub none_in : {o p : Option Value} → SameAt o p → o ≡ none → p ≡ none
none_in same_none e = refl
none_in (same_some x) e = absurd (cc e)

pub Same-set :
    (m n : Fields) (k : String) (v w : Value)
    → Same m n
    → SameValue v w
    → Same (set m k v) (set n k w)
Same-set m n k v w s x j = elim (Bool-cases (k == j)) [
  | inl e ↦
      let same : k ≡ j = ground (arith, e, eq_iff k j) in
      rw (← same) (rw (find-set m k v, find-set n k w) (same_some x))
  | inr e ↦ rw (find-set_other m k j v e, find-set_other n k j w e) (s j)
]

find-remove_other : (m : Fields) (k j : String) → (k == j) ≡ false → find (remove m k) j ≡ find m j
unfolding find remove
find-remove_other end k j h = refl
find-remove_other (field i v m) k j h = elim (Bool-cases (i == k)) [
  | inl e ↦
      let same : i ≡ k = ground (arith, e, eq_iff i k) in
      let other : (i == j) ≡ false = rw same h in rw (e, other) (find-remove_other m k j h)
  | inr e ↦ rw (e, find, find-remove_other m k j h) refl
]

pub Same-remove : (m n : Fields) (k : String) → Same m n → Same (remove m k) (remove n k)
Same-remove m n k s j = elim (Bool-cases (k == j)) [
  | inl e ↦
      let same : k ≡ j = ground (arith, e, eq_iff k j) in
      rw (← same) (rw (find-remove m k, find-remove n k) same_none)
  | inr e ↦ rw (find-remove_other m k j e, find-remove_other n k j e) (s j)
]

null_of : {v w : Value} → SameValue v w → v ≡ null → w ≡ null
null_of same_leaf e = e
null_of (same_seq x) e = absurd (cc e)
null_of (same_obj x) e = absurd (cc e)

pub null_in : {o p : Option Value} → SameAt o p → o ≡ some null → p ≡ some null
null_in same_none e = absurd (cc e)
null_in (same_some {v = v} x) e = let is : v ≡ null = cc e in rw (null_of x is) refl

pub is_some-Same : {o p : Option Value} → SameAt o p → is_some o ≡ is_some p
is_some-Same same_none = refl
is_some-Same (same_some x) = refl

-- Two keys that change places.
pub Same-swap :
    (a b : String) (v w : Value) (m : Fields)
    → (a == b) ≡ false
    → Same (field a v (field b w m)) (field b w (field a v m))
unfolding find
Same-swap a b v w m h k = elim (Bool-cases (a == k)) [
  | inl e ↦
      let same : a ≡ k = ground (arith, e, eq_iff a k) in
      let other : (b == k) ≡ false = elim (Bool-cases (b == k)) [
        | inl f ↦
            let same' : b ≡ k = ground (arith, f, eq_iff b k) in
            absurd (cc (rw (same, ← same', eq_refl b) at h))
        | inr f ↦ f
      ] in
      rw (e, other) (same_some same_leaf)
  | inr e ↦ rw e (SameAt-refl (find (field b w m) k))
]
