-- ===== src/Reconcile/Memory/Store.antt =====
-- An API server in memory, with a schedule of calls that fail.
use opentelemetry_operator.Prelude.{
  String, Bool, true, false, List, [], ◌∷◌, Option, none, some, ◌≡◌, refl, arith, if◌then◌else◌,
  eq_refl, Bool-cases, inl, inr, ◌⊎◌, ◌≢◌,
}
use opentelemetry_operator.GoMap.{Map}
use opentelemetry_operator.Reconcile.Api.{Object, Error, Answer, ok, err, Api, at, keeps, selected}
use opentelemetry_operator.Reconcile.Task.Wanted.{Distinct}
use opentelemetry_operator.Reconcile.Memory.{
  find, replace, remove, matching, find-at, find-replace, find-replace_at, Distinct-replace,
  find-remove, find-remove_at, Distinct-remove, matching_sound, matching_complete,
}

-- What the server holds, and which of the calls to come fail.
pub record Store (S : Type 0) : Type 0 where
  pub objects : List (Object S)
  pub faults : List Bool
  pub distinct : Distinct objects

abbrev pub timeout : Error
timeout = Error.other "timeout"

abbrev pub fails : List Bool → Bool
fails [] = false
fails (b ∷ bs) = b

abbrev pub later : List Bool → List Bool
later [] = []
later (b ∷ bs) = bs

abbrev pub as_answer : {A : Type 0} → Option A → Answer A
as_answer none = err Error.not_found
as_answer (some a) = ok a

module _ {S : Type 0} where
  abbrev pub tick : Store S → Store S
  tick s = record s { faults = later s.faults }

  unfoldable pub mem_read : Store S → String → String → Answer (Object S) × Store S
  mem_read s a b = (if fails s.faults then err timeout else as_answer (find s.objects a b), tick s)

  unfoldable pub mem_list : Store S → String → Map String → Answer (List (Object S)) × Store S
  mem_list s ns sel =
      (if fails s.faults then err timeout else ok (matching s.objects ns sel), tick s)

  unfoldable pub with_objects : (s : Store S) (os : List (Object S)) → Distinct os → Store S
  with_objects s os d = record { objects = os; faults = later s.faults; distinct = d }

  unfoldable pub patched : Store S → Object S → Option (Object S) → Option Error × Store S
  patched s o none = (some Error.not_found, tick s)
  patched s o (some p) =
      if fails s.faults
      then (some timeout, tick s)
      else (none, with_objects s (replace s.objects o) (Distinct-replace s.objects o s.distinct))

  unfoldable pub mem_patch : Store S → Object S → Option Error × Store S
  mem_patch s o = patched s o (find s.objects o.namespace o.name)

  unfoldable pub mem_delete : Store S → Object S → Option Error × Store S
  mem_delete s o =
      if fails s.faults
      then (some timeout, tick s)
      else (none, with_objects s (remove s.objects o) (Distinct-remove s.objects o s.distinct))

  unfoldable pub created :
      (s : Store S) (o : Object S)
      → (keeps s.objects o.namespace o.name ≡ true) ⊎ (keeps s.objects o.namespace o.name ≡ false)
      → Option Error × Store S
  created s o (inl e) = (some Error.already_exists, tick s)
  created s o (inr e) =
      if fails s.faults
      then (some timeout, tick s)
      else (none, with_objects s (o ∷ s.objects) (e, s.distinct))

  unfoldable pub mem_create : Store S → Object S → Option Error × Store S
  mem_create s o = created s o (Bool-cases (keeps s.objects o.namespace o.name))

  unfoldable pub mem_stored : Store S → String → String → Option (Object S)
  mem_stored s a b = find s.objects a b

some-none : {e : Error} → some e ≢ none
some-none h = cc h

module _ {S : Type 0} where
  pub read-found_lem :
      (s : Store S) (a b : String) (o : Object S)
      → (mem_read s a b).0 ≡ ok o
      → mem_stored s a b ≡ some o
  unfolding mem_stored mem_read
  read-found_lem s a b o h = ground (arith, h)

  pub read-missing_lem :
      (s : Store S) (a b : String)
      → (mem_read s a b).0 ≡ err Error.not_found
      → mem_stored s a b ≡ none
  unfolding mem_stored mem_read
  read-missing_lem s a b h = ground (arith, h)

  listed :
      (s : Store S) (ns : String) (sel : Map String) (os : List (Object S))
      → (mem_list s ns sel).0 ≡ ok os
      → matching s.objects ns sel ≡ os
  unfolding mem_list
  listed s ns sel os h = ground (arith, h)

  pub list-sound_lem :
      (s : Store S) (ns : String) (sel : Map String) (os : List (Object S)) (a b : String)
      → (mem_list s ns sel).0 ≡ ok os
      → keeps os a b ≡ true
      → (o : Object S) × (mem_stored s a b ≡ some o)
        × (o.namespace ≡ ns)
        × (selected sel o.labels ≡ true)
  unfolding mem_stored
  list-sound_lem s ns sel os a b h k =
      matching_sound s.objects ns sel a b s.distinct (rw (listed s ns sel os h) k)

  pub list-complete_lem :
      (s : Store S) (ns : String) (sel : Map String) (os : List (Object S)) (n : String)
      (o : Object S)
      → (mem_list s ns sel).0 ≡ ok os
      → mem_stored s ns n ≡ some o
      → selected sel o.labels ≡ true
      → keeps os ns n ≡ true
  unfolding mem_stored
  list-complete_lem s ns sel os n o h k l =
      rw (← listed s ns sel os h) (matching_complete s.objects ns sel n o k l)

  created-others :
      (s : Store S) (o : Object S)
      (c : (keeps s.objects o.namespace o.name ≡ true)
        ⊎ (keeps s.objects o.namespace o.name ≡ false))
      (a b : String)
      → at o a b ≡ false
      → find (created s o c).1.objects a b ≡ find s.objects a b
  unfolding created with_objects find
  created-others s o (inl e) a b h = refl
  created-others s o (inr e) a b h = elim (Bool-cases (fails s.faults)) [
    | inl f ↦ rw f refl
    | inr f ↦ rw (f, h) refl
  ]

  created-done :
      (s : Store S) (o : Object S)
      (c : (keeps s.objects o.namespace o.name ≡ true)
        ⊎ (keeps s.objects o.namespace o.name ≡ false))
      → (created s o c).0 ≡ none
      → find (created s o c).1.objects o.namespace o.name ≡ some o
  unfolding created with_objects find
  created-done s o (inl e) h = cc h
  created-done s o (inr e) h = elim (Bool-cases (fails s.faults)) [
    | inl f ↦ absurd (some-none (rw f at h))
    | inr f ↦ rw (f, eq_refl o.namespace, eq_refl o.name) refl
  ]

  patched-others :
      (s : Store S) (o : Object S) (x : Option (Object S)) (a b : String)
      → at o a b ≡ false
      → find (patched s o x).1.objects a b ≡ find s.objects a b
  unfolding patched with_objects
  patched-others s o none a b h = refl
  patched-others s o (some p) a b h = elim (Bool-cases (fails s.faults)) [
    | inl f ↦ rw f refl
    | inr f ↦ rw f (find-replace s.objects o a b h)
  ]

  patched-done :
      (s : Store S) (o : Object S) (x : Option (Object S))
      → find s.objects o.namespace o.name ≡ x
      → (patched s o x).0 ≡ none
      → find (patched s o x).1.objects o.namespace o.name ≡ some o
  unfolding patched with_objects
  patched-done s o none e h = cc h
  patched-done s o (some p) e h = elim (Bool-cases (fails s.faults)) [
    | inl f ↦ absurd (some-none (rw f at h))
    | inr f ↦ rw f (find-replace_at s.objects o p e)
  ]

  pub delete-others_lem :
      (s : Store S) (o : Object S) (a b : String)
      → at o a b ≡ false
      → mem_stored (mem_delete s o).1 a b ≡ mem_stored s a b
  unfolding mem_stored mem_delete with_objects
  delete-others_lem s o a b h = elim (Bool-cases (fails s.faults)) [
    | inl f ↦ rw f refl
    | inr f ↦ rw f (find-remove s.objects o a b h)
  ]

  pub delete-done_lem :
      (s : Store S) (o : Object S)
      → (mem_delete s o).0 ≡ none
      → mem_stored (mem_delete s o).1 o.namespace o.name ≡ none
  unfolding mem_stored mem_delete with_objects
  delete-done_lem s o h = elim (Bool-cases (fails s.faults)) [
    | inl f ↦ absurd (some-none (rw f at h))
    | inr f ↦ rw f (find-remove_at s.objects o s.distinct)
  ]

module _ {S : Type 0} where
  pub stored-at_lem :
      (s : Store S) (a b : String) (o : Object S) → mem_stored s a b ≡ some o → at o a b ≡ true
  unfolding mem_stored
  stored-at_lem s a b o h = find-at s.objects a b o h

  pub read-stored_lem :
      (s : Store S) (ns n a b : String) → mem_stored (mem_read s ns n).1 a b ≡ mem_stored s a b
  unfolding mem_stored mem_read
  read-stored_lem s ns n a b = refl

  pub list-stored_lem :
      (s : Store S) (ns : String) (sel : Map String) (a b : String)
      → mem_stored (mem_list s ns sel).1 a b ≡ mem_stored s a b
  unfolding mem_stored mem_list
  list-stored_lem s ns sel a b = refl

  pub create-others_lem :
      (s : Store S) (o : Object S) (a b : String)
      → at o a b ≡ false
      → mem_stored (mem_create s o).1 a b ≡ mem_stored s a b
  unfolding mem_stored mem_create
  create-others_lem s o = created-others s o (Bool-cases (keeps s.objects o.namespace o.name))

  pub create-done_lem :
      (s : Store S) (o : Object S)
      → (mem_create s o).0 ≡ none
      → mem_stored (mem_create s o).1 o.namespace o.name ≡ some o
  unfolding mem_stored mem_create
  create-done_lem s o = created-done s o (Bool-cases (keeps s.objects o.namespace o.name))

  pub patch-others_lem :
      (s : Store S) (o : Object S) (a b : String)
      → at o a b ≡ false
      → mem_stored (mem_patch s o).1 a b ≡ mem_stored s a b
  unfolding mem_stored mem_patch
  patch-others_lem s o = patched-others s o (find s.objects o.namespace o.name)

  pub patch-done_lem :
      (s : Store S) (o : Object S)
      → (mem_patch s o).0 ≡ none
      → mem_stored (mem_patch s o).1 o.namespace o.name ≡ some o
  unfolding mem_stored mem_patch
  patch-done_lem s o = patched-done s o (find s.objects o.namespace o.name) refl

abbrev pub memory : {S : Type 0} → Api S
memory {S} = record {
  Server = Store S;
  stored = mem_stored;
  read = mem_read;
  list = mem_list;
  create = mem_create;
  patch = mem_patch;
  delete = mem_delete;
  stored-at = stored-at_lem;
  read-stored = read-stored_lem;
  read-found = read-found_lem;
  read-missing = read-missing_lem;
  list-stored = list-stored_lem;
  list-sound = list-sound_lem;
  list-complete = list-complete_lem;
  create-others = create-others_lem;
  create-done = create-done_lem;
  patch-others = patch-others_lem;
  patch-done = patch-done_lem;
  delete-others = delete-others_lem;
  delete-done = delete-done_lem;
}
