-- ===== src/Reconcile/Api.antt =====
-- The API server as the tasks of pkg/collector/reconcile use it through controller-runtime's client,
-- for the objects of one kind.
use opentelemetry_operator.Prelude.{
  String, Bool, true, false, List, [], ◌∷◌, Option, none, some, ◌≡◌, ◌==◌, ◌&&◌, if◌then◌else◌,
}
use opentelemetry_operator.GoMap.{Map, get}
use opentelemetry_operator.Kube.{OwnerReference}

-- The metadata and the specification that the operator writes.
pub record Object (S : Type 0) : Type 0 where
  pub namespace : String
  pub name : String
  pub labels : Map String
  pub annotations : Map String
  pub owners : List OwnerReference
  pub spec : S

pub data Error : Type 0 where
  not_found : Error
  already_exists : Error
  namespace_terminating : Error
  other : String → Error

pub data Answer (A : Type 0) : Type 0 where
  ok : A → Answer A
  err : Error → Answer A

module _ {S : Type 0} where
  -- Whether an object has this namespace and this name.
  abbrev pub at : Object S → String → String → Bool
  at o ns n = o.namespace == ns && o.name == n

  -- Whether one of the objects has this namespace and this name.
  abbrev pub keeps : List (Object S) → String → String → Bool
  keeps [] ns n = false
  keeps (o ∷ os) ns n = if at o ns n then true else keeps os ns n

-- client.MatchingLabels: each label of the selector is there, with its value.
unfoldable pub selected : Map String → Map String → Bool
selected [] labels = true
selected ((k, v) ∷ sel) labels = elim (get labels k) [
  | none ↦ false
  | some w ↦ (w == v) && selected sel labels
]

-- What a client can ask, and what it may rely on. Each call may fail and reads may change what the
-- server remembers of its clients, so that each returns a server; `stored` is what it holds. After
-- a failed write nothing is known of the object that was written. The laws are those of a server
-- that is read without a cache, leaves the modelled fields of a written object as they are sent,
-- and deletes at once: defaults that it sets, finalizers and stale reads are left out.
pub record Api (S : Type 0) : Type 1 where
  pub Server : Type 0
  pub stored : Server → String → String → Option (Object S)
  pub read : Server → String → String → Answer (Object S) × Server
  pub list : Server → String → Map String → Answer (List (Object S)) × Server
  pub create : Server → Object S → Option Error × Server
  pub patch : Server → Object S → Option Error × Server
  pub delete : Server → Object S → Option Error × Server
  pub stored-at :
      (s : Server) (ns n : String) (o : Object S) → stored s ns n ≡ some o → at o ns n ≡ true
  pub read-stored : (s : Server) (ns n a b : String) → stored (read s ns n).1 a b ≡ stored s a b
  pub read-found :
      (s : Server) (ns n : String) (o : Object S) → (read s ns n).0 ≡ ok o → stored s ns n ≡ some o
  pub read-missing :
      (s : Server) (ns n : String) → (read s ns n).0 ≡ err not_found → stored s ns n ≡ none
  pub list-stored :
      (s : Server) (ns : String) (sel : Map String) (a b : String)
      → stored (list s ns sel).1 a b ≡ stored s a b
  pub list-sound :
      (s : Server) (ns : String) (sel : Map String) (os : List (Object S)) (a b : String)
      → (list s ns sel).0 ≡ ok os
      → keeps os a b ≡ true
      → (o : Object S) × (stored s a b ≡ some o)
        × (o.namespace ≡ ns)
        × (selected sel o.labels ≡ true)
  pub list-complete :
      (s : Server) (ns : String) (sel : Map String) (os : List (Object S)) (n : String)
      (o : Object S)
      → (list s ns sel).0 ≡ ok os
      → stored s ns n ≡ some o
      → selected sel o.labels ≡ true
      → keeps os ns n ≡ true
  pub create-others :
      (s : Server) (o : Object S) (a b : String)
      → at o a b ≡ false
      → stored (create s o).1 a b ≡ stored s a b
  pub create-done :
      (s : Server) (o : Object S)
      → (create s o).0 ≡ none
      → stored (create s o).1 o.namespace o.name ≡ some o
  pub patch-others :
      (s : Server) (o : Object S) (a b : String)
      → at o a b ≡ false
      → stored (patch s o).1 a b ≡ stored s a b
  pub patch-done :
      (s : Server) (o : Object S)
      → (patch s o).0 ≡ none
      → stored (patch s o).1 o.namespace o.name ≡ some o
  pub delete-others :
      (s : Server) (o : Object S) (a b : String)
      → at o a b ≡ false
      → stored (delete s o).1 a b ≡ stored s a b
  pub delete-done :
      (s : Server) (o : Object S)
      → (delete s o).0 ≡ none
      → stored (delete s o).1 o.namespace o.name ≡ none
