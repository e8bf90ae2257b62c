-- ===== src/Yaml.antt =====
-- The values that gopkg.in/yaml.v2 reads a configuration into, and the loops over its maps. A key is a
-- text; the code panics on others. A loop visits a map in the order of its list, which is any order.
pub mod Laws
pub mod Same
use opentelemetry_operator.Prelude.{
  String, Bool, true, false, Option, none, some, List, ◌==◌, if◌then◌else◌,
}
use opentelemetry_operator.Prelude.Int.{ℤ}
use opentelemetry_operator.GoMap.{Map}

-- A []map[string]string is not what a configuration is read into, but what the code puts there.
mutual
  pub data Value : Type 0 where
    null : Value
    bool : Bool → Value
    num : ℤ → Value
    str : String → Value
    seq : Items → Value
    string_maps : List (Map String) → Value
    obj : Fields → Value

  pub data Items : Type 0 where
    nil : Items
    item : Value → Items → Items

  pub data Fields : Type 0 where
    end : Fields
    field : String → Value → Fields → Fields

-- m[k]
unfoldable pub find : Fields → String → Option Value
find end k = none
find (field j v m) k = if j == k then some v else find m k

-- m[k] = v
unfoldable pub set : Fields → String → Value → Fields
set end k v = field k v end
set (field j w m) k v = if j == k then field j v m else field j w (set m k v)

-- delete(m, k)
unfoldable pub remove : Fields → String → Fields
remove end k = end
remove (field j w m) k = let rest = remove m k in if j == k then rest else field j w rest

-- v.(map[interface{}]interface{})
abbrev pub as_map : Option Value → Option Fields
as_map (some (obj m)) = some m
as_map _ = none

abbrev pub is_end : Fields → Bool
is_end end = true
is_end (field k v m) = false

-- What a round of a loop over a map does: it writes its key's value or deletes its key, or the function
-- returns at once, with the collector as it was, with an error, or by a panic.
pub data Round : Type 0 where
  keep : Value → Round
  drop : Round
  leave : Round
  fail : String → Round
  panic : Round

pub data Edited : Type 0 where
  edited : Fields → Edited
  left : Edited
  failed : String → Edited
  panicked : Edited

abbrev pub and_rest : Round → String → Edited → Edited
and_rest leave k rest = left
and_rest (fail e) k rest = failed e
and_rest panic k rest = panicked
and_rest drop k rest = rest
and_rest (keep v) k (edited m) = edited (field k v m)
and_rest (keep v) k left = left
and_rest (keep v) k (failed e) = failed e
and_rest (keep v) k panicked = panicked

unfoldable pub each : (String → Value → Round) → Fields → Edited
each f end = edited end
each f (field k v m) = and_rest (f k v) k (each f m)

abbrev pub then_edit : Edited → (Fields → Edited) → Edited
then_edit (edited m) f = f m
then_edit left f = left
then_edit (failed e) f = failed e
then_edit panicked f = panicked

-- The round that the result of an inner loop makes.
abbrev pub as_round : Edited → Round
as_round (edited m) = keep (obj m)
as_round left = leave
as_round (failed e) = fail e
as_round panicked = panic
