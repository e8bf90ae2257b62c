-- ===== src/Naming/Texts.antt =====
-- The bytes of a text, and fmt.Sprintf("%s.%s", namespace, name) over them.
use Prim.Native.Char.{code}
use Prim.Native.String.append
use opentelemetry_operator.Prelude.{String, List, [], ◌∷◌, ◌++◌, ◌≡◌, refl, sym, ap, ◌∙◌, ◌<+>◌}
use opentelemetry_operator.Naming.Truncate.{Bytes}
use opentelemetry_operator.Prometheus.Rewrite.Escape.{utf8}

-- []byte(s)
unfoldable pub bytes : String → Bytes
bytes String.[] = []
bytes (String.◌∷◌ c s) = utf8 (code c) ++ bytes s

unfoldable pub joined_by_dot : List Bytes → Bytes
joined_by_dot (namespace ∷ name ∷ []) = namespace ++ (46 ∷ name)
joined_by_dot _ = []

append_assoc : (xs ys zs : Bytes) → (xs ++ ys) ++ zs ≡ xs ++ (ys ++ zs)
append_assoc [] ys zs = refl
append_assoc (x ∷ xs) ys zs = rw (append_assoc xs ys zs) refl

bytes-append : (s t : String) → bytes (s <+> t) ≡ bytes s ++ bytes t
unfolding bytes
bytes-append String.[] t = ap bytes (append.nil t)
bytes-append (String.◌∷◌ c s) t =
    ap bytes (append.cons c s t)
    ∙ rw (bytes-append s t) (sym (append_assoc (utf8 (code c)) (bytes s) (bytes t)))

-- The text namespace.name has the bytes of the format.
pub bytes-joined_by_dot :
    (namespace name : String)
    → bytes (namespace <+> "." <+> name) ≡ joined_by_dot (bytes namespace ∷ bytes name ∷ [])
unfolding joined_by_dot bytes utf8
bytes-joined_by_dot namespace name =
    bytes-append namespace ("." <+> name) ∙ ap (λ bs. bytes namespace ++ bs) (bytes-append "." name)
