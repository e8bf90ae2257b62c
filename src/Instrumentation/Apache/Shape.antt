-- ===== src/Instrumentation/Apache/Shape.antt =====
-- What injectApacheHttpdagent changes of a pod's containers.
use opentelemetry_operator.Prelude.{
  ℕ, String, List, [], ◌∷◌, ◌++◌, some, ◌≡◌, refl, sym, inl, inr, Bool-cases, get_elem?, set, arith,
}
use opentelemetry_operator.GoMap.{Map}
use opentelemetry_operator.Kube.{Container, Pod}
use opentelemetry_operator.Instrumentation.Types.{ApacheHttpd}
use opentelemetry_operator.Instrumentation.Env.{inject_env}
use opentelemetry_operator.Instrumentation.Apache.{
  inject_apache_httpdagent, is_apache_init_container_missing, clone_apache, attach_apache,
  clone_container, mount_apache, attach_container, get_apache_otel_config, clone_name, attach_name,
}

-- The container at `i` is replaced by one of its name and image, and init containers may be added.
abbrev pub ApacheShape : Pod → ℕ → Container → Pod → Type 0
ApacheShape p i c q =
    (v : Container) × (is : List Container) × (v.name ≡ c.name)
    × (v.image ≡ c.image)
    × (q.containers ≡ set p.containers i v)
    × (q.init_containers ≡ p.init_containers ++ is)

append_nil {ℓ} : {A : Type ℓ} (xs : List A) → xs ≡ xs ++ []
append_nil [] = refl
append_nil (x ∷ xs) = rw (sym (append_nil xs)) refl

append_assoc {ℓ} : {A : Type ℓ} (xs ys zs : List A) → (xs ++ ys) ++ zs ≡ xs ++ (ys ++ zs)
append_assoc [] ys zs = refl
append_assoc (x ∷ xs) ys zs = rw (append_assoc xs ys zs) refl

clone_shape :
    (spec : ApacheHttpd) (p : Pod) (i : ℕ) (c : Container)
    → ApacheShape p i c (clone_apache spec p i c)
unfolding clone_apache mount_apache
clone_shape spec p i c = elim (Bool-cases (is_apache_init_container_missing p clone_name)) [
  | inl e ↦ (mount_apache c, clone_container spec c ∷ [], refl, refl, rw e refl, rw e refl)
  | inr e ↦ (c, [], refl, refl, rw e refl, rw e (append_nil p.init_containers))
]

attach_shape :
    (spec : ApacheHttpd) (p q : Pod) (i : ℕ) (c c' : Container) (endpoint : String) (m : Map String)
    → ApacheShape p i c q
    → ApacheShape p i c (attach_apache spec q c' endpoint m)
unfolding attach_apache
attach_shape spec p q i c c' endpoint m (v, is, named, image, cs, inits) =
    elim (Bool-cases (is_apache_init_container_missing q attach_name)) [
      | inl e ↦ (
        v,
        is ++ (attach_container spec (get_apache_otel_config q spec c' endpoint m) ∷ []),
        named,
        image,
        rw e cs,
        rw (e, inits) (append_assoc p.init_containers is _),
      )
      | inr e ↦ (v, is, named, image, rw e cs, rw e inits)
    ]

pub apache_shape :
    (spec : ApacheHttpd) (p : Pod) (i : ℕ) (c : Container) (endpoint : String) (m : Map String)
    → get_elem? p.containers i ≡ some c
    → (q : Pod) × (inject_apache_httpdagent spec p i endpoint m ≡ some q) × ApacheShape p i c q
unfolding inject_apache_httpdagent
apache_shape spec p i c endpoint m e =
    let c' = record c { env = inject_env c.env spec.env } in
    (
      attach_apache spec (clone_apache spec p i c') c' endpoint m,
      ground (arith, e),
      attach_shape spec p (clone_apache spec p i c') i c' c' endpoint m (clone_shape spec p i c'),
    )
