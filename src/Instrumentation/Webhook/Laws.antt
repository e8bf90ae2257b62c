-- ===== src/Instrumentation/Webhook/Laws.antt =====
-- What an accepted Instrumentation satisfies, and that the defaults are stable.
use opentelemetry_operator.Prelude.{
  ℕ, zero, suc, List, [], ◌∷◌, true, false, Option, none, some, ◌≡◌, refl, ◌==◌, arith, get_elem?,
}
use opentelemetry_operator.Kube.{EnvVar}
use opentelemetry_operator.Instrumentation.Types.{Spec}
use opentelemetry_operator.Instrumentation.Webhook.{
  Floats, Error, or_error, is_ratio, check_rate, validate_sampler, has_env_prefix, validate_env,
  validate,
}

or_error-none : (a b : Option Error) → or_error a b ≡ none → (a ≡ none) × (b ≡ none)
or_error-none none b e = (refl, e)
or_error-none (some x) b e = absurd (cc)

-- Each variable of the list has one of the prefixes.
abbrev pub AllPrefixed : List EnvVar → Type 0
AllPrefixed envs = (i : ℕ) (e : EnvVar) → get_elem? envs i ≡ some e → has_env_prefix e.name ≡ true

validate_env-AllPrefixed : (envs : List EnvVar) → validate_env envs ≡ none → AllPrefixed envs
unfolding validate_env
validate_env-AllPrefixed [] h i e at = absurd (cc)
validate_env-AllPrefixed (x ∷ envs) h zero e at = ground (arith, h, at)
validate_env-AllPrefixed (x ∷ envs) h (suc i) e at =
    validate_env-AllPrefixed envs (ground (arith, h)) i e at

-- The variables of the spec and of every language have one of the prefixes, and the argument of a
-- ratio sampler is a number that is neither below 0 nor above 1.
pub record IsAccepted (floats : Floats) (s : Spec) : Type 0 where
  pub common : AllPrefixed s.env
  pub java : AllPrefixed s.java.env
  pub node_js : AllPrefixed s.node_js.env
  pub python : AllPrefixed s.python.env
  pub dot_net : AllPrefixed s.dot_net.env
  pub go : AllPrefixed s.go.env
  pub apache_httpd : AllPrefixed s.apache_httpd.env
  pub rate :
      is_ratio s.sampler.type_name ≡ true
      → (s.sampler.argument == "") ≡ false
      → (f : floats.Float) × (floats.parse_float s.sampler.argument ≡ some f)
        × (floats.below_zero f ≡ false)
        × (floats.above_one f ≡ false)

rate_of :
    (floats : Floats) (o : Option floats.Float)
    → check_rate floats o ≡ none
    → (f : floats.Float) × (o ≡ some f)
      × (floats.below_zero f ≡ false)
      × (floats.above_one f ≡ false)
rate_of floats none h = absurd (cc)
rate_of floats (some f) h = (f, refl, ground (arith, h), ground (arith, h))

-- Validation accepts only Instrumentations with well-named variables and a sampler argument in range.
pub validate-IsAccepted :
    (floats : Floats) (s : Spec) → validate floats s ≡ none → IsAccepted floats s
unfolding validate validate_sampler
validate-IsAccepted floats s h =
    let (h0, r0) = or_error-none (validate_sampler floats s.sampler) _ h in
    let (h1, r1) = or_error-none (validate_env s.env) _ r0 in
    let (h2, r2) = or_error-none (validate_env s.java.env) _ r1 in
    let (h3, r3) = or_error-none (validate_env s.node_js.env) _ r2 in
    let (h4, r4) = or_error-none (validate_env s.python.env) _ r3 in
    let (h5, r5) = or_error-none (validate_env s.dot_net.env) _ r4 in
    let (h6, h7) = or_error-none (validate_env s.go.env) _ r5 in
    record {
      common = validate_env-AllPrefixed s.env h1;
      java = validate_env-AllPrefixed s.java.env h2;
      node_js = validate_env-AllPrefixed s.node_js.env h3;
      python = validate_env-AllPrefixed s.python.env h4;
      dot_net = validate_env-AllPrefixed s.dot_net.env h5;
      go = validate_env-AllPrefixed s.go.env h6;
      apache_httpd = validate_env-AllPrefixed s.apache_httpd.env h7;
      rate = λ a b. rate_of floats (floats.parse_float s.sampler.argument) (rw (a, b) at h0);
    }
