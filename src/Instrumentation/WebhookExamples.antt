-- ===== src/Instrumentation/WebhookExamples.antt =====
-- The Instrumentation webhook on one object.
use opentelemetry_operator.Prelude.{
  ℕ, [], ◌∷◌, false, none, some, ◌≡◌, refl, ◌==◌, ltb, has_prefix, if◌then◌else◌,
}
use opentelemetry_operator.Instrumentation.Types.{Spec}
use opentelemetry_operator.Instrumentation.Env.{env_var}
use opentelemetry_operator.Instrumentation.Examples.{spec}
use opentelemetry_operator.Instrumentation.Webhook.{
  Floats, validate_sampler, validate_env, validate,
}

-- Tenths.
abbrev floats : Floats
floats = record {
  Float = ℕ;
  parse_float = λ s. if s == "0.5" then some 5 else none;
  below_zero = λ f. false;
  above_one = λ f. ltb 10 f;
}

abbrev half : Spec
half = record spec {
  env = env_var "SPLUNK_X" "x" ∷ [];
  sampler = record { type_name = "traceidratio"; argument = "0.5" };
}

accepted : validate floats half ≡ none
unfolding validate validate_sampler validate_env has_prefix
accepted = refl
