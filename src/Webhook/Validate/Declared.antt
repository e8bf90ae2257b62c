-- ===== src/Webhook/Validate/Declared.antt =====
-- The bounds on the replicas that a spec declares, read off its fields, and what an accepted spec says of
-- them. The deprecated fields count where the autoscaler declares nothing, or zero.
use opentelemetry_operator.Prelude.{
  zero, suc, false, Option, none, some, ◌≡◌, ◌≢◌, ◌⊎◌, inl, inr, refl, ◌∙◌, arith,
}
use opentelemetry_operator.Prelude.Int.{ℤ, pos, negsuc, lt_int}
use opentelemetry_operator.Webhook.Types.{AutoscalerSpec, Spec}
use opentelemetry_operator.Webhook.Validate.{
  accept, above, Checks, is_zero, max_replicas, min_replicas, unless_zero, or_replicas, field,
  validate_crd_spec,
}
use opentelemetry_operator.Webhook.Validate.Bounds.{validate-IsBounded}

-- The autoscaler has this number, which is not zero.
abbrev pub Sets : Spec → (AutoscalerSpec → Option ℤ) → ℤ → Type 0
Sets s f n = ((a : AutoscalerSpec) × (s.autoscaler ≡ some a) × (f a ≡ some n)) × (n ≢ pos 0)

-- There is no autoscaler, or it has no such number, or zero.
abbrev pub Leaves : Spec → (AutoscalerSpec → Option ℤ) → Type 0
Leaves s f =
    (s.autoscaler ≡ none)
    ⊎ ((a : AutoscalerSpec) × (s.autoscaler ≡ some a) × ((f a ≡ none) ⊎ (f a ≡ some (pos 0))))

abbrev pub IsUpperBound : Spec → ℤ → Type 0
IsUpperBound s max =
    Sets s (λ a. a.max_replicas) max
    ⊎ (Leaves s (λ a. a.max_replicas) × (s.max_replicas ≡ some max))

abbrev pub IsLowerBound : Spec → ℤ → Type 0
IsLowerBound s min =
    Sets s (λ a. a.min_replicas) min
    ⊎ (Leaves s (λ a. a.min_replicas)
        × ((s.min_replicas ≡ some min) ⊎ ((s.min_replicas ≡ none) × (s.replicas ≡ some min))))

-- A number that may be missing is not greater.
abbrev pub IsAtMost : Option ℤ → ℤ → Type 0
IsAtMost none max = Unit
IsAtMost (some n) max = lt_int max n ≡ false

not_zero : (n : ℤ) → n ≢ pos 0 → is_zero n ≡ false
not_zero (pos zero) h = absurd (h refl)
not_zero (pos (suc n)) h = ground arith
not_zero (negsuc n) h = refl

module _ (s : Spec) (f : AutoscalerSpec → Option ℤ) (other : Option ℤ) where
  declared_own : (n : ℤ) → Sets s f n → unless_zero (field s.autoscaler f) other ≡ some n
  unfolding unless_zero
  declared_own n ((a, e, g), h) = rw (e, g, not_zero n h) refl

  declared_other : Leaves s f → unless_zero (field s.autoscaler f) other ≡ other
  unfolding unless_zero
  declared_other (inl e) = rw e refl
  declared_other (inr (a, e, inl g)) = rw (e, g) refl
  declared_other (inr (a, e, inr g)) = rw (e, g) (ground arith)

max-IsUpperBound : (s : Spec) (max : ℤ) → IsUpperBound s max → max_replicas s ≡ some max
unfolding max_replicas
max-IsUpperBound s max (inl own) = declared_own s (λ a. a.max_replicas) s.max_replicas max own
max-IsUpperBound s max (inr (leaves, e)) =
    declared_other s (λ a. a.max_replicas) s.max_replicas leaves ∙ e

min-IsLowerBound : (s : Spec) (min : ℤ) → IsLowerBound s min → min_replicas s ≡ some min
unfolding min_replicas or_replicas
min-IsLowerBound s min (inl own) =
    declared_own s (λ a. a.min_replicas) (or_replicas s.min_replicas s.replicas) min own
min-IsLowerBound s min (inr (leaves, inl e)) =
    declared_other s (λ a. a.min_replicas) (or_replicas s.min_replicas s.replicas) leaves
    ∙ rw (or_replicas, e) refl
min-IsLowerBound s min (inr (leaves, inr (e, g))) =
    declared_other s (λ a. a.min_replicas) (or_replicas s.min_replicas s.replicas) leaves
    ∙ rw (or_replicas, e) g

at_most : (o : Option ℤ) (max : ℤ) → above o max ≡ false → IsAtMost o max
at_most none max h = tt
at_most (some n) max h = h

-- Where an accepted spec declares an upper and a lower bound on its replicas, by the autoscaler or else
-- by the deprecated fields and the replicas, both are one or more, the lower one is not greater than the
-- upper one, and neither are the replicas.
pub validate-ordered :
    (checks : Checks) (s : Spec) (max min : ℤ)
    → validate_crd_spec checks s ≡ accept
    → IsUpperBound s max
    → IsLowerBound s min
    → (lt_int max (pos 1) ≡ false)
      × (lt_int min (pos 1) ≡ false)
      × (lt_int max min ≡ false)
      × IsAtMost s.replicas max
validate-ordered checks s max min accepted upper lower =
    let b = validate-IsBounded checks s max accepted (max-IsUpperBound s max upper) in
    let e = min-IsLowerBound s min lower in
    (b.positive, rw e at b.lower, rw e at b.ordered, at_most s.replicas max b.replicas)
