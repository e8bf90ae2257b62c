-- ===== src/Prelude/Text/Fold.antt =====
-- Texts that EqualFold takes for equal are interchangeable in it.
use Prim.Native.Nat.{ℕ}
use Prim.Native.String.{String}
use mathlib.Core.Path.{◌≡◌, refl, ap, ◌∙◌, sym}
use mathlib.Core.Bool.{true, false}
use mathlib.Core.List.{List, [], ◌∷◌, map}
use mathlib.Core.Logic.{inl, inr}
use text.Mathlib.Text.{◌==◌}
use native.Mathlib.Omega.{arith}
use opentelemetry_operator.Prelude.Tests.{String-cases}
use opentelemetry_operator.Prelude.Text.{equal_fold, same_codes, codes, fold_code}

same_codes-eq : (ms ns : List ℕ) → same_codes ms ns ≡ true → ms ≡ ns
unfolding same_codes
same_codes-eq [] [] h = refl
same_codes-eq [] (n ∷ ns) h = absurd (cc)
same_codes-eq (m ∷ ms) [] h = absurd (cc)
same_codes-eq (m ∷ ms) (n ∷ ns) h = ground (arith, h, same_codes-eq ms ns)

equal_fold-subst : (s t u : String) → equal_fold s t ≡ true → equal_fold s u ≡ equal_fold t u
unfolding equal_fold
equal_fold-subst s t u h =
    ap (λ x. same_codes x (map fold_code (codes u)))
      (same_codes-eq (map fold_code (codes s)) (map fold_code (codes t)) h)

-- A text that says false says neither nothing nor true.
pub refusal_not_empty : (s : String) → equal_fold s "false" ≡ true → (s == "") ≡ false
unfolding equal_fold
refusal_not_empty s h = elim (String-cases s "") [
  | inl e ↦
      let never : equal_fold "" "false" ≡ false = refl in
      let always : equal_fold "" "false" ≡ true = ap (λ t. equal_fold t "false") (sym e) ∙ h in
      absurd (cc (never, always))
  | inr e ↦ e
]

pub refusal_not_true : (s : String) → equal_fold s "false" ≡ true → equal_fold s "true" ≡ false
unfolding equal_fold
refusal_not_true s h = equal_fold-subst s "false" "true" h
