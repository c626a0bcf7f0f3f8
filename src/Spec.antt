-- ===== src/Spec.antt =====
-- application/query/spec/spec.go. A specification that the package does not define, such as an
-- adapter's own struct, is known by its IsSatisfiedBy and stands as a predicate.
pub mod Laws
use go_ddd_core.Prelude.{Bool, ◌&&◌, ◌||◌, not, Option, none, some}

pub data Spec {ℓ} (T : Type ℓ) : Type ℓ where
  predicate : (T → Bool) → Spec T
  and_spec or_spec : Spec T → Spec T → Spec T
  not_spec : Spec T → Spec T

module _ {ℓ} {T : Type ℓ} where
  -- `s.IsSatisfiedBy(t)`
  unfoldable pub is_satisfied_by : Spec T → T → Bool
  is_satisfied_by (predicate p) t = p t
  is_satisfied_by (and_spec l r) t = is_satisfied_by l t && is_satisfied_by r t
  is_satisfied_by (or_spec l r) t = is_satisfied_by l t || is_satisfied_by r t
  is_satisfied_by (not_spec s) t = not (is_satisfied_by s t)

  -- The functions `And`, `Or` and `Not`; the methods And and Or are the same.
  unfoldable pub and : Spec T → Spec T → Spec T
  and l r = and_spec l r

  unfoldable pub or : Spec T → Spec T → Spec T
  or l r = or_spec l r

  unfoldable pub negate : Spec T → Spec T
  negate s = not_spec s

  -- The method Not: of a negation it returns the inner specification.
  unfoldable pub not_method : Spec T → Spec T
  unfolding negate
  not_method (not_spec s) = s
  not_method (predicate p) = negate (predicate p)
  not_method (and_spec l r) = negate (and_spec l r)
  not_method (or_spec l r) = negate (or_spec l r)

  -- The side interfaces that a translator asserts: Left and Right of a Composite, Inner of a
  -- Negation.
  unfoldable pub operands : Spec T → Option (Spec T × Spec T)
  operands (and_spec l r) = some (l, r)
  operands (or_spec l r) = some (l, r)
  operands (predicate p) = none
  operands (not_spec s) = none

  unfoldable pub inner : Spec T → Option (Spec T)
  inner (not_spec s) = some s
  inner (predicate p) = none
  inner (and_spec l r) = none
  inner (or_spec l r) = none
