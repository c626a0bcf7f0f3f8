-- ===== src/Spec/Laws.antt =====
-- The laws of the specification combinators (application/query/spec/spec.go).
use go_ddd_core.Prelude.{◌≡◌, refl, ◌&&◌, ◌||◌, not, arith}
use go_ddd_core.Spec.{
  Spec, predicate, and_spec, or_spec, not_spec, is_satisfied_by, and, or, not_method,
}

module _ {ℓ} {T : Type ℓ} where
  is_satisfied_by-not_method :
      (s : Spec T) (t : T) → is_satisfied_by (not_method s) t ≡ not (is_satisfied_by s t)
  unfolding is_satisfied_by not_method
  is_satisfied_by-not_method (predicate p) t = refl
  is_satisfied_by-not_method (and_spec l r) t = refl
  is_satisfied_by-not_method (or_spec l r) t = refl
  is_satisfied_by-not_method (not_spec s) t = ground arith

  -- The combinators are the Boolean connectives on every candidate, the method Not, which strips a
  -- negation instead of nesting it, is still negation, and De Morgan's law holds through the methods.
  is_satisfied_by-combinators :
      (l r : Spec T) (t : T)
      → (is_satisfied_by (and l r) t ≡ (is_satisfied_by l t && is_satisfied_by r t))
        × (is_satisfied_by (or l r) t ≡ (is_satisfied_by l t || is_satisfied_by r t))
        × (is_satisfied_by (not_method l) t ≡ not (is_satisfied_by l t))
        × (is_satisfied_by (not_method (and l r)) t
            ≡ is_satisfied_by (or (not_method l) (not_method r)) t)
  unfolding is_satisfied_by and or
  is_satisfied_by-combinators l r t = (
    refl,
    refl,
    is_satisfied_by-not_method l t,
    rw
        (
          is_satisfied_by-not_method l t,
          is_satisfied_by-not_method r t,
          is_satisfied_by-not_method (and l r) t,
        )
        (ground arith),
  )
