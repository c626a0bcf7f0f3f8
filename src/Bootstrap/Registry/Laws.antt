-- ===== src/Bootstrap/Registry/Laws.antt =====
-- What Resolve finds (bootstrap/registry.go).
use go_ddd_core.Prelude.{
  String, ◌≡◌, refl, ap, true, ◌&&◌, inl, inr, Option, none, some, str_eq, if◌then◌else◌, arith,
  eq_iff, eq_refl, Bool-cases,
}
use go_ddd_core.Prelude.Dict.{Dict, lookup, insert, lookup-insert}
use go_ddd_core.Errors.{Error, Result, ok, err, error_is}
use go_ddd_core.Bootstrap.Registry.{AdapterRegistry, register, resolve, drivers_or_new}

abbrev pub to_option : {A : Type 0} → Result A → Option A
to_option (ok a) = some a
to_option (err e) = none

module _ {F : Type 0} (quote : String → String) where
  -- What is found for a kind and a driver in a map of maps.
  abbrev found_driver : String → Option (Dict F) → Option F
  found_driver driver none = none
  found_driver driver (some d) = lookup driver d

  resolve-found_driver :
      (kind driver : String) (r : AdapterRegistry F)
      → to_option (resolve quote kind driver r) ≡ found_driver driver (lookup kind r.factories)
  unfolding resolve
  resolve-found_driver kind driver r = ground arith

  lookup-drivers_or_new :
      (driver : String) (o : Option (Dict F))
      → lookup driver (drivers_or_new o) ≡ found_driver driver o
  unfolding lookup
  lookup-drivers_or_new driver none = refl
  lookup-drivers_or_new driver (some d) = refl

  -- After Register, Resolve finds the new factory under exactly that kind and driver, in place of one
  -- registered before, and for every other pair what it found before: in particular a second driver of
  -- a kind does not hide the first.
  resolve-register :
      (k d kind driver : String) (f : F) (r : AdapterRegistry F)
      → to_option (resolve quote kind driver (register k d f r)) ≡ (
          if str_eq k kind && str_eq d driver
          then some f
          else to_option (resolve quote kind driver r))
  unfolding register
  resolve-register k d kind driver f r =
      rw
        (
          resolve-found_driver kind driver (register k d f r),
          resolve-found_driver kind driver r,
          lookup-insert k kind (insert d f (drivers_or_new (lookup k r.factories))) r.factories,
        )
        (elim (Bool-cases (str_eq k kind)) [
          | inl hit ↦
              rw (hit, lookup-insert d driver f (drivers_or_new (lookup k r.factories)))
                (rw (← (eq_iff k kind).0 hit) (
                  ap (λ x. if str_eq d driver then some f else x)
                    (lookup-drivers_or_new driver (lookup k r.factories))))
          | inr miss ↦ rw miss
        ])

  -- A pair that is not found is always reported as an error that wraps ErrAdapterNotFound, whether the
  -- kind or only the driver is missing.
  resolve_missing :
      (kind driver : String) (r : AdapterRegistry F) (e : Error)
      → resolve quote kind driver r ≡ err e
      → error_is "bootstrap: adapter not found" e ≡ true
  unfolding resolve error_is
  resolve_missing kind driver r e h = ground (arith, eq_refl "bootstrap: adapter not found")
