-- ===== src/Bootstrap/Registry.antt =====
-- bootstrap/registry.go. `quote` is fmt's %q, which only shapes the text of an error.
pub mod Laws
use Prim.Native.String.{◌++◌}
use go_ddd_core.Prelude.{String, Option, none, some, [], ◌∷◌}
use go_ddd_core.Prelude.Dict.{Dict, lookup, insert}
use go_ddd_core.Errors.{Error, Result, ok, err, plain, wrapped}

-- `ErrAdapterNotFound`
abbrev pub err_adapter_not_found : Error
err_adapter_not_found = plain "bootstrap: adapter not found"

pub record AdapterRegistry (F : Type 0) : Type 0 where
  pub factories : Dict (Dict F)

module _ {F : Type 0} where
  -- `NewAdapterRegistry()`
  unfoldable pub new_adapter_registry : AdapterRegistry F
  new_adapter_registry = record { factories = [] }

  -- The inner map of a kind: a new one if the kind is missing.
  abbrev pub drivers_or_new : Option (Dict F) → Dict F
  drivers_or_new none = []
  drivers_or_new (some d) = d

  -- `r.Register(kind, driver, f)`
  unfoldable pub register : String → String → F → AdapterRegistry F → AdapterRegistry F
  register kind driver f r = record {
    factories =
        insert kind (insert driver f (drivers_or_new (lookup kind r.factories))) r.factories;
  }

module _ {F : Type 0} (quote : String → String) where
  abbrev pub resolve_driver : String → String → Option F → Result F
  resolve_driver kind driver none = err (
      wrapped ("bootstrap: adapter not found: kind=" ++ quote kind ++ " driver=" ++ quote driver)
        err_adapter_not_found)
  resolve_driver kind driver (some f) = ok f

  abbrev pub resolve_kind : String → String → Option (Dict F) → Result F
  resolve_kind kind driver none =
      err (wrapped ("bootstrap: adapter not found: kind=" ++ quote kind) err_adapter_not_found)
  resolve_kind kind driver (some drivers) = resolve_driver kind driver (lookup driver drivers)

  -- `r.Resolve(kind, driver)`
  unfoldable pub resolve : String → String → AdapterRegistry F → Result F
  resolve kind driver r = resolve_kind kind driver (lookup kind r.factories)

-- `r.Build(ctx, kind, driver, cfg)`, where a factory is called on a configuration and may change the
-- program state.
unfoldable pub build :
    {C A W : Type 0} (quote : String → String)
    → String
    → String
    → C
    → AdapterRegistry (C → W → W × Result A)
    → W
    → W × Result A
build quote kind driver cfg r w = elim (resolve quote kind driver r) [
  | err e ↦ (w, err e)
  | ok f ↦ f cfg w
]
