-- ===== src/Bootstrap/App.antt =====
-- bootstrap/app.go and bootstrap/module.go. The container is what a module can change during its Start:
-- the lifecycle, the published values and the registry. The list of modules stands beside it: Start
-- works on a copy, so a module that calls Use has no effect on the Start that runs. `quote` is fmt's %q.
pub mod Laws
use Prim.Native.String.{◌++◌ as ◌+++◌}
use go_ddd_core.Prelude.{ℕ, String, Option, none, some, List, [], ◌∷◌, ◌++◌, if◌then◌else◌}
use go_ddd_core.Prelude.Int.{ℤ, pos, leb_ℤ}
use go_ddd_core.Prelude.Dict.{Dict, lookup, insert}
use go_ddd_core.Errors.{Error, wrapped, error_text}
use go_ddd_core.Bootstrap.Lifecycle
use go_ddd_core.Bootstrap.Lifecycle.{Action, Lifecycle}
use go_ddd_core.Bootstrap.Registry.{AdapterRegistry, new_adapter_registry}

-- Over the program state `W`, the values `V` and the adapter factories `F`.
pub record Container (W V F : Type 0) : Type 0 where
  pub lifecycle : Lifecycle W
  pub values : Dict V
  pub registry : AdapterRegistry F
  pub shutdown_timeout : ℤ

-- A `Module` by its three methods.
pub record Module (W V F : Type 0) : Type 0 where
  pub name : String
  pub start : Container W V F × W → (Container W V F × W) × Option Error
  pub stop : Action W

abbrev optional_start :
    {W V F : Type 0}
    → Option (Container W V F × W → (Container W V F × W) × Option Error)
    → Container W V F × W
    → (Container W V F × W) × Option Error
optional_start none s = (s, none)
optional_start (some f) s = f s

abbrev optional_stop : {W : Type 0} → Option (Action W) → Action W
optional_stop none w = (w, none)
optional_stop (some f) w = f w

abbrev registry_or_new : {F : Type 0} → Option (AdapterRegistry F) → AdapterRegistry F
registry_or_new none = new_adapter_registry
registry_or_new (some r) = r

-- `fmt.Errorf("bootstrap: start module %q: %w", name, err)`
abbrev pub start_error : (String → String) → String → Error → Error
start_error quote name e =
    wrapped (◌+++◌ "bootstrap: start module " (◌+++◌ (quote name) (◌+++◌ ": " (error_text e)))) e

module _ {W V F : Type 0} where
  -- `ModuleFunc`: a nil StartFn or StopFn succeeds and does nothing.
  unfoldable pub module_func :
      String
      → Option (Container W V F × W → (Container W V F × W) × Option Error)
      → Option (Action W)
      → Module W V F
  module_func n f g = record { name = n; start = optional_start f; stop = optional_stop g }

  -- `New(opts)`; durations are in nanoseconds, and the default is 15 seconds.
  unfoldable pub new : Option (AdapterRegistry F) → ℤ → Container W V F
  new reg timeout = record {
    lifecycle = record { starts = []; stops = [] };
    values = [];
    registry = registry_or_new reg;
    shutdown_timeout = if leb_ℤ timeout (pos 0) then pos 15_000_000_000 else timeout;
  }

  -- `a.Set(key, value)`
  unfoldable pub set : String → V → Container W V F → Container W V F
  set key value c = record c { values = insert key value c.values }

  -- `a.Get(key)`
  unfoldable pub get : String → Container W V F → Option V
  get key c = lookup key c.values

  -- `a.Use(modules...)`, on the list of modules.
  unfoldable pub use_modules : List (Module W V F) → List (Module W V F) → List (Module W V F)
  use_modules new_ones ms = ms ++ new_ones

  -- The stop hook of a module that has started.
  abbrev pub add_stop : Module W V F → Container W V F → Container W V F
  add_stop m c = record c { lifecycle = Lifecycle.append_stop m.name (some m.stop) c.lifecycle }

module _ {W V F : Type 0} (quote : String → String) where
  -- The loop of `Start` over the modules.
  unfoldable pub start_modules :
      List (Module W V F) → Container W V F × W → (Container W V F × W) × Option Error
  start_modules [] s = (s, none)
  start_modules (m ∷ ms) s =
      let (t, x) = m.start s in
      elim x [
        | some e ↦ (t, some (start_error quote m.name e))
        | none ↦ start_modules ms (add_stop m t.0, t.1)
      ]

  -- `a.Start(ctx)`
  unfoldable pub start :
      List (Module W V F) → Container W V F × W → (Container W V F × W) × Option Error
  start ms s =
      let (t, x) = start_modules ms s in
      elim x [
        | some e ↦ (t, some e)
        | none ↦ let (w, y) = Lifecycle.start t.0.lifecycle t.1 in ((t.0, w), y)
      ]

  -- `a.Stop(ctx)`
  unfoldable pub stop : Container W V F × W → (Container W V F × W) × Option Error
  stop s = let (w, y) = Lifecycle.stop s.0.lifecycle s.1 in ((s.0, w), y)

  -- `a.Run(ctx)`; `waited` is what happens to the program state until the signal comes.
  unfoldable pub run :
      (W → W) → List (Module W V F) → Container W V F × W → (Container W V F × W) × Option Error
  run waited ms s =
      let (t, x) = start ms s in
      elim x [ some e ↦ ((stop t).0, some e) | none ↦ stop (t.0, waited t.1) ]
