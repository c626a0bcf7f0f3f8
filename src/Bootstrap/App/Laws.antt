-- ===== src/Bootstrap/App/Laws.antt =====
-- Starting and unwinding an application (bootstrap/app.go).
use go_ddd_core.Prelude.{
  String, ◌≡◌, none, some, List, [], ◌∷◌, ◌++◌, append-nil, append_assoc, arith, All,
}
use go_ddd_core.Errors.{Error}
use go_ddd_core.Bootstrap.Lifecycle
use go_ddd_core.Bootstrap.Lifecycle.{Hook}
use go_ddd_core.Bootstrap.Lifecycle.Laws.{unwound, stop_lem}
use go_ddd_core.Bootstrap.App.{
  Container, Module, add_stop, start_error, start_modules, start, stop, run,
}

module _ {W V F : Type 0} where
  -- A module that leaves the lifecycle as it is during its Start.
  abbrev pub AddsNoHook : Module W V F → Type 0
  AddsNoHook m = (s : Container W V F × W) → (m.start s).0.0.lifecycle ≡ s.0.lifecycle

  -- The stop hooks of the modules, in their order.
  abbrev pub stop_hooks : List (Module W V F) → List (Hook W)
  stop_hooks [] = []
  stop_hooks (m ∷ ms) = record { name = m.name; run = m.stop } ∷ stop_hooks ms

module _ {W V F : Type 0} (quote : String → String) where
  start_modules-stops :
      (ms : List (Module W V F)) (s t : Container W V F × W)
      → All AddsNoHook ms
      → start_modules quote ms s ≡ (t, none)
      → t.0.lifecycle.stops ≡ s.0.lifecycle.stops ++ stop_hooks ms
  unfolding start_modules Lifecycle.append_stop
  start_modules-stops [] s t h p = ground (arith, append-nil s.0.lifecycle.stops)
  start_modules-stops (m ∷ ms) s t (h, hs) p = ground (
    arith,
    h s,
    append_assoc s.0.lifecycle.stops (record { name = m.name; run = m.stop } ∷ []) (stop_hooks ms),
    start_modules-stops ms (add_stop m (m.start s).0.0, (m.start s).0.1) t hs,
  )

  start_modules-append :
      (ms ns : List (Module W V F)) (s t : Container W V F × W)
      → start_modules quote ms s ≡ (t, none)
      → start_modules quote (ms ++ ns) s ≡ start_modules quote ns t
  unfolding start_modules
  start_modules-append [] ns s t p = ground arith
  start_modules-append (m ∷ ms) ns s t p =
      ground (arith, start_modules-append ms ns (add_stop m (m.start s).0.0, (m.start s).0.1) t)

  start_modules_failing :
      (ms ns : List (Module W V F)) (m : Module W V F) (s t u : Container W V F × W) (e : Error)
      → start_modules quote ms s ≡ (t, none)
      → m.start t ≡ (u, some e)
      → start quote (ms ++ m ∷ ns) s ≡ (u, some (start_error quote m.name e))
  unfolding start start_modules
  start_modules_failing ms ns m s t u e p q = ground (arith, start_modules-append ms (m ∷ ns) s t p)

  -- If a module fails to start after the modules before it have started, and none of them touches the
  -- lifecycle itself, Run returns its error wrapped with its name, after exactly the modules before it
  -- (and the stop hooks that were registered already) have been stopped, the last started first: the
  -- failed module is not stopped and those after it never start.
  pub run_unwinds :
      (waited : W → W) (ms ns : List (Module W V F)) (m : Module W V F)
      (s t u : Container W V F × W) (e : Error)
      → All AddsNoHook ms
      → AddsNoHook m
      → start_modules quote ms s ≡ (t, none)
      → m.start t ≡ (u, some e)
      → run quote waited (ms ++ m ∷ ns) s ≡ (
        (u.0, unwound (s.0.lifecycle.stops ++ stop_hooks ms) u.1),
        some (start_error quote m.name e),
      )
  unfolding run stop
  run_unwinds waited ms ns m s t u e hs h p q =
      let before : (m.start t).0.0.lifecycle ≡ t.0.lifecycle = h t in
      let same : u.0.lifecycle ≡ t.0.lifecycle = rw q at before in
      ground (
        arith,
        same,
        start_modules_failing ms ns m s t u e p q,
        stop_lem u.0.lifecycle u.1,
        start_modules-stops ms s t hs p,
      )
