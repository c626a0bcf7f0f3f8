-- ===== src/Bootstrap/Lifecycle.antt =====
-- bootstrap/lifecycle.go.
pub mod Laws
use go_ddd_core.Prelude.{String, Option, none, some, List, [], ◌∷◌, ◌++◌, reverse}
use go_ddd_core.Errors.{Error, join}

abbrev pub Action : Type 0 → Type 0
Action W = W → W × Option Error

-- A hook with a callback; a hook whose Run is nil is never stored.
pub record Hook (W : Type 0) : Type 0 where
  pub name : String
  pub run : Action W

pub record Lifecycle (W : Type 0) : Type 0 where
  pub starts : List (Hook W)
  pub stops : List (Hook W)

-- `if err != nil { errs = append(errs, err) }`
abbrev pub append_error : List Error → Option Error → List Error
append_error errs none = errs
append_error errs (some e) = errs ++ e ∷ []

module _ {W : Type 0} where
  -- `append(hooks, h)` under the test `h.Run != nil`, for a hook given by its name and Run.
  abbrev pub append_hook : List (Hook W) → String → Option (Action W) → List (Hook W)
  append_hook hs name none = hs
  append_hook hs name (some f) = hs ++ record { name = name; run = f } ∷ []

  -- `l.Append(start, stop)`
  unfoldable pub append_pair :
      String → Option (Action W) → String → Option (Action W) → Lifecycle W → Lifecycle W
  append_pair n start m stop l = record {
    starts = append_hook l.starts n start;
    stops = append_hook l.stops m stop;
  }

  -- `l.AppendStart(h)`
  unfoldable pub append_start : String → Option (Action W) → Lifecycle W → Lifecycle W
  append_start name f l = record l { starts = append_hook l.starts name f }

  -- `l.AppendStop(h)`
  unfoldable pub append_stop : String → Option (Action W) → Lifecycle W → Lifecycle W
  append_stop name f l = record l { stops = append_hook l.stops name f }

  -- The loop of `Start`, which returns the first error.
  unfoldable pub start_loop : List (Hook W) → Action W
  start_loop [] w = (w, none)
  start_loop (h ∷ hs) w =
      let (w', x) = h.run w in elim x [ some e ↦ (w', some e) | none ↦ start_loop hs w' ]

  -- `l.Start(ctx)`
  unfoldable pub start : Lifecycle W → Action W
  start l w = start_loop l.starts w

  -- The loop of `Stop`, over the hooks from the last to the first.
  unfoldable pub stop_loop : List (Hook W) → List Error → W → W × List Error
  stop_loop [] errs w = (w, errs)
  stop_loop (h ∷ hs) errs w = let (w', x) = h.run w in stop_loop hs (append_error errs x) w'

  -- `l.Stop(ctx)`
  unfoldable pub stop : Lifecycle W → Action W
  stop l w = let (w', errs) = stop_loop (reverse l.stops) [] w in (w', join errs)
