-- ===== src/Bootstrap/Lifecycle/Laws.antt =====
-- Order and error handling of start and stop (bootstrap/lifecycle.go).
use go_ddd_core.Prelude.{◌≡◌, refl, ◌∙◌, none, some, List, [], ◌∷◌, ◌++◌, reverse, arith}
use mathlib.Core.List.{reverse-cons}
use go_ddd_core.Errors.{Error, join}
use go_ddd_core.Bootstrap.Lifecycle.{
  Hook, Lifecycle, start_loop, start, append_error, stop_loop, stop,
}

module _ {W : Type 0} where
  -- The state after the hooks have run from the last to the first, each whatever the others returned.
  abbrev pub unwound : List (Hook W) → W → W
  unwound [] w = w
  unwound (h ∷ hs) w = (h.run (unwound hs w)).0

  -- The errors of that run, in the order in which they occurred.
  abbrev pub failures : List (Hook W) → W → List Error
  failures [] w = []
  failures (h ∷ hs) w = append_error (failures hs w) (h.run (unwound hs w)).1

  stop_loop-append :
      (xs ys : List (Hook W)) (errs : List Error) (w : W)
      → let (w', errs') = stop_loop xs errs w in stop_loop (xs ++ ys) errs w ≡ stop_loop ys errs' w'
  unfolding stop_loop
  stop_loop-append [] ys errs w = refl
  stop_loop-append (x ∷ xs) ys errs w =
      stop_loop-append xs ys (append_error errs (x.run w).1) (x.run w).0

  stop_loop-reverse :
      (hs : List (Hook W)) (w : W) → stop_loop (reverse hs) [] w ≡ (unwound hs w, failures hs w)
  unfolding stop_loop
  stop_loop-reverse [] w = refl
  stop_loop-reverse (h ∷ hs) w =
      rw (reverse-cons h hs)
        (stop_loop-append (reverse hs) (h ∷ []) [] w ∙ rw (stop_loop-reverse hs w))

  -- Stop runs every stop hook exactly once, the last registered first, also after a hook has failed,
  -- and returns all their errors joined, in the order in which they occurred: nil when there was none.
  pub stop_lem :
      (l : Lifecycle W) (w : W) → stop l w ≡ (unwound l.stops w, join (failures l.stops w))
  unfolding stop
  stop_lem l w = rw (stop_loop-reverse l.stops w)

  start_loop_failing :
      (xs ys : List (Hook W)) (h : Hook W) (w u v : W) (e : Error)
      → start_loop xs w ≡ (u, none)
      → h.run u ≡ (v, some e)
      → start_loop (xs ++ h ∷ ys) w ≡ (v, some e)
  unfolding start_loop
  start_loop_failing [] ys h w u v e p q = ground arith
  start_loop_failing (x ∷ xs) ys h w u v e p q =
      ground (arith, start_loop_failing xs ys h (x.run w).0 u v e)

  -- Start runs the start hooks in registration order up to the first that fails: it returns that
  -- hook's error and state, and the hooks after it do not run.
  start_failing :
      (l : Lifecycle W) (xs ys : List (Hook W)) (h : Hook W) (w u v : W) (e : Error)
      → l.starts ≡ xs ++ h ∷ ys
      → start (record { starts = xs; stops = l.stops }) w ≡ (u, none)
      → h.run u ≡ (v, some e)
      → start l w ≡ (v, some e)
  unfolding start
  start_failing l xs ys h w u v e s p q = rw s (start_loop_failing xs ys h w u v e p q)
