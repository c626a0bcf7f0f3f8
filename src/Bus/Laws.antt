-- ===== src/Bus/Laws.antt =====
-- Routing and middleware order of the in-memory bus (application/command, application/query).
use go_ddd_core.Prelude.{
  String, ◌≡◌, refl, ap, ◌∙◌, false, Option, some, List, [], ◌∷◌, ◌++◌, reverse, str_eq, eq_refl,
  if◌then◌else◌, Bool-cases, inl, inr,
}
use mathlib.Core.List.{reverse-cons}
use go_ddd_core.Prelude.Dict.{lookup, lookup-insert}
use go_ddd_core.Errors.{Error, err}
use go_ddd_core.Bus.{
  GoType, Value, type_eq, type_eq_refl, Effect, DispatchFunc, Middleware, InMemoryBus, chain_loop,
  chain, apply, typed, register_handler, register, dispatch, name_of, name_of_type,
}

module _ {P S R : Type 0} where
  chain_loop-append :
      (xs ys : List (Middleware P S R)) (f : DispatchFunc P S R)
      → chain_loop (xs ++ ys) f ≡ chain_loop ys (chain_loop xs f)
  unfolding chain_loop
  chain_loop-append [] ys f = refl
  chain_loop-append (x ∷ xs) ys f = chain_loop-append xs ys (x f)

  -- The middlewares around a function, the first of the list outermost.
  abbrev pub wrapped_by : List (Middleware P S R) → DispatchFunc P S R → DispatchFunc P S R
  wrapped_by [] f = f
  wrapped_by (m ∷ ms) f = m (wrapped_by ms f)

  -- The first middleware of a chain is the outermost and the last is next to the handler, and an
  -- empty chain leaves the handler as it is.
  chain-wrapped_by :
      (mws : List (Middleware P S R)) (f : DispatchFunc P S R) → chain mws f ≡ wrapped_by mws f
  unfolding chain chain_loop
  chain-wrapped_by [] f = refl
  chain-wrapped_by (m ∷ ms) f =
      rw (reverse-cons m ms)
        (chain_loop-append (reverse ms) (m ∷ []) f ∙ ap m (chain-wrapped_by ms f))

module _ {P S R : Type 0} (method : GoType → P → Option String) (probe : GoType → P) where
  lookup-register :
      (mm : Error) (t : GoType) (h : P → Effect S R) (b : InMemoryBus P S R) (j : String)
      → lookup j (register method mm probe t h b).handlers ≡ (
          if str_eq (name_of_type method probe t) j
          then some (wrapped_by b.middlewares (typed mm t h))
          else lookup j b.handlers)
  unfolding register register_handler apply
  lookup-register mm t h b j =
      rw (chain-wrapped_by b.middlewares (typed mm t h))
        (lookup-insert (name_of_type method probe t) j _ b.handlers)

  -- After Register, a command whose name is the one that the type was registered under goes to the
  -- new handler, inside the bus's middlewares, whatever was registered under that name before; every
  -- other command is dispatched as it was.
  pub dispatch-register :
      (mm nf : Error) (t : GoType) (c : Option (Value P)) (h : P → Effect S R)
      (b : InMemoryBus P S R)
      → dispatch method nf (register method mm probe t h b) c ≡ (
          if str_eq (name_of_type method probe t) (name_of method c)
          then wrapped_by b.middlewares (typed mm t h) c
          else dispatch method nf b c)
  unfolding dispatch
  dispatch-register mm nf t c h b =
      rw (lookup-register mm t h b (name_of method c))
        (elim (Bool-cases (str_eq (name_of_type method probe t) (name_of method c))) [
          | inl hit ↦ rw hit
          | inr miss ↦ rw miss
        ])

  -- The names used by Register and by Dispatch agree: if the naming method of a type gives the same
  -- result on every value, then on a bus without middlewares a value of a registered type reaches
  -- its handler, and the bus returns what the handler returns, whether the type is a pointer or not
  -- and whether or not it has the naming method.
  pub dispatch-register_typed :
      (mm nf : Error) (t : GoType) (p : P) (h : P → Effect S R) (b : InMemoryBus P S R)
      → method t p ≡ method t (probe t)
      → b.middlewares ≡ []
      → let v : Value P = record { dynamic_type = t; payload = p } in
        dispatch method nf (register method mm probe t h b) (some v) ≡ h p
  unfolding name_of name_of_type typed
  dispatch-register_typed mm nf t p h b same none_set =
      rw (dispatch-register mm nf t (some (record { dynamic_type = t; payload = p })) h b)
        (rw (same, eq_refl, none_set, type_eq_refl t))

  -- A value of another type that has the registered name, such as a type of the same name in another
  -- package, is refused as a mismatch: the handler does not run and the state stays as it was.
  dispatch-register_mismatch :
      (mm nf : Error) (t : GoType) (v : Value P) (h : P → Effect S R) (b : InMemoryBus P S R)
      (s : S)
      → b.middlewares ≡ []
      → name_of method (some v) ≡ name_of_type method probe t
      → type_eq v.dynamic_type t ≡ false
      → dispatch method nf (register method mm probe t h b) (some v) s ≡ (s, err mm)
  unfolding typed
  dispatch-register_mismatch mm nf t v h b s none_set same differ =
      rw (dispatch-register mm nf t (some v) h b) (rw (same, eq_refl, none_set, typed, differ))
