-- ===== src/Ports/Suite.antt =====
-- A conformance suite as a program over an interface that it does not know: a subtest is a script of
-- calls, each with what follows on its reply, and the two ways in which testing.T records a failure.
-- The scripts of the suites stand beside their ports; this file runs them.
use go_ddd_core.Prelude.{Bool, true, false, arith, ◌&&◌, ◌≡◌, refl, List, [], ◌∷◌, ◌++◌}

-- `t.Fatal` ends a subtest, `t.Error` marks it as failed and goes on; `renew` puts a store of the
-- factory in place of the current one.
pub data Script (C : Type 0) (R : C → Type 0) : Type 0 where
  done : Script C R
  fatal : Script C R
  error : Script C R → Script C R
  renew : Script C R → Script C R
  call : (c : C) → (R c → Script C R) → Script C R

module _ {C : Type 0} {R : C → Type 0} where
  -- `if !b { t.Fatal(...) }`
  abbrev pub require : Bool → Script C R → Script C R
  require true k = k
  require false k = fatal

  -- `if !b { t.Error(...) }`
  abbrev pub expect : Bool → Script C R → Script C R
  expect true k = k
  expect false k = error k

-- Whether a script passes on an implementation, from a state; `start` is what the factory makes.
unfoldable pub passes :
    {C : Type 0} {R : C → Type 0} {S : Type 0} → ((c : C) → S → S × R c) → S → Script C R → S → Bool
passes step start done s = true
passes step start fatal s = false
passes step start (error k) s = false
passes step start (renew k) s = passes step start k start
passes step start (call c k) s = let (t, r) = step c s in passes step start (k r) t

-- `t.Run` for each subtest, each with a new implementation from the factory.
unfoldable pub run_suite :
    {C : Type 0} {R : C → Type 0} {S : Type 0}
    → ((c : C) → S → S × R c)
    → S
    → List (Script C R)
    → Bool
run_suite step start [] = true
run_suite step start (k ∷ ks) = passes step start k start && run_suite step start ks

-- An implementation does what a model does, seen through a view of its state.
abbrev pub Follows :
    {C : Type 0} {R : C → Type 0} {S T : Type 0}
    → ((c : C) → S → S × R c)
    → ((c : C) → T → T × R c)
    → (S → T)
    → Type 0
Follows {C} step model view = (c : C) (s : _) → model c (view s) ≡ (view (step c s).0, (step c s).1)

module _ {C : Type 0} {R : C → Type 0} {S T : Type 0} (step : (c : C) → S → S × R c)
    (model : (c : C) → T → T × R c) (view : S → T) (start : S) (sim : Follows step model view) where
  passes-Follows :
      (k : Script C R) (s : S) → passes step start k s ≡ passes model (view start) k (view s)
  unfolding passes
  passes-Follows done s = refl
  passes-Follows fatal s = refl
  passes-Follows (error k) s = refl
  passes-Follows (renew k) s = passes-Follows k start
  passes-Follows (call c k) s = rw (sim c s) (passes-Follows (k (step c s).1) (step c s).0)

  pub run_suite-Follows :
      (ks : List (Script C R)) → run_suite step start ks ≡ run_suite model (view start) ks
  unfolding run_suite
  run_suite-Follows [] = refl
  run_suite-Follows (k ∷ ks) = rw (passes-Follows k start, run_suite-Follows ks) refl

and_left : (a b : Bool) → (a && b) ≡ true → a ≡ true
and_left a b h = ground arith

and_right : (a b : Bool) → (a && b) ≡ true → b ≡ true
and_right a b h = ground arith

and-false : (b : Bool) → (b && false) ≡ false
and-false true = refl
and-false false = refl

module _ {C : Type 0} {R : C → Type 0} {S : Type 0} (step : (c : C) → S → S × R c) (start : S) where
  -- A suite fails if one of its subtests fails.
  pub run_suite_failing :
      (xs ys : List (Script C R)) (k : Script C R)
      → passes step start k start ≡ false
      → run_suite step start (xs ++ k ∷ ys) ≡ false
  unfolding run_suite
  run_suite_failing [] ys k h = rw h refl
  run_suite_failing (x ∷ xs) ys k h =
      rw (run_suite_failing xs ys k h) (and-false (passes step start x start))

  pub run_suite_cons :
      (k : Script C R) (ks : List (Script C R))
      → passes step start k start ≡ true
      → run_suite step start ks ≡ true
      → run_suite step start (k ∷ ks) ≡ true
  unfolding run_suite
  run_suite_cons k ks h r = rw (h, r) refl

  pub run_suite_append :
      (xs ys : List (Script C R))
      → run_suite step start xs ≡ true
      → run_suite step start ys ≡ true
      → run_suite step start (xs ++ ys) ≡ true
  unfolding run_suite
  run_suite_append [] ys h r = r
  run_suite_append (x ∷ xs) ys h r =
      run_suite_cons x (xs ++ ys) (and_left (passes step start x start) (run_suite step start xs) h)
        (run_suite_append xs ys (and_right (passes step start x start) (run_suite step start xs) h)
          r)

  pub run_suite_nil : run_suite step start [] ≡ true
  unfolding run_suite
  run_suite_nil = refl

module _ {C : Type 0} {R : C → Type 0} {S : Type 0} (step : (c : C) → S → S × R c)
    (start s : S) where
  -- A check before a failing rest fails.
  pub require_fails :
      (b : Bool) (k : Script C R)
      → passes step start k s ≡ false
      → passes step start (require b k) s ≡ false
  unfolding passes
  require_fails true k h = h
  require_fails false k h = refl

  pub expect_fails :
      (b : Bool) (k : Script C R)
      → passes step start k s ≡ false
      → passes step start (expect b k) s ≡ false
  unfolding passes
  expect_fails true k h = h
  expect_fails false k h = refl

  pub call_fails :
      (c : C) (f : R c → Script C R)
      → passes step start (f (step c s).1) (step c s).0 ≡ false
      → passes step start (call c f) s ≡ false
  unfolding passes
  call_fails c f h = h

module _ {C : Type 0} {R : C → Type 0} {S : Type 0} (step : (c : C) → S → S × R c)
    (start s : S) where
  -- A check before two rests that agree agrees.
  pub require_same :
      (b : Bool) (j k : Script C R)
      → passes step start j s ≡ passes step start k s
      → passes step start (require b j) s ≡ passes step start (require b k) s
  require_same true j k h = h
  require_same false j k h = refl

  pub expect_same :
      (b : Bool) (j k : Script C R)
      → passes step start j s ≡ passes step start k s
      → passes step start (expect b j) s ≡ passes step start (expect b k) s
  unfolding passes
  expect_same true j k h = h
  expect_same false j k h = refl

  pub call_same :
      (c : C) (f g : R c → Script C R)
      → passes step start (f (step c s).1) (step c s).0
        ≡ passes step start (g (step c s).1) (step c s).0
      → passes step start (call c f) s ≡ passes step start (call c g) s
  unfolding passes
  call_same c f g h = h
