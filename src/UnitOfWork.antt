-- ===== src/UnitOfWork.antt =====
-- application/unitofwork.go over the state `S` that a transaction changes, with TxManager of
-- ports/database/database.go. A panic and a context are not modelled.
use go_ddd_core.Prelude.{Option, none, some, ◌≡◌}
use go_ddd_core.Errors.{Error}

-- What runs in a transaction: it changes the state, and returns nil or an error.
abbrev pub TxFunc : Type 0 → Type 0
TxFunc S = S → S × Option Error

-- `database.TxManager` by its method WithinTx, and `UnitOfWork` by its method Do.
pub record TxManager (S : Type 0) : Type 0 where
  pub within_tx : TxFunc S → TxFunc S

pub record UnitOfWork (S : Type 0) : Type 0 where
  pub run : TxFunc S → TxFunc S

module _ {S : Type 0} where
  -- `UnitOfWorkFunc(f)`
  unfoldable pub unit_of_work_func : (TxFunc S → TxFunc S) → UnitOfWork S
  unit_of_work_func f = record { run = f }

  -- `UnitOfWorkFromTxManager(tm)`
  unfoldable pub unit_of_work_from_tx_manager : TxManager S → UnitOfWork S
  unfolding unit_of_work_func
  unit_of_work_from_tx_manager tm = unit_of_work_func (λ fn. tm.within_tx (λ s. fn s))

  -- The documented behaviour of a TxManager: it commits what `fn` has done if `fn` returns nil, and
  -- otherwise undoes it and returns the error.
  abbrev pub settled : S → S × Option Error → S × Option Error
  settled s (t, none) = (t, none)
  settled s (t, some e) = (s, some e)

  -- A unit of work over such a manager does everything or nothing.
  unit_of_work_settles :
      (tm : TxManager S)
      → ((fn : TxFunc S) (s : S) → tm.within_tx fn s ≡ settled s (fn s))
      → (fn : TxFunc S) (s : S) → (unit_of_work_from_tx_manager tm).run fn s ≡ settled s (fn s)
  unfolding unit_of_work_from_tx_manager
  unit_of_work_settles tm h fn s = h fn s
