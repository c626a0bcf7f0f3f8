-- ===== src/Minimal/Account.antt =====
-- examples/minimal/domain/account. A method returns the account, changed or not, and its error.
-- Amounts are int64 values in cents, with Go's wrap-around. `now` is the time that an event reads.
pub mod Laws
pub mod Overdraft
use go_ddd_core.Prelude.{
  ℕ, String, Bool, true, false, Option, none, some, List, [], ◌∷◌, str_eq, if◌then◌else◌,
}
use go_ddd_core.Prelude.Int.{ℤ, pos, ltb_ℤ, leb_ℤ}
use go_ddd_core.Prelude.Int64.{add64, sub64, neg64}
use go_ddd_core.Errors.{Error, Result, ok, err, new_rule_violation}
use go_ddd_core.Domain.{
  BaseEvent, new_base_event, BaseAggregate, new_base_aggregate, record_event, increment_version,
}

pub data Status : Type 0 where
  status_open : Status
  status_frozen : Status
  status_closed : Status

pub data AccountEvent : Type 0 where
  account_opened : BaseEvent → ℤ → AccountEvent
  money_withdrawn : BaseEvent → ℤ → ℤ → AccountEvent
  money_deposited : BaseEvent → ℤ → ℤ → AccountEvent
  account_frozen : BaseEvent → String → AccountEvent
  account_closed : BaseEvent → AccountEvent
  overdraft_limit_changed : BaseEvent → ℤ → AccountEvent

-- The embedded `BaseEvent`.
abbrev pub base_event : AccountEvent → BaseEvent
base_event (account_opened b deposit) = b
base_event (money_withdrawn b amount after) = b
base_event (money_deposited b amount after) = b
base_event (account_frozen b reason) = b
base_event (account_closed b) = b
base_event (overdraft_limit_changed b limit) = b

unfoldable pub new_account_opened : ℕ → String → String → ℤ → ℤ → AccountEvent
new_account_opened now event_id i v deposit =
    account_opened (new_base_event now event_id "account.opened" i "Account" v) deposit

unfoldable pub new_money_withdrawn : ℕ → String → String → ℤ → ℤ → ℤ → AccountEvent
new_money_withdrawn now event_id i v amount after =
    money_withdrawn (new_base_event now event_id "account.money_withdrawn" i "Account" v) amount
      after

unfoldable pub new_money_deposited : ℕ → String → String → ℤ → ℤ → ℤ → AccountEvent
new_money_deposited now event_id i v amount after =
    money_deposited (new_base_event now event_id "account.money_deposited" i "Account" v) amount
      after

unfoldable pub new_account_frozen : ℕ → String → String → ℤ → String → AccountEvent
new_account_frozen now event_id i v reason =
    account_frozen (new_base_event now event_id "account.frozen" i "Account" v) reason

unfoldable pub new_account_closed : ℕ → String → String → ℤ → AccountEvent
new_account_closed now event_id i v =
    account_closed (new_base_event now event_id "account.closed" i "Account" v)

unfoldable pub new_overdraft_limit_changed : ℕ → String → String → ℤ → ℤ → AccountEvent
new_overdraft_limit_changed now event_id i v limit =
    overdraft_limit_changed (new_base_event now event_id "account.overdraft_changed" i "Account" v)
      limit

pub record Account : Type 0 where
  pub base : BaseAggregate String AccountEvent
  pub status : Status
  pub balance : ℤ
  pub overdraft : ℤ

-- `a.IncrementVersion()` and then `a.Record(...)` of an event made from the id and the new version.
abbrev pub emit : (String → ℤ → AccountEvent) → Account → Account
emit event a =
    let base = increment_version a.base in
    record a { base = record_event (event base.entity.id base.version) base }

-- `New(id, openingDeposit, eventID)`
unfoldable pub new : ℕ → String → ℤ → String → Result Account
new now i deposit event_id =
    if ltb_ℤ deposit (pos 0)
    then err (new_rule_violation "OPENING_DEPOSIT_NEGATIVE" "opening deposit must be non-negative")
    else ok (
        emit (λ i v. new_account_opened now event_id i v deposit)
          (record {
            base = new_base_aggregate i;
            status = status_open;
            balance = deposit;
            overdraft = pos 0;
          }))

-- `a.SetOverdraftLimit(limit, eventID)`
unfoldable pub set_overdraft_limit : ℕ → ℤ → String → Account → Account × Option Error
set_overdraft_limit now limit event_id a =
    if ltb_ℤ limit (pos 0)
    then (a, some (new_rule_violation "OVERDRAFT_NEGATIVE" "overdraft limit must be non-negative"))
    else (
      emit (λ i v. new_overdraft_limit_changed now event_id i v limit)
          (record a { overdraft = limit }),
      none,
    )

-- The part of `Withdraw` after the switch on the status.
unfoldable pub withdraw_open : ℕ → ℤ → String → Account → Account × Option Error
withdraw_open now amount event_id a =
    if leb_ℤ amount (pos 0)
    then (a, some (new_rule_violation "AMOUNT_NOT_POSITIVE" "withdrawal amount must be positive"))
    else if ltb_ℤ (sub64 a.balance amount) (neg64 a.overdraft)
    then (
      a,
      some (new_rule_violation "OVERDRAFT_EXCEEDED" "withdrawal would exceed allowed overdraft"),
    )
    else let balance = sub64 a.balance amount in
      (
        emit (λ i v. new_money_withdrawn now event_id i v amount balance)
            (record a { balance = balance }),
        none,
      )

-- The switch of `Withdraw` on the status, and what follows it.
abbrev pub withdraw_by_status : Status → ℕ → ℤ → String → Account → Account × Option Error
withdraw_by_status status_open now amount event_id a = withdraw_open now amount event_id a
withdraw_by_status status_frozen now amount event_id a = (
  a,
  some (new_rule_violation "ACCOUNT_FROZEN" "withdrawals are blocked while the account is frozen"),
)
withdraw_by_status status_closed now amount event_id a =
    (a, some (new_rule_violation "ACCOUNT_CLOSED" "withdrawals are not allowed on closed accounts"))

-- `a.Withdraw(amount, eventID)`
unfoldable pub withdraw : ℕ → ℤ → String → Account → Account × Option Error
withdraw now amount event_id a = withdraw_by_status a.status now amount event_id a

abbrev pub is_open : Status → Bool
is_open status_open = true
is_open status_frozen = false
is_open status_closed = false

abbrev pub is_closed : Status → Bool
is_closed status_open = false
is_closed status_frozen = false
is_closed status_closed = true

-- `a.Deposit(amount, eventID)`
unfoldable pub deposit : ℕ → ℤ → String → Account → Account × Option Error
deposit now amount event_id a =
    if is_closed a.status
    then (
      a,
      some (new_rule_violation "ACCOUNT_CLOSED" "deposits are not allowed on closed accounts"),
    )
    else if leb_ℤ amount (pos 0)
    then (a, some (new_rule_violation "AMOUNT_NOT_POSITIVE" "deposit amount must be positive"))
    else let balance = add64 a.balance amount in
      (
        emit (λ i v. new_money_deposited now event_id i v amount balance)
            (record a { balance = balance }),
        none,
      )

-- `a.Freeze(reason, eventID)`
unfoldable pub freeze : ℕ → String → String → Account → Account × Option Error
freeze now reason event_id a =
    if is_open a.status
    then (if str_eq reason ""
        then (a, some (new_rule_violation "FREEZE_REASON_REQUIRED" "freeze reason is mandatory"))
        else (
          emit (λ i v. new_account_frozen now event_id i v reason)
              (record a { status = status_frozen }),
          none,
        ))
    else (a, some (new_rule_violation "ONLY_OPEN_CAN_FREEZE" "only open accounts can be frozen"))

-- `a.Close(eventID)`
unfoldable pub close : ℕ → String → Account → Account × Option Error
close now event_id a =
    if is_closed a.status
    then (a, some (new_rule_violation "ALREADY_CLOSED" "account is already closed"))
    else (
      emit (λ i v. new_account_closed now event_id i v) (record a { status = status_closed }),
      none,
    )
