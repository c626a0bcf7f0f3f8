-- ===== src/Minimal/Account/Laws.antt =====
-- What every method of Account keeps: atomicity, the recorded history, and the final status.
use go_ddd_core.Prelude.{
  ℕ, String, ◌≡◌, refl, sym, subst, true, ◌⊎◌, inl, inr, Option, none, some, List, [], ◌∷◌, ◌++◌,
  ap, Bool-cases, str_eq, ◌∙◌,
}
use go_ddd_core.Prelude.Int.{ℤ, pos, leb_ℤ, ltb_ℤ}
use go_ddd_core.Prelude.Int64.{add64, sub64, neg64}
use go_ddd_core.Errors.{Error, ok, new_rule_violation}
use go_ddd_core.Domain.{
  domain_events, record_event, increment_version, new_base_aggregate, new_base_event,
}
use go_ddd_core.Minimal.Account.{
  Account, Status, status_open, status_frozen, status_closed, AccountEvent, account_opened,
  money_withdrawn, money_deposited, account_frozen, account_closed, overdraft_limit_changed,
  base_event, is_open, is_closed, emit, new, set_overdraft_limit, withdraw, withdraw_by_status,
  withdraw_open, deposit, freeze, close, new_account_opened, new_money_withdrawn,
  new_money_deposited, new_account_frozen, new_account_closed, new_overdraft_limit_changed,
}

-- A call of a method on an account.
pub data Call : Type 0 where
  call_set_overdraft_limit : ℤ → String → Call
  call_withdraw : ℤ → String → Call
  call_deposit : ℤ → String → Call
  call_freeze : String → String → Call
  call_close : String → Call

-- The call, at a time.
abbrev pub execute : ℕ → Call → Account → Account × Option Error
execute now (call_set_overdraft_limit limit i) a = set_overdraft_limit now limit i a
execute now (call_withdraw amount i) a = withdraw now amount i a
execute now (call_deposit amount i) a = deposit now amount i a
execute now (call_freeze reason i) a = freeze now reason i a
execute now (call_close i) a = close now i a

-- The account after some calls, whatever each returned.
abbrev pub execute_all : ℕ → List Call → Account → Account
execute_all now [] a = a
execute_all now (c ∷ cs) a = execute_all now cs (execute now c a).0

-- What the account does on one event: the effect that a replay of its history has.
abbrev pub replay_event : AccountEvent → Status × ℤ × ℤ → Status × ℤ × ℤ
replay_event (account_opened b d) (st, bal, over) = (status_open, d, pos 0)
replay_event (money_withdrawn b x after) (st, bal, over) = (st, after, over)
replay_event (money_deposited b x after) (st, bal, over) = (st, after, over)
replay_event (account_frozen b r) (st, bal, over) = (status_frozen, bal, over)
replay_event (account_closed b) (st, bal, over) = (status_closed, bal, over)
replay_event (overdraft_limit_changed b l) (st, bal, over) = (st, bal, l)

-- The status, balance and overdraft limit that the events leave.
abbrev pub replay : List AccountEvent → Status × ℤ × ℤ → Status × ℤ × ℤ
replay [] v = v
replay (e ∷ es) v = replay es (replay_event e v)

abbrev pub view : Account → Status × ℤ × ℤ
view a = (a.status, a.balance, a.overdraft)

-- The account `b` is `a` after one recorded event that accounts for the whole change.
abbrev pub Recorded : Account → AccountEvent → Account → Type 0
Recorded a e b =
    (domain_events b.base ≡ domain_events a.base ++ e ∷ [])
    × (b.base.version ≡ add64 a.base.version (pos 1))
    × (b.base.entity ≡ a.base.entity)
    × ((base_event e).ver ≡ b.base.version)
    × ((base_event e).aggregate_key ≡ a.base.entity.id)
    × (view b ≡ replay_event e (view a))

-- The two ways in which a method on `a` ends.
abbrev pub Atomic : Account → Account × Option Error → Type 0
Atomic a r =
    ((e : Error) × (r ≡ (a, some e))) ⊎ ((e : AccountEvent) × (r.1 ≡ none) × Recorded a e r.0)

-- A change of the account together with the event that it emits.
emit-Atomic :
    (a : Account) (f : String → ℤ → AccountEvent) (st : Status) (bal over : ℤ)
    → ((i : String) (v : ℤ) → (base_event (f i v)).ver ≡ v)
    → ((i : String) (v : ℤ) → (base_event (f i v)).aggregate_key ≡ i)
    → ((i : String) (v : ℤ) → (st, bal, over) ≡ replay_event (f i v) (view a))
    → Atomic a (emit f (record a { status = st; balance = bal; overdraft = over }), none)
unfolding record_event increment_version domain_events
emit-Atomic a f st bal over p q r =
    let v : ℤ = add64 a.base.version (pos 1) in
    inr (f a.base.entity.id v, refl, (refl, refl, refl, p _ v, q _ v, r _ v))

set_overdraft_limit-Atomic :
    (now : ℕ) (limit : ℤ) (i : String) (a : Account) → Atomic a (set_overdraft_limit now limit i a)
unfolding set_overdraft_limit new_overdraft_limit_changed new_base_event
set_overdraft_limit-Atomic now limit i a = elim (Bool-cases (ltb_ℤ limit (pos 0))) [
  | inl p ↦ rw p (inl (_, refl))
  | inr p ↦ rw p (
      emit-Atomic a (λ j v. new_overdraft_limit_changed now i j v limit) a.status a.balance limit
        (λ j v. refl) (λ j v. refl) (λ j v. refl))
]

withdraw_open-Atomic :
    (now : ℕ) (amount : ℤ) (i : String) (a : Account) → Atomic a (withdraw_open now amount i a)
unfolding withdraw_open new_money_withdrawn new_base_event
withdraw_open-Atomic now amount i a = elim (Bool-cases (leb_ℤ amount (pos 0))) [
  | inl p ↦ rw p (inl (_, refl))
  | inr p ↦ elim (Bool-cases (ltb_ℤ (sub64 a.balance amount) (neg64 a.overdraft))) [
    | inl q ↦ rw (p, q) (inl (_, refl))
    | inr q ↦
        let left : ℤ = sub64 a.balance amount in
        rw (p, q)
          (emit-Atomic a (λ j v. new_money_withdrawn now i j v amount left) a.status left
            a.overdraft (λ j v. refl) (λ j v. refl) (λ j v. refl))
  ]
]

withdraw_by_status-Atomic :
    (s : Status) (now : ℕ) (amount : ℤ) (i : String) (a : Account)
    → Atomic a (withdraw_by_status s now amount i a)
withdraw_by_status-Atomic status_open now amount i a = withdraw_open-Atomic now amount i a
withdraw_by_status-Atomic status_frozen now amount i a = inl (_, refl)
withdraw_by_status-Atomic status_closed now amount i a = inl (_, refl)

deposit-Atomic :
    (now : ℕ) (amount : ℤ) (i : String) (a : Account) → Atomic a (deposit now amount i a)
unfolding deposit new_money_deposited new_base_event
deposit-Atomic now amount i a = elim (Bool-cases (is_closed a.status)) [
  | inl p ↦ rw p (inl (_, refl))
  | inr p ↦ elim (Bool-cases (leb_ℤ amount (pos 0))) [
    | inl q ↦ rw (p, q) (inl (_, refl))
    | inr q ↦
        let sum : ℤ = add64 a.balance amount in
        rw (p, q)
          (emit-Atomic a (λ j v. new_money_deposited now i j v amount sum) a.status sum a.overdraft
            (λ j v. refl) (λ j v. refl) (λ j v. refl))
  ]
]

freeze-Atomic : (now : ℕ) (reason i : String) (a : Account) → Atomic a (freeze now reason i a)
unfolding freeze new_account_frozen new_base_event
freeze-Atomic now reason i a = elim (Bool-cases (is_open a.status)) [
  | inl p ↦ elim (Bool-cases (str_eq reason "")) [
    | inl q ↦ rw (p, q) (inl (_, refl))
    | inr q ↦
        rw (p, q)
          (emit-Atomic a (λ j v. new_account_frozen now i j v reason) status_frozen a.balance
            a.overdraft (λ j v. refl) (λ j v. refl) (λ j v. refl))
  ]
  | inr p ↦ rw p (inl (_, refl))
]

close-Atomic : (now : ℕ) (i : String) (a : Account) → Atomic a (close now i a)
unfolding close new_account_closed new_base_event
close-Atomic now i a = elim (Bool-cases (is_closed a.status)) [
  | inl p ↦ rw p (inl (_, refl))
  | inr p ↦ rw p (
      emit-Atomic a (λ j v. new_account_closed now i j v) status_closed a.balance a.overdraft
        (λ j v. refl) (λ j v. refl) (λ j v. refl))
]

-- Every method of an account is atomic: either it returns an error and leaves the account as it was,
-- or it returns nil, raises the version by one and records exactly one event, which carries the new
-- version and the account's id, and from which the new status, balance and limit can be replayed.
pub execute_atomic :
    (now : ℕ) (c : Call) (a : Account)
    → ((e : Error) × (execute now c a ≡ (a, some e)))
      ⊎ ((e : AccountEvent) × ((execute now c a).1 ≡ none) × Recorded a e (execute now c a).0)
execute_atomic now (call_set_overdraft_limit limit i) a = set_overdraft_limit-Atomic now limit i a
execute_atomic now (call_withdraw amount i) a =
    unfold withdraw in withdraw_by_status-Atomic a.status now amount i a
execute_atomic now (call_deposit amount i) a = deposit-Atomic now amount i a
execute_atomic now (call_freeze reason i) a = freeze-Atomic now reason i a
execute_atomic now (call_close i) a = close-Atomic now i a

replay-append :
    (xs ys : List AccountEvent) (v : Status × ℤ × ℤ) → replay (xs ++ ys) v ≡ replay ys (replay xs v)
replay-append [] ys v = refl
replay-append (x ∷ xs) ys v = replay-append xs ys (replay_event x v)

-- The pending events of an account replay to its state.
abbrev pub HasHistory : Account → Type 0
HasHistory a = (v : Status × ℤ × ℤ) → replay (domain_events a.base) v ≡ view a

execute-HasHistory :
    (now : ℕ) (c : Call) (a : Account) → HasHistory a → HasHistory (execute now c a).0
execute-HasHistory now c a h v = elim (execute_atomic now c a) [
  | inl (e, p) ↦ rw p (h v)
  | inr (e, q, (d, r, s, t, u, w)) ↦
      rw (d, replay-append (domain_events a.base) (e ∷ []) v, h v) (sym w)
]

execute_all-HasHistory :
    (now : ℕ) (cs : List Call) (a : Account) → HasHistory a → HasHistory (execute_all now cs a)
execute_all-HasHistory now [] a h = h
execute_all-HasHistory now (c ∷ cs) a h =
    execute_all-HasHistory now cs (execute now c a).0 (execute-HasHistory now c a h)

ok-injective : {A : Type 0} {x y : A} → ok x ≡ ok y → x ≡ y
ok-injective p = cc p

new-HasHistory :
    (now : ℕ) (i : String) (d : ℤ) (event_id : String) (a : Account)
    → new now i d event_id ≡ ok a
    → HasHistory a
unfolding new new_account_opened new_base_event new_base_aggregate record_event increment_version
    domain_events
new-HasHistory now i d event_id a p = elim (Bool-cases (ltb_ℤ d (pos 0))) [
  | inl q ↦ cc (rw q at p)
  | inr q ↦ let made = rw q at p in subst HasHistory (ok-injective made) (λ v. refl)
]

-- The events that an account has recorded since New, if they have not been cleared, replay to its
-- status, balance and overdraft limit, after any calls, refused ones included, from any start value.
pub execute_all-history :
    (now : ℕ) (i : String) (d : ℤ) (event_id : String) (a : Account) (cs : List Call)
    → new now i d event_id ≡ ok a
    → (v : Status × ℤ × ℤ)
    → replay (domain_events (execute_all now cs a).base) v ≡ view (execute_all now cs a)
execute_all-history now i d event_id a cs p =
    execute_all-HasHistory now cs a (new-HasHistory now i d event_id a p)

closed_stays :
    (now : ℕ) (c : Call) (a : Account)
    → a.status ≡ status_closed
    → ((execute now c a).0.status ≡ status_closed) × ((execute now c a).0.balance ≡ a.balance)
unfolding set_overdraft_limit withdraw deposit freeze close
closed_stays now (call_set_overdraft_limit limit i) a p = elim (Bool-cases (ltb_ℤ limit (pos 0))) [
  | inl q ↦ rw q (p, refl)
  | inr q ↦ rw q (p, refl)
]
closed_stays now (call_withdraw amount i) a p = rw p (refl, refl)
closed_stays now (call_deposit amount i) a p = rw p (refl, refl)
closed_stays now (call_freeze reason i) a p = rw p (refl, refl)
closed_stays now (call_close i) a p = rw p (refl, refl)

deposit_closed :
    (now : ℕ) (amount : ℤ) (i : String) (a : Account)
    → a.status ≡ status_closed
    → deposit now amount i a ≡ (
      a,
      some (new_rule_violation "ACCOUNT_CLOSED" "deposits are not allowed on closed accounts"),
    )
unfolding deposit
deposit_closed now amount i a p = let yes : is_closed a.status ≡ true = ap is_closed p in rw yes

closed_for_good :
    (now : ℕ) (cs : List Call) (a : Account)
    → a.status ≡ status_closed
    → ((execute_all now cs a).status ≡ status_closed) × ((execute_all now cs a).balance ≡ a.balance)
closed_for_good now [] a p = (p, refl)
closed_for_good now (c ∷ cs) a p =
    let (q, r) = closed_stays now c a p in
    let (t, u) = closed_for_good now cs (execute now c a).0 q in (t, u ∙ r)

-- Closing is final for the money: after Close, whatever is called, the status stays closed, the balance
-- stays the same, and every Withdraw and Deposit is refused.
execute_all-closed :
    (now : ℕ) (a : Account) (cs : List Call) (amount : ℤ) (i : String)
    → a.status ≡ status_closed
    → let b = execute_all now cs a in
      (b.status ≡ status_closed)
      × (b.balance ≡ a.balance)
      × (withdraw now amount i b ≡ (
        b,
        some (new_rule_violation "ACCOUNT_CLOSED" "withdrawals are not allowed on closed accounts"),
      ))
      × (deposit now amount i b ≡ (
        b,
        some (new_rule_violation "ACCOUNT_CLOSED" "deposits are not allowed on closed accounts"),
      ))
execute_all-closed now a cs amount i p = (
  (closed_for_good now cs a p).0,
  (closed_for_good now cs a p).1,
  unfold withdraw in
      ap (λ s. withdraw_by_status s now amount i (execute_all now cs a))
        (closed_for_good now cs a p).0,
  deposit_closed now amount i (execute_all now cs a) (closed_for_good now cs a p).0,
)
