-- ===== src/Minimal/Account/Overdraft.antt =====
-- The overdraft rule of Account.Withdraw, with and without int64 overflow.
use go_ddd_core.Prelude.{
  ℕ, String, ◌≡◌, refl, sym, true, false, inl, inr, none, Bool-cases, arith, ap,
}
use go_ddd_core.Prelude.Int.{ℤ, pos, negsuc, ◌-ℤ◌, ◌≤ℤ◌, ◌<ℤ◌, leb_ℤ, ltb_ℤ}
use go_ddd_core.Prelude.Int64.{Fits, wrap, sub64, neg64, wrap-eq_of_Fits}
use go_ddd_core.Minimal.Account.{Account, status_open, withdraw, withdraw_by_status, withdraw_open}

sub64_exact : (a b : ℤ) → Fits (a -ℤ b) → sub64 a b ≡ a -ℤ b
unfolding sub64
sub64_exact a b h = wrap-eq_of_Fits (a -ℤ b) h

neg64_exact : (a : ℤ) → Fits a → pos 0 ≤ℤ a → neg64 a ≡ pos 0 -ℤ a
unfolding neg64
neg64_exact a h p = wrap-eq_of_Fits (pos 0 -ℤ a) (unfold ◌-ℤ◌ in ground arith)

sub64_wraps :
    (a b : ℤ) → Fits a → Fits b → a -ℤ b <ℤ negsuc 9223372036854775807 → pos 0 <ℤ sub64 a b
unfolding sub64 wrap ◌-ℤ◌
sub64_wraps a b h k p = ground arith

ltb_ℤ-true : (a b : ℤ) → a <ℤ b → ltb_ℤ a b ≡ true
ltb_ℤ-true a b h = ground arith

ltb_ℤ-false : (a b : ℤ) → b ≤ℤ a → ltb_ℤ a b ≡ false
ltb_ℤ-false a b h = ground arith

leb_ℤ-false : (a b : ℤ) → b <ℤ a → leb_ℤ a b ≡ false
leb_ℤ-false a b h = ground arith

le_of_ltb_ℤ : (a b : ℤ) → ltb_ℤ a b ≡ false → b ≤ℤ a
le_of_ltb_ℤ a b h = ground arith

above_limit : (o b : ℤ) → pos 0 ≤ℤ o → pos 0 <ℤ b → pos 0 -ℤ o ≤ℤ b
unfolding ◌-ℤ◌
above_limit o b h k = ground arith

withdraw-open :
    (now : ℕ) (amount : ℤ) (i : String) (a : Account)
    → a.status ≡ status_open
    → withdraw now amount i a ≡ withdraw_open now amount i a
unfolding withdraw
withdraw-open now amount i a p = ap (λ s. withdraw_by_status s now amount i a) p

withdraw_open_accepts :
    (now : ℕ) (amount : ℤ) (i : String) (a : Account)
    → pos 0 <ℤ amount
    → neg64 a.overdraft ≤ℤ sub64 a.balance amount
    → ((withdraw_open now amount i a).1 ≡ none)
      × ((withdraw_open now amount i a).0.balance ≡ sub64 a.balance amount)
unfolding withdraw_open
withdraw_open_accepts now amount i a h k =
    rw (leb_ℤ-false amount (pos 0) h, ltb_ℤ-false (sub64 a.balance amount) (neg64 a.overdraft) k)
      (refl, refl)

withdraw_open_accepted :
    (now : ℕ) (amount : ℤ) (i : String) (a : Account)
    → (withdraw_open now amount i a).1 ≡ none
    → ((withdraw_open now amount i a).0.balance ≡ sub64 a.balance amount)
      × (neg64 a.overdraft ≤ℤ sub64 a.balance amount)
unfolding withdraw_open
withdraw_open_accepted now amount i a h = elim (Bool-cases (leb_ℤ amount (pos 0))) [
  | inl p ↦ cc (rw p at h)
  | inr p ↦ elim (Bool-cases (ltb_ℤ (sub64 a.balance amount) (neg64 a.overdraft))) [
    | inl q ↦ cc (rw (p, q) at h)
    | inr q ↦ rw (p, q) (refl, le_of_ltb_ℤ (sub64 a.balance amount) (neg64 a.overdraft) q)
  ]
]

-- On an open account, a withdrawal of a positive amount that leaves the balance at or above minus the
-- overdraft limit is accepted and takes exactly the amount off, when the amounts are int64 values, the
-- limit is not negative and the difference is an int64 value.
pub withdraw_accepts :
    (now : ℕ) (amount : ℤ) (i : String) (a : Account)
    → a.status ≡ status_open
    → pos 0 <ℤ amount
    → Fits a.overdraft
    → pos 0 ≤ℤ a.overdraft
    → Fits (a.balance -ℤ amount)
    → pos 0 -ℤ a.overdraft ≤ℤ a.balance -ℤ amount
    → ((withdraw now amount i a).1 ≡ none)
      × ((withdraw now amount i a).0.balance ≡ a.balance -ℤ amount)
withdraw_accepts now amount i a s h fo po fd k =
    let exact = sub64_exact a.balance amount fd in
    let limit = neg64_exact a.overdraft fo po in
    rw (withdraw-open now amount i a s, sym exact)
      (withdraw_open_accepts now amount i a h (rw (exact, limit) k))

-- An accepted withdrawal takes exactly the amount off and leaves the balance at or above minus the
-- overdraft limit, when the limit is a nonnegative int64 value and the exact difference is an int64
-- value.
pub withdraw_solvent :
    (now : ℕ) (amount : ℤ) (i : String) (a : Account)
    → a.status ≡ status_open
    → Fits a.overdraft
    → pos 0 ≤ℤ a.overdraft
    → Fits (a.balance -ℤ amount)
    → (withdraw now amount i a).1 ≡ none
    → ((withdraw now amount i a).0.balance ≡ a.balance -ℤ amount)
      × (pos 0 -ℤ a.overdraft ≤ℤ a.balance -ℤ amount)
withdraw_solvent now amount i a s fo po fd h =
    let exact = sub64_exact a.balance amount fd in
    let limit = neg64_exact a.overdraft fo po in
    let found = withdraw_open_accepted now amount i a (rw (withdraw-open now amount i a s) at h) in
    rw (withdraw-open now amount i a s) (rw (exact, limit) at found)

-- On an open account, a withdrawal of a positive int64 amount whose exact difference is below the least
-- int64 value is accepted, whatever the overdraft limit, and leaves a positive balance.
pub withdraw_wraps :
    (now : ℕ) (amount : ℤ) (i : String) (a : Account)
    → a.status ≡ status_open
    → pos 0 <ℤ amount
    → Fits amount
    → Fits a.balance
    → Fits a.overdraft
    → pos 0 ≤ℤ a.overdraft
    → a.balance -ℤ amount <ℤ negsuc 9223372036854775807
    → ((withdraw now amount i a).1 ≡ none) × (pos 0 <ℤ (withdraw now amount i a).0.balance)
withdraw_wraps now amount i a s h fa fb fo po k =
    let more = sub64_wraps a.balance amount fb fa k in
    let limit = neg64_exact a.overdraft fo po in
    let (p, q) =
      withdraw_open_accepts now amount i a h
        (rw limit (above_limit a.overdraft (sub64 a.balance amount) po more)) in
    rw (withdraw-open now amount i a s) (p, rw q more)
