-- ===== src/Ledger/Credit/Limits.antt =====
-- The credit limits under the operations on credit accounts.
use geeta_backend.Common.{
  ℕ, true, false, some, ◌≡◌, ◌↔◌, refl, ap, sym, ◌∙◌, arith, if◌then◌else◌, Bool-cases,
  Option-cases, inl, inr, lt→ltb, All,
}
use mathlib.Core.Path.{subst}
use geeta_backend.Common.Int.{
  ℤ, pos, ◌+ℤ◌, ◌-ℤ◌, ◌≤ℤ◌, ◌<ℤ◌, leb_ℤ, ltb_ℤ, int_laws, ltb_ℤ→lt, ltb_ℤ→le, lt→leb_ℤ, le→ltb_ℤ,
}
use geeta_backend.Common.Result.{ok}
use geeta_backend.Ledger.Credit.{
  CreditAccount, Store, MovementInput, Movement, find_account, is_account_of, update_account,
  lock_account, with_outstanding, available_credit, floor_at_zero, draw_on_credit, record_repayment,
}
use geeta_backend.Ledger.Credit.Rows.{UniqueAccounts, found-Sole, found-All, All-update_account}

-- The debt is not negative, and within the limit.
abbrev pub WithinLimit : CreditAccount → Type 0
WithinLimit a = (pos 0 ≤ℤ a.outstanding_balance) × (a.outstanding_balance ≤ℤ a.credit_limit)

draw_on_credit-inv :
    (new_id : ℕ) (input : MovementInput) (s : Store) {m : Movement} {s' : Store}
    → draw_on_credit new_id input s ≡ ok (m, s')
    → (a : CreditAccount) × (find_account input.actor_type input.actor_id s.accounts ≡ some a)
      × (pos 0 <ℤ input.amount)
      × (a.outstanding_balance +ℤ input.amount ≤ℤ a.credit_limit)
      × (m.account ≡ with_outstanding (a.outstanding_balance +ℤ input.amount) a)
      × (s'.accounts
          ≡ update_account a.id
              (with_outstanding (a.outstanding_balance +ℤ input.amount))
              s.accounts)
unfolding draw_on_credit lock_account
draw_on_credit-inv new_id input s h =
    elim (Option-cases (find_account input.actor_type input.actor_id s.accounts)) [
      | inl e ↦ ground arith
      | inr (a, e) ↦ (a, e, ground arith, ground arith, ground arith, ground arith)
    ]

draw_on_credit-returns :
    (new_id : ℕ) (input : MovementInput) (s : Store) (a : CreditAccount)
    → find_account input.actor_type input.actor_id s.accounts ≡ some a
    → leb_ℤ input.amount (pos 0) ≡ false
    → ltb_ℤ a.credit_limit (a.outstanding_balance +ℤ input.amount) ≡ false
    → (r : Movement × Store) × (draw_on_credit new_id input s ≡ ok r)
unfolding draw_on_credit lock_account
draw_on_credit-returns new_id input s a found p q = rw (p, found, q) (_, refl)

record_repayment-inv :
    (new_id : ℕ) (input : MovementInput) (s : Store) {m : Movement} {s' : Store}
    → record_repayment new_id input s ≡ ok (m, s')
    → (a : CreditAccount) × (find_account input.actor_type input.actor_id s.accounts ≡ some a)
      × (pos 0 <ℤ input.amount)
      × (m.account ≡ with_outstanding (floor_at_zero (a.outstanding_balance -ℤ input.amount)) a)
      × (s'.accounts
          ≡ update_account a.id
              (with_outstanding (floor_at_zero (a.outstanding_balance -ℤ input.amount)))
              s.accounts)
unfolding record_repayment lock_account
record_repayment-inv new_id input s h =
    elim (Option-cases (find_account input.actor_type input.actor_id s.accounts)) [
      | inl e ↦ ground arith
      | inr (a, e) ↦ (a, e, ground arith, ground arith, ground arith)
    ]

floor_at_zero-sub : (b a : ℤ) → floor_at_zero (b -ℤ a) ≡ (if ltb_ℤ b a then pos 0 else b -ℤ a)
floor_at_zero-sub b a = elim (Bool-cases (ltb_ℤ b a)) [
  | inl e ↦
      let p = ltb_ℤ→lt b a e in
      let q : ltb_ℤ (b -ℤ a) (pos 0) ≡ true = lt→ltb _ _ (omega int_laws) in rw (e, q)
  | inr e ↦
      let p = ltb_ℤ→le b a e in
      let q : ltb_ℤ (b -ℤ a) (pos 0) ≡ false = le→ltb_ℤ (b -ℤ a) (pos 0) (omega int_laws) in
      rw (e, q)
]

repaid-WithinLimit :
    (amount : ℤ) (a : CreditAccount)
    → pos 0 <ℤ amount
    → WithinLimit a
    → WithinLimit (with_outstanding (floor_at_zero (a.outstanding_balance -ℤ amount)) a)
repaid-WithinLimit amount a h w =
    elim (Bool-cases (ltb_ℤ (a.outstanding_balance -ℤ amount) (pos 0))) [
      | inl e ↦ rw e (omega arith, omega int_laws)
      | inr e ↦
          let p = ltb_ℤ→le (a.outstanding_balance -ℤ amount) (pos 0) e in
          rw e (omega int_laws, omega int_laws)
    ]

-- `drawOnCredit` on accounts with distinct ids that owe at least nothing and at most their limits:
-- when it returns, the amount was positive and within the available credit of the actor's account,
-- the account returned owes exactly the amount more, and every account still owes at least nothing
-- and at most its limit.
pub draw_on_credit-WithinLimit :
    (new_id : ℕ) (input : MovementInput) (s : Store) {m : Movement} {s' : Store}
    → UniqueAccounts s.accounts
    → All WithinLimit s.accounts
    → draw_on_credit new_id input s ≡ ok (m, s')
    → All WithinLimit s'.accounts
      × ((a : CreditAccount) × (find_account input.actor_type input.actor_id s.accounts ≡ some a)
          × (pos 0 <ℤ input.amount)
          × (input.amount ≤ℤ available_credit a)
          × (m.account.outstanding_balance ≡ a.outstanding_balance +ℤ input.amount))
draw_on_credit-WithinLimit new_id input s u within h =
    let (a, found, positive, enough, account, accounts) = draw_on_credit-inv new_id input s h in
    let is_account = is_account_of input.actor_type input.actor_id in
    let old : WithinLimit a = found-All WithinLimit is_account a s.accounts within found in
    let drawn = with_outstanding (a.outstanding_balance +ℤ input.amount) in
    let new : WithinLimit (drawn a) = (omega int_laws, enough) in
    (
      subst (All WithinLimit) (sym accounts) (
          All-update_account WithinLimit a drawn s.accounts
            (found-Sole is_account a s.accounts u found) new within),
      (
        a,
        found,
        positive,
        omega int_laws,
        ap (λ (x : CreditAccount). x.outstanding_balance) account,
      ),
    )

-- `recordRepayment` on accounts with distinct ids that owe at least nothing and at most their
-- limits: when it returns, every account still does, the account returned is the actor's, and it
-- owes the amount less, or nothing when the amount was more than it owed.
pub record_repayment-WithinLimit :
    (new_id : ℕ) (input : MovementInput) (s : Store) {m : Movement} {s' : Store}
    → UniqueAccounts s.accounts
    → All WithinLimit s.accounts
    → record_repayment new_id input s ≡ ok (m, s')
    → All WithinLimit s'.accounts
      × ((a : CreditAccount) × (find_account input.actor_type input.actor_id s.accounts ≡ some a)
          × (m.account.outstanding_balance ≡ (
              if ltb_ℤ a.outstanding_balance input.amount
              then pos 0
              else a.outstanding_balance -ℤ input.amount)))
record_repayment-WithinLimit new_id input s u within h =
    let (a, found, positive, account, accounts) = record_repayment-inv new_id input s h in
    let is_account = is_account_of input.actor_type input.actor_id in
    let old : WithinLimit a = found-All WithinLimit is_account a s.accounts within found in
    let owed = floor_at_zero (a.outstanding_balance -ℤ input.amount) in
    let returned = ap (λ (x : CreditAccount). x.outstanding_balance) account in
    (
      subst (All WithinLimit) (sym accounts) (
          All-update_account WithinLimit a (with_outstanding owed) s.accounts
            (found-Sole is_account a s.accounts u found)
            (repaid-WithinLimit input.amount a positive old) within),
      (a, found, returned ∙ floor_at_zero-sub a.outstanding_balance input.amount),
    )

-- `drawOnCredit` returns exactly when the actor has an account and the amount is positive and
-- within the account's available credit.
pub draw_on_credit-returns_iff :
    (new_id : ℕ) (input : MovementInput) (s : Store)
    → ((r : Movement × Store) × (draw_on_credit new_id input s ≡ ok r)) ↔ (
        (a : CreditAccount) × (find_account input.actor_type input.actor_id s.accounts ≡ some a)
        × (pos 0 <ℤ input.amount)
        × (input.amount ≤ℤ available_credit a))
draw_on_credit-returns_iff new_id input s = (
  λ done.
      let (a, found, positive, enough, _, _) = draw_on_credit-inv new_id input s done.1 in
      (a, found, positive, omega int_laws),
  λ covered.
      draw_on_credit-returns new_id input s covered.0 covered.1
        (lt→leb_ℤ input.amount (pos 0) covered.2)
        (le→ltb_ℤ covered.0.credit_limit (covered.0.outstanding_balance +ℤ input.amount)
          (omega int_laws)),
)
