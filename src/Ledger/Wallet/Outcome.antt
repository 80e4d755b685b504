-- ===== src/Ledger/Wallet/Outcome.antt =====
-- When `creditWallet` and `debitWallet` return, and when they throw.
use geeta_backend.Common.{
  ℕ, Bool, true, false, Option, none, some, List, [], ◌∷◌, ◌++◌, any, ◌≡◌, refl, ap, sym, ◌∙◌,
  arith, Bool-cases, inl, inr, ==_refl, ◌==◌, ◌↔◌,
}
use mathlib.Core.Path.{subst}
use geeta_backend.Common.Int.{pos, ◌<ℤ◌, ◌≤ℤ◌, leb_ℤ, ltb_ℤ, lt→leb_ℤ, le→ltb_ℤ, exact}
use geeta_backend.Common.Result.{ok, err, unique_violation}
use geeta_backend.Ledger.Types.{Direction}
use geeta_backend.Ledger.Wallet.{
  Wallet, WalletTransaction, Store, LedgerInput, NewIds, Movement, lock_wallet, same_payment,
  reference_of, insert_transaction, write_movement, credit_wallet, debit_wallet,
}
use geeta_backend.Ledger.Wallet.Rows.{balance_of}

-- The balance in the row that `lockWallet` gives.
lock_wallet-balance :
    (id user : ℕ) (ws : List Wallet)
    → (lock_wallet id user ws).0.current_balance ≡ balance_of user ws
unfolding lock_wallet
lock_wallet-balance id user ws = ground arith

same_payment-none : (o : Option ℕ) → same_payment o none ≡ false
same_payment-none none = refl
same_payment-none (some p) = refl

abbrev pub recorded_payment : Option ℕ → List WalletTransaction → Bool
recorded_payment p = any (λ (t : WalletTransaction). same_payment t.payment_id p)

no_payment : (rows : List WalletTransaction) → recorded_payment none rows ≡ false
no_payment [] = refl
no_payment (r ∷ rows) = rw (same_payment-none r.payment_id) (no_payment rows)

recorded_payment-append :
    (p : ℕ) (t : WalletTransaction) (rows : List WalletTransaction)
    → t.payment_id ≡ some p
    → recorded_payment (some p) (rows ++ t ∷ []) ≡ true
recorded_payment-append p t [] h = rw (ap (λ o. same_payment o (some p)) h) (rw (==_refl p))
recorded_payment-append p t (r ∷ rows) h = elim (Bool-cases (same_payment r.payment_id (some p))) [
  | inl e ↦ rw e
  | inr e ↦ rw e (recorded_payment-append p t rows h)
]

abbrev pub reference_taken : ℕ → List WalletTransaction → Bool
reference_taken n = any (λ (t : WalletTransaction). t.reference_number == n)

write_movement-returns :
    (ids : NewIds) (input : LedgerInput) (direction : Direction) (w : Wallet) (ws : List Wallet)
    (after : Wallet) (s : Store)
    → reference_taken (reference_of ids input) s.transactions ≡ false
    → (r : Movement × Store) × (write_movement ids input none direction w ws after s ≡ ok r)
unfolding write_movement insert_transaction
write_movement-returns ids input direction w ws after s free =
    rw (no_payment s.transactions, free) (_, refl)

debit_wallet-returns :
    (ids : NewIds) (input : LedgerInput) (s : Store)
    → leb_ℤ input.amount (pos 0) ≡ false
    → ltb_ℤ
        (exact (lock_wallet ids.wallet_id input.user_id s.wallets).0.current_balance)
        input.amount
      ≡ false
    → reference_taken (reference_of ids input) s.transactions ≡ false
    → (r : Movement × Store) × (debit_wallet ids input s ≡ ok r)
unfolding debit_wallet
debit_wallet-returns ids input s p q free =
    rw (p, q) (write_movement-returns ids input Direction.debit _ _ _ s free)

debit_wallet-guards :
    (ids : NewIds) (input : LedgerInput) (s : Store) {r : Movement × Store}
    → debit_wallet ids input s ≡ ok r
    → (pos 0 <ℤ input.amount)
      × (input.amount
          ≤ℤ exact (lock_wallet ids.wallet_id input.user_id s.wallets).0.current_balance)
      × (reference_taken (reference_of ids input) s.transactions ≡ false)
unfolding debit_wallet write_movement insert_transaction
debit_wallet-guards ids input s h = ground arith

-- `debitWallet` returns exactly when the amount is positive, the user's balance covers it, and no
-- transaction has the reference number that it is given or generates.
pub debit_wallet-returns_iff :
    (ids : NewIds) (input : LedgerInput) (s : Store)
    → ((r : Movement × Store) × (debit_wallet ids input s ≡ ok r)) ↔ (
        (pos 0 <ℤ input.amount)
        × (input.amount ≤ℤ exact (balance_of input.user_id s.wallets))
        × (reference_taken (reference_of ids input) s.transactions ≡ false))
debit_wallet-returns_iff ids input s =
    let held = lock_wallet-balance ids.wallet_id input.user_id s.wallets in
    (
      λ done.
          let (positive, covered, free) = debit_wallet-guards ids input s done.1 in
          (positive, subst (λ b. input.amount ≤ℤ exact b) held covered, free),
      λ (positive, covered, free).
          debit_wallet-returns ids input s (lt→leb_ℤ input.amount (pos 0) positive)
            (le→ltb_ℤ (exact (lock_wallet ids.wallet_id input.user_id s.wallets).0.current_balance)
              input.amount (subst (λ b. input.amount ≤ℤ exact b) (sym held) covered))
            free,
    )

credit_wallet-appends :
    (now : ℕ) (ids : NewIds) (input : LedgerInput) (s : Store) {m : Movement} {s' : Store}
    → credit_wallet now ids input s ≡ ok (m, s')
    → (s'.transactions ≡ s.transactions ++ m.transaction ∷ [])
      × (m.transaction.payment_id ≡ input.payment_id)
unfolding credit_wallet write_movement insert_transaction
credit_wallet-appends now ids input s h = ground arith

credit_wallet-refused :
    (now : ℕ) (ids : NewIds) (input : LedgerInput) (s : Store)
    → leb_ℤ input.amount (pos 0) ≡ false
    → recorded_payment input.payment_id s.transactions ≡ true
    → credit_wallet now ids input s ≡ err unique_violation
unfolding credit_wallet write_movement insert_transaction
credit_wallet-refused now ids input s p q = rw (p, q)

-- A payment credits a wallet once: after a `creditWallet` that returned for a payment, `creditWallet`
-- with a positive amount for the same payment, whoever's wallet and at whatever time, is refused by
-- the payment's unique column.
pub credit_wallet-once :
    (now later : ℕ) (ids ids' : NewIds) (input again : LedgerInput) (s : Store) {m : Movement}
    {s' : Store} (p : ℕ)
    → input.payment_id ≡ some p
    → again.payment_id ≡ some p
    → pos 0 <ℤ again.amount
    → credit_wallet now ids input s ≡ ok (m, s')
    → credit_wallet later ids' again s' ≡ err unique_violation
credit_wallet-once now later ids ids' input again s {m} {s'} p first second positive h =
    let (rows, paid) = credit_wallet-appends now ids input s h in
    credit_wallet-refused later ids' again s' (lt→leb_ℤ again.amount (pos 0) positive)
      (rw (second, rows) (recorded_payment-append p m.transaction s.transactions (paid ∙ first)))
