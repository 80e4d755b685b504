-- ===== src/Ledger/Wallet/Reconciled.antt =====
-- The wallets against the two records of their movements: the transactions and the financial
-- events.
use geeta_backend.Common.{
  ℕ, Bool, true, false, Option, none, some, List, [], ◌∷◌, ◌++◌, elem, ◌==◌, ◌≡◌, refl, ap, sym,
  ◌∙◌, arith, if◌then◌else◌, Bool-cases, inl, inr, ==_iff,
}
use mathlib.Core.Path.{subst}
use geeta_backend.Common.Int.{
  ℤ, pos, ◌+ℤ◌, ◌-ℤ◌, ◌≤ℤ◌, leb_ℤ, ltb_ℤ, int_laws, ltb_ℤ→le, leb_ℤ→lt, ◌<ℤ◌, exact, column,
  is_half, column-exact-plus, column-exact-minus, column-least, column-NonNegative,
}
use geeta_backend.Common.Result.{ok, >>=-eq-ok, throw_if-eq-ok}
use geeta_backend.Workflow.Store.Updates.{find_first-holds}
use geeta_backend.Ledger.Types.{FinancialEvent, Direction, Instrument}
use geeta_backend.Ledger.Wallet.{
  Wallet, WalletTransaction, Store, LedgerInput, NewIds, Movement, find_wallet, lock_wallet,
  update_wallet, credited, debited, insert_transaction, transaction_of, event_of, write_movement,
  credit_wallet, debit_wallet,
}
use geeta_backend.Ledger.Wallet.Rows.{
  wallet_ids, UniqueWallets, balance, balance_of, NonNegative, Locked, lock_wallet-Locked,
  balance_of-NonNegative, find_wallet-updated, updated-UniqueWallets, updated-NonNegative,
}

-- What an event adds to the wallet of a user.
abbrev pub signed : Instrument → Direction → ℤ → ℤ
signed Instrument.wallet Direction.credit amount = amount
signed Instrument.wallet Direction.debit amount = pos 0 -ℤ amount
signed Instrument.udhar direction amount = pos 0

abbrev pub event_net : ℕ → FinancialEvent → ℤ
event_net user e = if e.actor_id == user then signed e.instrument e.direction e.amount else pos 0

abbrev pub events_net : ℕ → List FinancialEvent → ℤ
events_net user [] = pos 0
events_net user (e ∷ es) = event_net user e +ℤ events_net user es

-- What the transactions of a user moved.
abbrev pub transaction_net : ℕ → WalletTransaction → ℤ
transaction_net user t = if t.user_id == user then t.balance_after -ℤ t.balance_before else pos 0

abbrev pub transactions_net : ℕ → List WalletTransaction → ℤ
transactions_net user [] = pos 0
transactions_net user (t ∷ ts) = transaction_net user t +ℤ transactions_net user ts

-- No two wallets share an id, none is overdrawn, and for every user the balance is what the
-- transactions moved and what the financial events add up to.
pub record IsReconciled (s : Store) : Type 0 where
  pub unique : UniqueWallets s.wallets
  pub nonneg : NonNegative s.wallets
  pub events : (user : ℕ) → balance_of user s.wallets ≡ events_net user s.financial_events
  pub transactions : (user : ℕ) → balance_of user s.wallets ≡ transactions_net user s.transactions

events_net-append :
    (user : ℕ) (es : List FinancialEvent) (e : FinancialEvent)
    → events_net user (es ++ e ∷ []) ≡ events_net user es +ℤ event_net user e
events_net-append user [] e = omega int_laws
events_net-append user (x ∷ es) e = rw (events_net-append user es e) (omega int_laws)

transactions_net-append :
    (user : ℕ) (ts : List WalletTransaction) (t : WalletTransaction)
    → transactions_net user (ts ++ t ∷ []) ≡ transactions_net user ts +ℤ transaction_net user t
transactions_net-append user [] t = omega int_laws
transactions_net-append user (x ∷ ts) t = rw (transactions_net-append user ts t) (omega int_laws)

-- An entry appended to a record moves its net the way the movement moves the balance.
moved_with :
    (c : Bool) {b n a a' : ℤ}
    → b ≡ n
    → a' ≡ a
    → (if c then b +ℤ a else b) ≡ n +ℤ (if c then a' else pos 0)
moved_with true p q = rw (p, q) refl
moved_with false {b} {n} p q = rw p (omega int_laws)

write_movement-inv :
    (ids : NewIds) (input : LedgerInput) (payment : Option ℕ) (direction : Direction) (w : Wallet)
    (ws : List Wallet) (after : Wallet) (s : Store) {m : Movement} {s' : Store}
    → write_movement ids input payment direction w ws after s ≡ ok (m, s')
    → (s'.wallets ≡ update_wallet w.id (λ _. after) ws)
      × (s'.transactions
          ≡ s.transactions ++ transaction_of ids input payment w after.current_balance ∷ [])
      × (s'.financial_events
          ≡ s.financial_events
            ++ event_of (transaction_of ids input payment w after.current_balance) input direction
              ∷ [])
unfolding write_movement insert_transaction
write_movement-inv ids input payment direction w ws after s h = ground arith

-- The user's balance after a movement by `amount`, and that of every other user.
abbrev pub MovesBy : ℕ → ℤ → List Wallet → List Wallet → Type 0
MovesBy user amount ws ws' =
    (v : ℕ) → balance_of v ws' ≡ (if user == v then balance_of v ws +ℤ amount else balance_of v ws)

-- A movement of the user's wallet, written from the row that was locked.
module _ (ids : NewIds) (input : LedgerInput) (payment : Option ℕ) (direction : Direction)
    (s : Store) (r : IsReconciled s)
    (fresh : elem ids.wallet_id (wallet_ids s.wallets) ≡ false) where
  abbrev locked : Wallet × List Wallet
  locked = lock_wallet ids.wallet_id input.user_id s.wallets

  is_locked : Locked ids.wallet_id input.user_id s.wallets locked
  is_locked = lock_wallet-Locked ids.wallet_id input.user_id s.wallets r.unique fresh

  held : locked.0.current_balance ≡ balance_of input.user_id s.wallets
  held = ap balance (sym is_locked.found) ∙ is_locked.same input.user_id

  held-NonNegative : pos 0 ≤ℤ locked.0.current_balance
  held-NonNegative =
      subst (λ b. pos 0 ≤ℤ b) (sym held) (balance_of-NonNegative input.user_id s.wallets r.nonneg)

  module _ (after : Wallet) (amount : ℤ) (same_id : after.id ≡ locked.0.id)
      (same_user : after.user_id ≡ locked.0.user_id)
      (moved : after.current_balance ≡ locked.0.current_balance +ℤ amount)
      (covered : pos 0 ≤ℤ after.current_balance)
      (recorded : signed Instrument.wallet direction (column input.amount) ≡ amount) where
    abbrev written : List Wallet
    written = update_wallet locked.0.id (λ _. after) locked.1

    locked_user : (locked.0.user_id == input.user_id) ≡ true
    locked_user =
        find_first-holds (λ (w : Wallet). w.user_id == input.user_id) locked.1 is_locked.found

    locked_user_id : locked.0.user_id ≡ input.user_id
    locked_user_id = (==_iff _ _).0 locked_user

    written-MovesBy : MovesBy input.user_id amount s.wallets written
    written-MovesBy v =
        ap balance (
          find_wallet-updated locked.0 after same_id same_user v locked.1 is_locked.unique (
            subst (λ i. find_wallet i locked.1 ≡ some locked.0) (sym locked_user_id)
              is_locked.found))
        ∙ elim (Bool-cases (input.user_id == v)) [
          | inl e ↦
              rw (ap (λ i. i == v) locked_user_id ∙ e, e)
                (moved
                  ∙ ap (λ b. b +ℤ amount)
                      (held ∙ ap (λ i. balance_of i s.wallets) ((==_iff _ _).0 e)))
          | inr e ↦ rw (ap (λ i. i == v) locked_user_id ∙ e, e) (is_locked.same v)
        ]

    entered : after.current_balance -ℤ locked.0.current_balance ≡ amount
    entered = rw moved (omega int_laws)

    -- The movement leads from a reconciled store to one.
    write_movement-IsReconciled :
        {m : Movement} {s' : Store}
        → write_movement ids input payment direction locked.0 locked.1 after s ≡ ok (m, s')
        → IsReconciled s' × MovesBy input.user_id amount s.wallets s'.wallets
    write_movement-IsReconciled {m} {s'} h =
        let (wallets, transactions, events) =
          write_movement-inv ids input payment direction locked.0 locked.1 after s h in
        let moves : MovesBy input.user_id amount s.wallets s'.wallets =
          subst (MovesBy input.user_id amount s.wallets) (sym wallets) written-MovesBy in
        (
          record {
            unique =
                subst UniqueWallets (sym wallets) (
                  updated-UniqueWallets locked.0 after same_id same_user locked.1 is_locked.unique);
            nonneg = subst NonNegative (sym wallets) (
                updated-NonNegative locked.0 after same_id same_user locked.1
                  (is_locked.nonneg r.nonneg) covered);
            events = λ v.
                moves v
                ∙ moved_with (input.user_id == v) (r.events v) recorded
                ∙ sym (events_net-append v s.financial_events _)
                ∙ ap (events_net v) (sym events);
            transactions = λ v.
                moves v
                ∙ moved_with (input.user_id == v) (r.transactions v) entered
                ∙ sym (transactions_net-append v s.transactions _)
                ∙ ap (transactions_net v) (sym transactions);
          },
          moves,
        )

sum_NonNegative : (a b : ℤ) → pos 0 ≤ℤ a → pos 0 ≤ℤ b → pos 0 ≤ℤ (a +ℤ b)
sum_NonNegative a b h k = omega (int_laws, h, k)

lt→le : (a b : ℤ) → a <ℤ b → a ≤ℤ b
lt→le a b h = omega (arith, h)

minus-taken : (b a : ℤ) → b -ℤ a ≡ b +ℤ (pos 0 -ℤ a)
minus-taken b a = omega int_laws

minus-NonNegative : (b a : ℤ) → a ≤ℤ b → pos 0 ≤ℤ (b -ℤ a)
minus-NonNegative b a h = omega (int_laws, h)

-- `creditWallet` on a store whose wallets are reconciled, with a new id for a wallet it may have to
-- create: when it returns, the wallets are reconciled with the transactions and with the financial
-- events again, the user's balance is higher by exactly the amount as it is rounded to paise, and no
-- other user's changed.
pub credit_wallet-IsReconciled :
    (now : ℕ) (ids : NewIds) (input : LedgerInput) (s : Store) {m : Movement} {s' : Store}
    → IsReconciled s
    → elem ids.wallet_id (wallet_ids s.wallets) ≡ false
    → credit_wallet now ids input s ≡ ok (m, s')
    → IsReconciled s' × MovesBy input.user_id (column input.amount) s.wallets s'.wallets
unfolding credit_wallet
credit_wallet-IsReconciled now ids input s r fresh h =
    let (_, guard, done) = >>=-eq-ok _ _ h in
    let positive = leb_ℤ→lt input.amount (pos 0) (throw_if-eq-ok _ _ guard) in
    let w = (lock_wallet ids.wallet_id input.user_id s.wallets).0 in
    let unspent = held-NonNegative ids input input.payment_id Direction.credit s r fresh in
    write_movement-IsReconciled ids input input.payment_id Direction.credit s r fresh
      (credited now input w) (column input.amount) refl refl
      (column-exact-plus w.current_balance input.amount unspent positive)
      (rw (column-exact-plus w.current_balance input.amount unspent positive) (
        sum_NonNegative _ _ unspent
          (column-NonNegative input.amount (lt→le (pos 0) input.amount positive))))
      refl done

debit_wallet-inv :
    (ids : NewIds) (input : LedgerInput) (s : Store) {m : Movement} {s' : Store}
    → debit_wallet ids input s ≡ ok (m, s')
    → let locked = lock_wallet ids.wallet_id input.user_id s.wallets in
      (leb_ℤ input.amount (pos 0) ≡ false)
      × (ltb_ℤ (exact locked.0.current_balance) input.amount ≡ false)
      × (write_movement ids input none Direction.debit locked.0 locked.1 (debited input locked.0) s
          ≡ ok (m, s'))
unfolding debit_wallet
debit_wallet-inv ids input s h = ground arith

-- `debitWallet` on a store whose wallets are reconciled, of an amount that does not end in half a
-- paisa, with a new id for a wallet it may have to create: when it returns, the wallets are reconciled
-- with the transactions and with the financial events again, no wallet among them overdrawn, the
-- user's balance is lower by exactly the amount as it is rounded to paise, which it covered
-- before and after rounding, and no other user's changed.
pub debit_wallet-IsReconciled :
    (ids : NewIds) (input : LedgerInput) (s : Store) {m : Movement} {s' : Store}
    → IsReconciled s
    → elem ids.wallet_id (wallet_ids s.wallets) ≡ false
    → is_half input.amount ≡ false
    → debit_wallet ids input s ≡ ok (m, s')
    → IsReconciled s'
      × MovesBy input.user_id (pos 0 -ℤ column input.amount) s.wallets s'.wallets
      × (input.amount ≤ℤ exact (balance_of input.user_id s.wallets))
      × (column input.amount ≤ℤ balance_of input.user_id s.wallets)
debit_wallet-IsReconciled ids input s r fresh whole h =
    let (guard, enough, done) = debit_wallet-inv ids input s h in
    let positive = leb_ℤ→lt input.amount (pos 0) guard in
    let w = (lock_wallet ids.wallet_id input.user_id s.wallets).0 in
    let held_balance = held ids input none Direction.debit s r fresh in
    let unspent = held-NonNegative ids input none Direction.debit s r fresh in
    let covered = ltb_ℤ→le (exact w.current_balance) input.amount enough in
    let least = column-least input.amount w.current_balance unspent covered in
    let taken = column-exact-minus w.current_balance input.amount positive covered whole in
    let (reconciled, moves) =
      write_movement-IsReconciled ids input none Direction.debit s r fresh (debited input w)
        (pos 0 -ℤ column input.amount) refl refl
        (taken ∙ minus-taken w.current_balance (column input.amount))
        (rw taken (minus-NonNegative w.current_balance (column input.amount) least)) refl done in
    (
      reconciled,
      moves,
      subst (λ b. input.amount ≤ℤ exact b) held_balance covered,
      subst (λ b. column input.amount ≤ℤ b) held_balance least,
    )
