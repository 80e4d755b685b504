-- ===== src/Ledger/Credit.antt =====
-- services/ledger/credit-ledger.service.ts: the credit (udhar) accounts. The row lock makes the
-- transactions on an account sequential, so each is a function of the store; an error leaves the
-- store as it was. Amounts are whole numbers of paise.
pub mod Rows
pub mod Limits
use geeta_backend.Common.{
  ℕ, Bool, true, false, ◌&&◌, Option, none, some, List, [], ◌∷◌, ◌++◌, map, find_first, ◌==◌,
  if◌then◌else◌,
}
use geeta_backend.Common.Result.{
  Result, ok, bad_request, not_found, throw_if, or_throw, ◌>>=◌, ◌>>◌,
}
use geeta_backend.Common.Int.{ℤ, pos, ◌+ℤ◌, ◌-ℤ◌, ltb_ℤ, leb_ℤ}
use geeta_backend.Ledger.Types
use geeta_backend.Ledger.Types.{
  ActorType, Direction, Instrument, EventType, ReferenceType, FinancialEvent, get_or, record_event,
}

-- A row of CreditAccount, unique by actor.
pub record CreditAccount : Type 0 where
  pub id : ℕ
  pub actor_type : ActorType
  pub actor_id : ℕ
  pub credit_limit : ℤ
  pub outstanding_balance : ℤ

-- enum CreditTransactionType
pub data CreditTransactionType : Type 0 where
  draw repayment : CreditTransactionType

pub record CreditTransaction : Type 0 where
  pub id : ℕ
  pub credit_account_id : ℕ
  pub type : CreditTransactionType
  pub amount : ℤ
  pub reference_type : Option ReferenceType
  pub reference_id : Option ℕ
  pub recorded_by_user_id : ℕ

pub record Store : Type 0 where
  pub accounts : List CreditAccount
  pub transactions : List CreditTransaction
  pub financial_events : List FinancialEvent

-- interfaces DrawOnCreditInput and RecordRepaymentInput; a repayment has no reference
pub record MovementInput : Type 0 where
  pub actor_type : ActorType
  pub actor_id : ℕ
  pub amount : ℤ
  pub reference_type : Option ReferenceType
  pub reference_id : Option ℕ
  pub recorded_by_user_id : ℕ

abbrev pub same_actor_type : ActorType → ActorType → Bool
same_actor_type ActorType.vendor ActorType.vendor = true
same_actor_type ActorType.retail_customer ActorType.retail_customer = true
same_actor_type _ _ = false

abbrev pub is_account_of : ActorType → ℕ → CreditAccount → Bool
is_account_of type actor a = same_actor_type a.actor_type type && a.actor_id == actor

abbrev pub find_account : ActorType → ℕ → List CreditAccount → Option CreditAccount
find_account type actor = find_first (is_account_of type actor)

abbrev pub update_account :
    ℕ → (CreditAccount → CreditAccount) → List CreditAccount → List CreditAccount
update_account i f = map (λ (a : CreditAccount). if a.id == i then f a else a)

-- `upsert` by the actor's unique key, with the new row's id from the database.
abbrev pub upsert_limit :
    ℕ
    → ActorType
    → ℕ
    → ℤ
    → List CreditAccount
    → Option CreditAccount
    → CreditAccount × List CreditAccount
upsert_limit new_id type actor limit accounts none =
    let a : CreditAccount = record {
      id = new_id;
      actor_type = type;
      actor_id = actor;
      credit_limit = limit;
      outstanding_balance = pos 0;
    } in
    (a, accounts ++ a ∷ [])
upsert_limit new_id type actor limit accounts (some a) = (
  record a { credit_limit = limit },
  update_account a.id (λ (x : CreditAccount). record x { credit_limit = limit }) accounts,
)

unfoldable pub set_credit_limit : ℕ → ActorType → ℕ → ℤ → Store → Result (CreditAccount × Store)
set_credit_limit new_id type actor limit s = do
  throw_if (ltb_ℤ limit (pos 0)) bad_request
  let done = upsert_limit new_id type actor limit s.accounts (find_account type actor s.accounts)
  ok (done.0, record s { accounts = done.1 })

unfoldable pub get_account : ActorType → ℕ → Store → Result CreditAccount
get_account type actor s = or_throw (find_account type actor s.accounts) not_found

-- `account.creditLimit.sub(account.outstandingBalance)`, as `mapAccount` shows it.
abbrev pub available_credit : CreditAccount → ℤ
available_credit a = a.credit_limit -ℤ a.outstanding_balance

-- `lockAccount`: the row that the lock reads back is the one that was found.
unfoldable pub lock_account : ActorType → ℕ → Store → Result CreditAccount
lock_account type actor s = or_throw (find_account type actor s.accounts) bad_request

abbrev pub with_outstanding : ℤ → CreditAccount → CreditAccount
with_outstanding outstanding a = record a { outstanding_balance = outstanding }

pub record Movement : Type 0 where
  pub account : CreditAccount
  pub transaction : CreditTransaction
  pub event : FinancialEvent

abbrev pub draw_transaction : ℕ → MovementInput → CreditAccount → CreditTransaction
draw_transaction new_id input a = record {
  id = new_id;
  credit_account_id = a.id;
  type = CreditTransactionType.draw;
  amount = input.amount;
  reference_type = input.reference_type;
  reference_id = input.reference_id;
  recorded_by_user_id = input.recorded_by_user_id;
}

abbrev pub draw_event : ℕ → MovementInput → FinancialEvent
draw_event new_id input = record {
  actor_type = input.actor_type;
  actor_id = input.actor_id;
  event_type = EventType.udhar_draw;
  amount = input.amount;
  direction = Direction.debit;
  instrument = Instrument.udhar;
  reference_type = get_or input.reference_type ReferenceType.draw;
  reference_id = get_or input.reference_id new_id;
  created_by_user_id = some input.recorded_by_user_id;
}

-- `new_id` is the id that the database gives the row of CreditTransaction.
unfoldable pub draw_on_credit : ℕ → MovementInput → Store → Result (Movement × Store)
unfolding lock_account record_event
draw_on_credit new_id input s = do
  throw_if (leb_ℤ input.amount (pos 0)) bad_request
  account ← lock_account input.actor_type input.actor_id s
  let outstanding = account.outstanding_balance +ℤ input.amount
  throw_if (ltb_ℤ account.credit_limit outstanding) bad_request
  ok (
    record {
      account = with_outstanding outstanding account;
      transaction = draw_transaction new_id input account;
      event = draw_event new_id input;
    },
    record {
      accounts = update_account account.id (with_outstanding outstanding) s.accounts;
      transactions = s.transactions ++ draw_transaction new_id input account ∷ [];
      financial_events = record_event (draw_event new_id input) s.financial_events;
    },
  )

abbrev pub repayment_transaction : ℕ → MovementInput → CreditAccount → CreditTransaction
repayment_transaction new_id input a = record {
  id = new_id;
  credit_account_id = a.id;
  type = CreditTransactionType.repayment;
  amount = input.amount;
  reference_type = none;
  reference_id = none;
  recorded_by_user_id = input.recorded_by_user_id;
}

abbrev pub repayment_event : ℕ → MovementInput → FinancialEvent
repayment_event new_id input = record {
  actor_type = input.actor_type;
  actor_id = input.actor_id;
  event_type = EventType.udhar_repayment;
  amount = input.amount;
  direction = Direction.credit;
  instrument = Instrument.udhar;
  reference_type = ReferenceType.repayment;
  reference_id = new_id;
  created_by_user_id = some input.recorded_by_user_id;
}

-- `proposed.isNegative() ? 0 : proposed`
abbrev pub floor_at_zero : ℤ → ℤ
floor_at_zero a = if ltb_ℤ a (pos 0) then pos 0 else a

unfoldable pub record_repayment : ℕ → MovementInput → Store → Result (Movement × Store)
unfolding lock_account record_event
record_repayment new_id input s = do
  throw_if (leb_ℤ input.amount (pos 0)) bad_request
  account ← lock_account input.actor_type input.actor_id s
  let outstanding = floor_at_zero (account.outstanding_balance -ℤ input.amount)
  ok (
    record {
      account = with_outstanding outstanding account;
      transaction = repayment_transaction new_id input account;
      event = repayment_event new_id input;
    },
    record {
      accounts = update_account account.id (with_outstanding outstanding) s.accounts;
      transactions = s.transactions ++ repayment_transaction new_id input account ∷ [];
      financial_events = record_event (repayment_event new_id input) s.financial_events;
    },
  )
