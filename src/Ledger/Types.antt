-- ===== src/Ledger/Types.antt =====
-- The enums of prisma/schema.prisma that services/ledger uses, and financial-event.service.ts.
use geeta_backend.Common.{ℕ, Option, none, some, List, [], ◌∷◌, ◌++◌}
use geeta_backend.Common.Int.{ℤ}

-- enum WalletTransactionType
pub data WalletTransactionType : Type 0 where
  credit debit refund adjustment promotional order_payment recharge admin_credit admin_debit hold
        release :
      WalletTransactionType

-- enum FinancialActorType
pub data ActorType : Type 0 where
  vendor retail_customer : ActorType

-- enum FinancialEventDirection
pub data Direction : Type 0 where
  debit credit : Direction

-- enum FinancialInstrument
pub data Instrument : Type 0 where
  wallet udhar : Instrument

-- enum FinancialEventType
pub data EventType : Type 0 where
  order_placement_debit amendment_debit amendment_credit wallet_topup wallet_admin_credit
        wallet_admin_debit delivery_charge_debit udhar_draw udhar_repayment refund_credit :
      EventType

-- enum FinancialReferenceType
pub data ReferenceType : Type 0 where
  order amendment dispatch_batch topup draw repayment wallet_adjustment credit_note : ReferenceType

-- A row of FinancialEvent; interface RecordFinancialEventInput.
pub record FinancialEvent : Type 0 where
  pub actor_type : ActorType
  pub actor_id : ℕ
  pub event_type : EventType
  pub amount : ℤ
  pub direction : Direction
  pub instrument : Instrument
  pub reference_type : ReferenceType
  pub reference_id : ℕ
  pub created_by_user_id : Option ℕ

-- `a ?? b`
abbrev pub or_else {ℓ} : {A : Type ℓ} → Option A → Option A → Option A
or_else none b = b
or_else (some a) b = some a

abbrev pub get_or {ℓ} : {A : Type ℓ} → Option A → A → A
get_or none d = d
get_or (some a) d = a

-- `financialEventService.record`: the table is only appended to.
unfoldable pub record_event : FinancialEvent → List FinancialEvent → List FinancialEvent
record_event e events = events ++ e ∷ []
