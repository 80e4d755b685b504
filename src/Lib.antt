-- ===== src/Lib.antt =====
-- The back end of a print shop. An order's item gets a workflow: tasks made of the steps of a
-- template, with dependencies between them, that the shop's departments finish, skip, inspect and
-- send back. Customers pay from wallets or on credit, and every movement of money is recorded as a
-- financial event. The books are kept by double entry.
--
-- Common: Boolean tests on native numbers (Tests), lists (Lists), the errors of
--   src/common/errors/ApiError.ts as values (Result), integers over native numbers (Int).
-- Workflow: src/modules/workflow.
--   TaskStatus is task-state-machine.ts and InstanceStatus is workflow-instance-state-machine.ts,
--   each with its table of transitions. Skip is step-skip-evaluator.ts. Dependency is
--   dependency-engine.ts and Generator is task-generator.service.ts. Store holds the rows of
--   prisma/schema.prisma and the queries and updates of workflow.repository.ts.
--   Engine is workflow.engine.ts: Create (createForProductionOrder, publishCreationEvents), Advance
--   (advance), Qc (processQcOutcome, applyQcHold, applyQcRework, rejectVendorApproval), Rework
--   (resolveReworkTargetTaskId, blockDownstreamAndReworkTarget), Cancel (cancelInstance), Correction
--   (flagTaskForCorrection, resolveTaskCorrection). Trace has runs of advance and cancelInstance.
-- Ledger: src/services/ledger.
--   Wallet is wallet-ledger.service.ts (creditWallet, debitWallet, lockWallet), Credit is
--   credit-ledger.service.ts (setCreditLimit, drawOnCredit, recordRepayment), and Types has the enums
--   and financial-event.service.ts.
-- Accounting: src/services/accounting.
--   Calendar is fiscal-calendar.ts (coordinatesFor, fiscalYearBounds), Fiscal is fiscal.service.ts
--   (ensureYear, assertPostable, setPeriodStatus), Voucher is voucher-number.service.ts
--   (allocateVoucherNumber). Journal has the rows and inputs of posting.service.ts and the lookup of
--   account-resolver.service.ts; Posting has prepare and post, Reversal has reverse. TrialBalance is
--   build of reporting/trial-balance.service.ts, Ageing is reporting/ageing-math.ts. Reversal/Reached
--   has runs of postings, reversals and the calendar.
-- Production: src/modules/production/execution.
--   Execution is execution.service.ts (startTask to flagForCorrection) on the rows of one task, with
--   execution-state-machine.ts and time-tracking.util.ts; the outcome of the workflow engine, a
--   second transaction, is an argument of completeTask and flagForCorrection.
--   The update of the intervals, which runs before a handler's transaction and outside it, is taken
--   together with it.
-- Orders: src/modules/orders and src/modules/order-cancellation.
--   StatusSync is order-status-sync.service.ts, AmendmentGate is order-amendment-gate.ts and
--   CancellationPolicy is cancellation-policy.engine.ts; Status has the statuses. StatusSync also has
--   evaluateOrder of src/modules/dispatch/dispatch-readiness.service.ts, where it is an argument
--   whether assignToShift finds a dispatch batch.
-- The modules below these hold lemmas and theorems, and are named for what they prove; each Tests
-- runs the code on concrete rows.
--
-- A store is a record of the tables, each a list of rows in row order. Ids, users and instants are
-- numbers; the id of a new row and the present instant are arguments. An operation is a function
-- of the store that answers a result and the new store, or an error: a transaction that throws is
-- rolled back, so an error has no store, but a posting that throws keeps the rows that
-- ensureYear had made outside its transaction. Transactions on a wallet or a credit account wait for each
-- other by the row lock, so they are a sequence of calls. The workflow engine takes no row locks; its
-- calls are modelled one after the other, as when they do not overlap. In the wallets and the
-- journal an amount that comes in is an integer of ten-thousandths of a paisa (six decimals of a
-- rupee), and the columns, decimals of two places, round it half away from zero (Common/Int has
-- exact, column and rounded); the wallets' columns are integers of paise, the journal's multiples of
-- ten thousand. In the credit ledger and the ageing amounts are
-- integers of paise. The database's bound of 14 digits is not modelled. Every function is by structural recursion; there is no fuel.
--
-- Not modelled: HTTP, authentication, the event bus's listeners (what is published after a commit is
-- a list of effects), the texts of errors and timeline rows, read-only queries, and the modules
-- for the projection of documents into the journal, the rest of orders, delivery, the rest of production, pricing, payments,
-- catalog, support and storage.
pub mod Common
pub mod Workflow
pub mod Ledger
pub mod Accounting
pub mod Production
pub mod Orders
