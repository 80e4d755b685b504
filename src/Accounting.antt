-- ===== src/Accounting.antt =====
-- services/accounting: the fiscal calendar, the voucher numbers, the journal and its reports.
pub mod Calendar
pub mod Voucher
pub mod Fiscal
pub mod Journal
pub mod Posting
pub mod TrialBalance
pub mod Ageing
pub mod Reversal
mod Tests
