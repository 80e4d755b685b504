-- ===== src/Ledger.antt =====
-- services/ledger: the wallets, the credit accounts, and the financial events that record each
-- movement of either.
pub mod Types
pub mod Wallet
pub mod Credit
mod Tests
