-- ===== src/Wallet.antt =====
-- ui/js/wallet.js, ui/js/wallet-crypt.js and ui/js/wallet-psbt.js: one module per group of functions.
pub mod Amount
pub mod Address
pub mod Recipients
pub mod Unlock
pub mod Psbt
pub mod Forms
pub mod Security
pub mod Visibility
pub mod PsbtTab
pub mod Book
pub mod Receive
pub mod Send
pub mod Listing
pub mod Shell
pub mod Bump
mod Tests
