-- ===== src/Console.antt =====
-- ui/js/console.js: the RPC console, a child for each part.
pub mod Tokens
pub mod Args
pub mod Complete
pub mod History
pub mod Page
mod Tests
