-- ===== src/Qr.antt =====
-- ui/js/qr.js: the QR encoder of the receive screen, a child for each part.
pub mod Tables
pub mod Field
pub mod Bch
pub mod Version
pub mod Codewords
pub mod Matrix
pub mod Place
pub mod Penalty
pub mod Encode
mod Tests
