-- ===== src/Email.antt =====
-- src/modules/email: the emails of the system and their way through the queue.
pub mod Pieces
pub mod Shell
pub mod Templates
pub mod Escape
pub mod Dispatch
pub mod Crypto
pub mod Processor
pub mod Markup
