-- ===== src/Effects.antt =====
-- The calls that the services make of what they do not implement (OCI Object Storage, PostgreSQL,
-- the antivirus daemon, the clock), as a trace, and the monad of code that makes them.
-- Nothing is assumed of the replies: a reply is any function of all that happened before.
pub mod Defs
pub mod Triple
pub mod Keeps
