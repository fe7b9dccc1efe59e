-- ===== src/Units.antt =====
-- units/ and benchkit/ports/: the built-in units that produce identities, targets and groups, and the
-- unit that sends traffic.
pub mod Decimal
pub mod Ports
pub mod Pool
pub mod Pairs
pub mod Groups
pub mod Send
pub mod GroupSend
pub mod Fakes
