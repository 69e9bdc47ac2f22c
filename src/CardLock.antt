-- ===== src/CardLock.antt =====
-- scripts/card_lock.py: the reversible sealing of a card's keys. `Escrow` has the payload and its
-- encryption, `Parsing` and `Keyset` what is read from the output of gp and from the deny-list, `Files`
-- the private files, `Gp` the calls of gp, `Rotation` and `Lock` the program; the rest are proofs and
-- what they are stated with.
pub mod Escrow
pub mod Recovery
pub mod Parsing
pub mod Keyset
pub mod Files
pub mod Gp
pub mod Rotation
pub mod Lock
pub mod Secrets
pub mod Quiet
pub mod Preparation
pub mod Backwards
pub mod Sources
pub mod Sealing
pub mod Outcome
mod Tests
