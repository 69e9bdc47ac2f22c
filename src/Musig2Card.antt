-- ===== src/Musig2Card.antt =====
-- scripts/nuri_musig2_card.py: the host side of the NuriMuSig2 applet. Messages are left out: a
-- `Fault` is the class of the exception and what the code reads of it again. The attributes `conn`,
-- `reader` and `build`, which are only shown, are left out too. `State` has the object, `Access` and
-- `Signing` its methods; the rest are proofs.
pub mod State
pub mod Access
pub mod Signing
pub mod Exchange
pub mod Validity
pub mod Frame
pub mod Methods
pub mod Finalize
pub mod Discipline
pub mod Payload
mod Tests
