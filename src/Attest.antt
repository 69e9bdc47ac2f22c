-- ===== src/Attest.antt =====
-- scripts/nuri_attest.py: the evidence of NURI-ATT-V1 and what is done with it. `Evidence` has the
-- parser, `Checks` the verifier, `Challenges` the challenges that one process keeps, `Saved` those of
-- the state file, `Exchange` what is said to the card, `Certificate` the signature of the CA; the rest
-- are proofs and what they are stated with.
pub mod Evidence
pub mod Format
pub mod Parse
pub mod Whole
pub mod Checks
pub mod Pins
pub mod Verdict
pub mod Messages
pub mod Challenges
pub mod Still
pub mod Once
pub mod Fresh
pub mod Saved
pub mod Tombstone
pub mod Replay
pub mod Hex
pub mod Exchange
pub mod Pages
pub mod Personal
pub mod Guarded
pub mod Certificate
mod Tests
mod CardTests
