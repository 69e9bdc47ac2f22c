-- ===== src/Pcsc.antt =====
-- scripts/nuri_pcsc.py: shared PC/SC access. `Driver` has the reader stack that it stands on,
-- `Apdu` one exchange, `Ladder` the search for a reader and a protocol; the rest are proofs.
pub mod Driver
pub mod Apdu
pub mod Ladder
pub mod Trace
pub mod Exchange
pub mod Wire
pub mod Script
mod Tests
pub mod Commands
pub mod Chain
