-- ===== src/CardHost.antt =====
-- host/nuri_card_host.py: the native messaging host. `Signature` has what it does with a signature of
-- the card, `State` and `Signer` the class `CardSigner`, `Startup` its construction, `Values` and
-- `Requests` the requests, `Framing` the frames and the loop; the rest are proofs.
pub mod Signature
pub mod Recovered
pub mod State
pub mod Signer
pub mod Startup
pub mod Values
pub mod Process
pub mod Requests
pub mod Framing
pub mod Chunks
pub mod Pipes
pub mod Serving
pub mod Silent
pub mod Starting
pub mod Session
pub mod Identified
pub mod Guarded
pub mod Signing
pub mod Reading
pub mod Handling
pub mod Requested
pub mod Addresses
pub mod Keyed
pub mod Answers
pub mod Answered
pub mod Proven
mod Tests
mod HandleTests
mod WireTests
