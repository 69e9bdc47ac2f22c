-- ===== src/HelperAuth.antt =====
-- scripts/nuri_helper_auth.py: the pairing of browsers with the dashboard. `Cookies` has the cookie
-- parser, `Pairing` the class; the rest are proofs.
pub mod Cookies
pub mod Pairing
pub mod Sessions
pub mod Codes
pub mod Live
pub mod Requests
mod Tests
