-- ===== src/Lib.antt =====
-- Nuri card host tools: a model of the Python code on the host's side of the Nuri smart card.
--
-- The tools open one applet of a card over PC/SC and exchange APDUs with it. The parts stand on each
-- other: the Ethereum policy and the MuSig2 object both open their applet by scripts/nuri_pcsc.py.
--
--   Base       numbers, lists, texts as lists of codes, results, methods on a state that return or
--              raise (`Action`), and the rules by which a method keeps an invariant (`Keeps`)
--   Pcsc       scripts/nuri_pcsc.py. pyscard is the parameter `Driver`; the state `Host` is the world
--              behind the driver and the log of what was done to it, refused connects included. `transmit_raw`, `select_apdu`,
--              `protocol_ladder`, `connect_ladder` and `open_applet` keep their names; `_connect` is
--              `connect_with`, `_disconnect` is `disconnect`, and `conn.transmit` is `send`.
--   EthPolicy  scripts/nuri_eth_policy.py, on top of Pcsc. The functions keep their names. The loop
--              of `confirm_eth2_absent` is `audit`, its body `audit_reader`; the variables that its
--              probe writes are carried along with the driver's world (`noting`).
--   Musig2Card scripts/nuri_musig2_card.py: the class `MuSig2Card` as the record `Session`, its
--              methods under their names, `_tx` as `tx`, with a log of the commands sent. The applet
--              and the reader of the PIN are the parameter `Link`. Musig2Card/State has the object,
--              Access the PIN and the selection, Signing the keys, nonces and signatures.
--   HelperAuth scripts/nuri_helper_auth.py: the class `Pairing`, `session_cookie_values`,
--              `guard_request`, `check_framing` and `validate_token`. The clock, the random numbers,
--              the hash of a session id and Unicode's spaces and upper case are the parameter
--              `Surroundings`.
--   Attest     scripts/nuri_attest.py. Functions keep their names; `_Reader` is `take_bytes`, `take_byte`
--              and `at_end`, `_parse_info` is `read_info`, `_signature` is `is_signature`, `_pub` is
--              `pub_key`, `ChallengeVerifier` is `Verifier` with `issue` and `verify`; the state file is
--              what JSON makes of it. Python-ecdsa is the parameter `Crypto`, the card `transmit`.
--   CardLock   scripts/card_lock.py. Functions keep their names, but for `GP.__init__`, which is `new_gp`;
--              `main` is cut into `stored_payload`, `inspect`, `confirm`, `make_escrow` and `commit`.
--              CardLock/Escrow has the payload and its encryption, Parsing and Keyset what is read
--              from the output of gp, Files the private files, Gp the calls of gp. Processes, files,
--              random numbers and the terminal are the parameter `Outside`, with a log.
--   CardHost   host/nuri_card_host.py. Functions keep their names; `_open` is `open_card`, and the class
--              `CardSigner` is `Signer`, constructed by `new_signer`. CardHost/Signature checks a
--              signature, Signer has the methods that talk to the card, Startup the constructor with
--              the attestation of scripts/nuri_attest.py, Values the parameters of requests, Process
--              the state and `resolve_mode`, Requests the branches of `handle`, Framing the frames
--              and `serve`. The packages ecdsa and pycryptodome, scripts/nuri_pcsc.py, the pipe and
--              JSON are parameters (`Curve`, `keccak256`, `Link`, `Pipe`, `loads`, `dumps`).
--   CardTotp   scripts/card-totp.py: `truncate`, `counter_bytes`, `put_apdu`; `calc_apdu` is the command
--              of `code`.
--
-- Bounds: the loops of `transmit_raw` count down from 64 (`_MAX_CHAIN`), as in the source; the loop
-- that makes room for a session has the number of sessions as fuel, and each round takes one away;
-- `read_rounds` has the number of bytes as fuel, and each round but the last reads one; `serve` has
-- the number of requests; all other loops run over lists.
--
-- Conventions: bytes and characters are numbers; `lower` and `upper` change ASCII letters; an error is
-- its class or code, without its message. The environment is a record of the variables that the code
-- reads. Times are whole microseconds, where the source has floating point seconds.
--
-- Not modelled: the command lines and terminal prompts, which read and print; the other host tools,
-- which `handle` reaches as the parameter `other`; what wiping a buffer does to the memory; a
-- surrogate in a pairing code, on which `encode` raises; token files
-- and HTTP handlers; the applets on the card (Java), the JavaScript clients, and vendored code.
pub mod Base
pub mod Pcsc
pub mod EthPolicy
pub mod Musig2Card
pub mod HelperAuth
pub mod CardTotp
pub mod Attest
pub mod CardLock
pub mod CardHost
