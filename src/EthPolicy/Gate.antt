-- ===== src/EthPolicy/Gate.antt =====
-- scripts/nuri_eth_policy.py: the demo variable, and the commands that look for an applet.
use nuri_passkey_prf_smartca.Base.{
  Bool, false, [], ◌∷◌, Option, none, some, ◌≡◌, refl, arith, Bytes, Text, codes, equal, ok, err,
  ◌>>=◌, Keeps, ◌≢◌, Bool-cases, inl, inr, equal_iff, ap,
}
use nuri_passkey_prf_smartca.Pcsc.Driver.{Driver, Host, Env}
use nuri_passkey_prf_smartca.Pcsc.Apdu.{select_apdu}
use nuri_passkey_prf_smartca.Pcsc.Ladder.{open_applet}
use nuri_passkey_prf_smartca.Pcsc.Exchange.{Only}
use nuri_passkey_prf_smartca.Pcsc.Trace.{Log, LogSince}
use nuri_passkey_prf_smartca.Pcsc.Wire.{open_applet-Keeps}
use nuri_passkey_prf_smartca.EthPolicy.{
  eth2_aid, eth1_aid, policy, eth1_demo_disabled, eth1_demo_allowed, require_eth1_demo,
}

-- SELECT of the ETH2 applet.
abbrev pub select_eth2 : Bytes
select_eth2 =
    0x00 ∷ 0xa4 ∷ 0x04 ∷ 0x00 ∷ 9 ∷ 0x4e ∷ 0x55 ∷ 0x52 ∷ 0x49 ∷ 0x45 ∷ 0x54 ∷ 0x48 ∷ 0x32 ∷ 0x01
    ∷ []

pub select_apdu-eth2_aid : select_apdu eth2_aid ≡ ok select_eth2
unfolding select_apdu
select_apdu-eth2_aid = refl

-- SELECT of the legacy applet.
abbrev pub select_eth1 : Bytes
select_eth1 =
    0x00 ∷ 0xa4 ∷ 0x04 ∷ 0x00 ∷ 8 ∷ 0x4e ∷ 0x55 ∷ 0x52 ∷ 0x49 ∷ 0x45 ∷ 0x54 ∷ 0x48 ∷ 0x01 ∷ []

pub select_apdu-eth1_aid : select_apdu eth1_aid ≡ ok select_eth1
unfolding select_apdu
select_apdu-eth1_aid = refl

pub eth1_demo_allowed-ne :
    (env : Env) → env.nuri_allow_eth1_demo ≢ some (codes "1") → eth1_demo_allowed env ≡ false
unfolding eth1_demo_allowed
eth1_demo_allowed-ne env ne = go env.nuri_allow_eth1_demo ne
  where
    go :
        (o : Option Text)
        → o ≢ some (codes "1")
        → (elim o as (λ _. Bool) [ none ↦ false | some v ↦ equal v (codes "1") ]) ≡ false
    go none ne = refl
    go (some v) ne = elim (Bool-cases (equal v (codes "1"))) [
      | inl same ↦ absurd (ne (ap some ((equal_iff v (codes "1")).0 same)))
      | inr other ↦ other
    ]

module _ {W : Type 0} (d : Driver W) (env : Env) where
  pub open_eth2-Keeps :
      {l : Log} (reader : Option Text)
      → Keeps (LogSince (Only select_eth2) l) (open_applet d env eth2_aid reader)
  open_eth2-Keeps reader =
      open_applet-Keeps d select_eth2 (omega arith) env eth2_aid reader select_apdu-eth2_aid

  pub open_eth1_applet-Keeps :
      {l : Log} (reader : Option Text)
      → Keeps (LogSince (Only select_eth1) l) (open_applet d env eth1_aid reader)
  open_eth1_applet-Keeps reader =
      open_applet-Keeps d select_eth1 (omega arith) env eth1_aid reader select_apdu-eth1_aid

  pub require_eth1_demo-refused :
      eth1_demo_allowed env ≡ false
      → (h : Host W) → require_eth1_demo d env h ≡ (err (policy eth1_demo_disabled), h)
  unfolding require_eth1_demo ◌>>=◌
  require_eth1_demo-refused refused h = rw refused
