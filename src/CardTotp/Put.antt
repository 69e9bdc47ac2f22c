-- ===== src/CardTotp/Put.antt =====
-- PUT: what the applet reads of it again.
use nuri_passkey_prf_smartca.Base.{
  ◌≤◌, true, [], ◌∷◌, ◌++◌, Option, none, some, Bytes, ◌≡◌, refl, ap, arith, leb, ◌==◌,
  if◌then◌else◌, length, take, drop, length-append,
}
use nuri_passkey_prf_smartca.CardTotp.{ins_put, put_apdu}

-- The data field of a PUT, as the applet takes it apart: the PIN's length, the PIN, the secret.
abbrev pub read_body : Bytes → Option (Bytes × Bytes)
read_body [] = none
read_body (n ∷ rest) = if leb n (length rest) then some (take n rest, drop n rest) else none

-- The command by its header and Lc, which must be the length of what follows.
abbrev pub read_put : Bytes → Option (Bytes × Bytes)
read_put (cla ∷ ins ∷ p1 ∷ p2 ∷ lc ∷ body) =
    if ins == ins_put then (if lc == length body then read_body body else none) else none
read_put _ = none

take-append : (xs ys : Bytes) → take (length xs) (xs ++ ys) ≡ xs
take-append [] ys = refl
take-append (x ∷ xs) ys = ap (◌∷◌ x) (take-append xs ys)

drop-append : (xs ys : Bytes) → drop (length xs) (xs ++ ys) ≡ ys
drop-append [] ys = refl
drop-append (x ∷ xs) ys = drop-append xs ys

-- For every PIN of 4 to 16 bytes and every secret of 1 to 64, `put_apdu` makes a command that the
-- applet reads as that PIN and that secret, and whose length field fits one byte.
pub put_apdu-read_put :
    (pin secret : Bytes)
    → 4 ≤ length pin
    → length pin ≤ 16
    → 1 ≤ length secret
    → length secret ≤ 64
    → (apdu : Bytes) × (put_apdu pin secret ≡ some apdu)
      × (read_put apdu ≡ some (pin, secret))
      × (length apdu ≤ 260)
unfolding put_apdu
put_apdu-read_put pin secret a b c e =
    let body : Bytes = length pin ∷ (pin ++ secret) in
    let long : leb (length pin) (length (pin ++ secret)) ≡ true =
      ground (arith, length-append pin secret) in
    let same : (length body == length body) ≡ true = ground arith in
    (
      0x00 ∷ ins_put ∷ 0x00 ∷ 0x00 ∷ length body ∷ body,
      ground arith,
      rw same (rw long (rw (take-append pin secret, drop-append pin secret) refl)),
      omega (arith, length-append pin secret, b, e),
    )
