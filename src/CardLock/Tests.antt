-- ===== src/CardLock/Tests.antt =====
-- The theorems on the card lock at a toy cipher and a card that answers as it should.
use nuri_passkey_prf_smartca.Base.{
  ℕ, zero, suc, true, false, List, [], ◌∷◌, ◌++◌, none, some, Bytes, Text, codes, equal, ◌≡◌, refl,
  arith, get_or, length, if◌then◌else◌, ◌>>=◌,
}
use nuri_passkey_prf_smartca.CardLock.Escrow.{
  gp_version, default_key, Payload, Envelope, Cipher, validate_payload, sealed_envelope, encrypt,
  decrypt,
}
use nuri_passkey_prf_smartca.CardLock.Recovery.{Documented, decrypt-encrypt}
use nuri_passkey_prf_smartca.CardLock.Files.{FilePath, Files, Status}
use nuri_passkey_prf_smartca.CardLock.Gp.{Ran, Outside, Args, Shell}
use nuri_passkey_prf_smartca.CardLock.Rotation.{one_key}
use nuri_passkey_prf_smartca.CardLock.Lock.{main}
use nuri_passkey_prf_smartca.CardLock.Sealing.{AllGuarded, main-AllGuarded}
use nuri_passkey_prf_smartca.CardLock.Outcome.{NoRotation, Verified, main-NoRotation, main-Verified}

abbrev copies : ℕ → ℕ → Bytes
copies zero x = []
copies (suc n) x = x ∷ copies n x

abbrev cplc_text : Text
cplc_text =
    codes "000000000000000000000000010203040000000000000000000000000000000000000000000000000000"

abbrev fresh_key : Text
fresh_key = codes "07070707070707070707070707070707"

abbrev payload : Payload
payload = record {
  gp = gp_version;
  cplc = cplc_text;
  serial = codes "01020304";
  key_version = 1;
  key_type = some (codes "AES");
  old_keys = one_key default_key;
  new_keys = one_key fresh_key;
}

abbrev salt : Bytes
salt = copies 32 7

abbrev iv : Bytes
iv = copies 12 7

abbrev password : Bytes
password = copies 20 b'p'

abbrev envelope : Envelope
envelope = record {
  format = codes "nuri-gp-escrow-v1";
  kdf = record { name = codes "scrypt"; cost = 131072; block = 8; lanes = 1 };
  salt = codes "0707070707070707070707070707070707070707070707070707070707070707";
  nonce = codes "070707070707070707070707";
  tag = codes "01010101010101010101010101010101";
  ciphertext = codes "05";
}

-- It stands for the one payload by the byte 5.
abbrev cipher : Cipher (Unit {0})
cipher = record {
  dump_payload = λ p. 5 ∷ [];
  load_payload = λ bytes. some payload;
  dump_envelope = λ e. 9 ∷ [];
  load_envelope = λ bytes. some envelope;
  scrypt = λ password salt. tt;
  seal = λ k nonce aad plain. (5 ∷ [], copies 16 1);
  unseal = λ k nonce aad ciphertext tag. some (5 ∷ []);
}

documented : Documented cipher salt iv password payload
unfolding sealed_envelope
documented = record {
  json_payload = refl;
  json_envelope = refl;
  gcm = λ k aad. (refl, omega arith, omega arith, refl);
}

decrypt-encrypt_example :
    decrypt cipher (encrypt cipher salt iv payload password) password
    ≡ (if validate_payload payload then some payload else none)
decrypt-encrypt_example =
    decrypt-encrypt cipher salt iv password payload documented refl (omega arith) refl (omega arith)

payload_valid : validate_payload payload ≡ true
unfolding validate_payload
payload_valid = refl

abbrev cplc_output : Text
cplc_output =
    codes
      "CPLC: ICFabricator=0000\nICType=0000\nOperatingSystemID=0000\nOperatingSystemReleaseDate=0000\nOperatingSystemReleaseLevel=0000\nICFabricationDate=0000\nICSerialNumber=01020304\nICBatchIdentifier=0000\nICModuleFabricator=0000\nICModulePackagingDate=0000\nICCManufacturer=0000\nICEmbeddingDate=0000\nICPrePersonalizer=0000\nICPrePersonalizationEquipmentDate=0000\nICPrePersonalizationEquipmentID=00000000\nICPersonalizer=0000\nICPersonalizationDate=0000\nICPersonalizationEquipmentID=00000000\n"

abbrev key_output : Text
key_output =
    codes
      "Version:   1 (0x01) ID:   1 (0x01) type: AES          length:  16\nVersion:   1 (0x01) ID:   2 (0x02) type: AES          length:  16\nVersion:   1 (0x01) ID:   3 (0x03) type: AES          length:  16\n"

abbrev app_output : Text
app_output =
    codes
      "APP: A0000006472F0001 (SELECTABLE)\nAPP: 4E5552494554483201 (SELECTABLE)\nAPP: 4E555249564C5401 (SELECTABLE)\n"

abbrev gp_answer : List Text → Ran
gp_answer command =
    if equal (get_or command 1 []) (codes "--version")
    then some (0, codes "# GlobalPlatformPro v24.10.15\n", [])
    else if equal (get_or command 1 []) (codes "--reader")
    then (elim (length command) [
      | suc (suc zero) ↦ some (0, codes "Available readers:\n- R\n- S\n", [])
      | suc (suc (suc (suc zero))) ↦ some (0, cplc_output ++ key_output, [])
      | _ ↦ some (0, app_output, [])
    ])
    else none

abbrev directory : Status
directory = record { is_directory = true; is_regular = false; is_own = true; mode = 448 }

abbrev private_file : Status
private_file = record { is_directory = false; is_regular = true; is_own = true; mode = 384 }

abbrev deny : FilePath
deny = record { parents = codes ".nuri-card" ∷ []; name = codes "no-lock-cplc.txt" }

abbrev escrow_path : FilePath
escrow_path = record { parents = codes "escrow" ∷ []; name = codes "card.json" }

abbrev files : Files (Unit {0})
files = record {
  enter = λ create path w. (some directory, w);
  open_file = λ path w. (
    some (private_file, (if equal path.name deny.name then codes "# none\n00000009\n" else 9 ∷ [])),
    w,
  );
  write = λ path p w. (true, w);
}

abbrev outside : Outside (Unit {0})
outside = record {
  files = files;
  deny_path = deny;
  resolve = λ text. escrow_path;
  default_escrow = λ cplc. escrow_path;
  environ = λ name. none;
  spawn = λ command ignored w. (gp_answer command, w);
  token = λ n w. (copies n 7, w);
  adjust_parity = λ bytes. some bytes;
  is_terminal = true;
  ask_secret = λ w. (some password, w);
  read_descriptor = λ fd w. (password, w);
  ask = λ w. (some (codes " 01020304 "), w);
}

abbrev args : Args
args = record { reader = some (codes "R"); escrow = none; passphrase_fd = none }

abbrev shell : Shell (Unit {0})
shell = record { outer = tt; log = []; attempted = false }

main-AllGuarded_example :
    AllGuarded outside cipher true (main outside cipher true true args shell).1.log
main-AllGuarded_example = main-AllGuarded outside cipher true true args shell tt

-- The lock runs to its end on this card.
main_run : (main outside cipher true true args shell).0 ≡ 0
unfolding main ◌>>=◌
main_run = refl

main-Verified_example : Verified outside cipher (main outside cipher true true args shell).1.log
main-Verified_example = main-Verified outside cipher true args shell main_run

-- A card whose serial is typed wrong is left alone.
abbrev astray : Outside (Unit {0})
astray = record outside { ask = λ w. (some (codes "01020305"), w) }

astray_run : (main astray cipher true true args shell).1.attempted ≡ false
unfolding main ◌>>=◌
astray_run = refl

main-NoRotation_example : NoRotation (main astray cipher true true args shell).1.log
main-NoRotation_example = main-NoRotation astray cipher true true args shell (λ _. tt) astray_run
