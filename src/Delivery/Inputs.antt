-- ===== src/Delivery/Inputs.antt =====
-- agents/src/buyer/verify.ts: what a delivery is checked against, and the packages that are called.
use bab_takehome.Base.{
  ℕ, Bool, not, Option, none, some, Text, text_eq, to_lower, Result, ok, err, raise_if,
}
use bab_takehome.Tar.Entries.{Bytes, Codec}
use bab_takehome.Tar.Paths.{TarError}

pub record Hashes : Type 0 where
  pub ciphertext_hash : Text
  pub wrapped_key_hash : Text
  pub wrapper_hash : Text

pub record Purchase : Type 0 where
  pub version_id : ℕ
  pub buyer : Text
  pub state : ℕ
  pub buyer_enc_pub_key : Text
  pub hashes : Hashes
  pub relay : Text

pub record Version : Type 0 where
  pub bundle_hash : Text
  pub ciphertext_hash : Text
  pub manifest_hash : Text
  pub image_digest : Text
  pub task_root : Text
  pub audit_root : Text
  pub task_count : ℕ
  pub audit_task_count : ℕ

pub record DeliveryInputs : Type 0 where
  pub chain_id : ℕ
  pub market : Text
  pub purchase_id : ℕ
  pub buyer : Text
  pub buyer_enc_sk : Text
  pub purchase : Purchase
  pub delivered_event : Option Hashes
  pub version : Version
  pub wrapper_json : Text
  pub wrapped_key : Bytes
  pub ciphertext : Bytes

-- The fields that are checked of a parsed wrapper and of a parsed manifest. The digest of the grader
-- is empty where it is not there.
pub record Wrapper : Type 0 where
  pub purchase_id : Text
  pub chain_id : ℕ
  pub market : Text
  pub buyer : Text
  pub buyer_enc_pub_key : Text
  pub version_id : Text
  pub bundle_hash : Text
  pub ciphertext_hash : Text
  pub relay : Text

pub record Manifest : Type 0 where
  pub task_root : Text
  pub audit_root : Text
  pub image_digest : Text
  pub task_count : ℕ
  pub audit_task_count : ℕ
  pub bundle_digest : Text
  pub grader_digest : Text

-- The packages that are called: digests, key agreement, decryption and schemas. `none` is where they
-- throw. `utf8_text` is the decoder of bytes.
pub record DeliveryIo : Type 0 where
  pub codec : Codec
  pub sha256_hex : Bytes → Text
  pub sha256_text : Text → Text
  pub x25519_public_key : Text → Text
  pub parse_wrapper : Text → Option Wrapper
  pub unwrap_key : (blob : Bytes) → (secret_key : Text) → (wrapper_hash : Text) → Option Bytes
  pub decrypt_file : (key : Bytes) → Bytes → Option Bytes
  pub parse_manifest : Bytes → Option Manifest
  pub utf8_text : Bytes → Text

-- The check that failed, or an error of `writeTar` outside the checks.
pub data DeliveryError : Type 0 where
  failed : Text → DeliveryError
  tar_error : TarError → DeliveryError

abbrev pub same_hex : Text → Text → Bool
same_hex a b = text_eq (to_lower a) (to_lower b)

-- `must(name, cond, ...)`
abbrev pub must : Text → Bool → Result DeliveryError (Unit {0})
must name cond = raise_if (not cond) (failed name)

abbrev pub try_get {ℓ} : {A : Type ℓ} → Text → Option A → Result DeliveryError A
try_get name none = err (failed name)
try_get name (some a) = ok a
