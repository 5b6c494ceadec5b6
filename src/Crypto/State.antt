-- ===== src/Crypto/State.antt =====
-- crypto/mod.rs: the two statics, and the key types of crypto/key_management.rs that they hold.
use merabriar.Prelude.{Option, none}
use merabriar.Rust.Text.{Bytes}
use merabriar.Rust.Lock.{Lock, new_lock}
use merabriar.Rust.HashMap
use merabriar.Rust.HashMap.{HashMap}
use merabriar.Crypto.Session.{Session}

pub record IdentityKeys : Type 0 where
  pub identity_keypair : Bytes
  pub signed_prekey_private : Bytes
  pub signed_prekey_public : Bytes
  pub signed_prekey_signature : Bytes

pub record KeyBundle : Type 0 where
  pub identity_public_key : Bytes
  pub signed_prekey : Bytes
  pub signature : Bytes

pub record PublicKeyBundle : Type 0 where
  pub identity_public_key : Bytes
  pub signed_prekey : Bytes
  pub signature : Bytes
  pub one_time_prekey : Option Bytes

-- The statics `SESSIONS` and `IDENTITY_KEYS`.
pub record Crypto : Type 0 where
  pub sessions : Lock (HashMap Session)
  pub identity_keys : Lock (Option IdentityKeys)

abbrev pub init : Crypto
init = record { sessions = new_lock HashMap.empty; identity_keys = new_lock none }
