-- ===== src/Platform.antt =====
-- The crates that the engine calls and does not implement (hkdf, sha2, aes-gcm, x25519-dalek, ring), as a
-- record of the operations that are called, and their documented behaviour as records of laws.
-- `Cipher` and `KeyPair` are the crates' own types. An `Err` carries the Debug text of the crate's error.
use merabriar.Prelude.{ℕ, ◌+◌, ◌*◌, ◌^◌, ◌≤◌, ◌≡◌, ◌≢◌, Bool, Option, length}
use merabriar.Rust.Text.{Bytes, Text}
use merabriar.Rust.Result.{Result, ok, err}

pub record Platform (Cipher KeyPair : Type 0) : Type 0 where
  -- whether the build has overflow checks (debug) or not (release)
  pub overflow_checks : Bool
  -- `Hkdf::<Sha256>::new(salt, ikm).expand(info, out)` with the length of `out`
  pub expand : Option Bytes → Bytes → Bytes → ℕ → Result Bytes
  -- `Aes256Gcm::new_from_slice(key)`, `cipher.encrypt(nonce, plaintext)`, `cipher.decrypt(nonce, sealed)`
  pub new_from_slice : Bytes → Result Cipher
  pub encrypt : Cipher → Bytes → Bytes → Result Bytes
  pub decrypt : Cipher → Bytes → Bytes → Result Bytes
  -- `X25519PublicKey::from(&secret)`, `secret.diffie_hellman(&public)`
  pub x25519_public : Bytes → Bytes
  pub diffie_hellman : Bytes → Bytes → Bytes
  -- `Ed25519KeyPair::from_pkcs8(bytes)`, `keypair.sign(message)`, `keypair.public_key()`
  pub from_pkcs8 : Bytes → Result KeyPair
  pub sign : KeyPair → Bytes → Bytes
  pub public_key : KeyPair → Bytes
  -- the Debug text of the standard library's `FromUtf8Error`
  pub utf8_error : Bytes → Text

-- RFC 5869: `expand` fails only for an output longer than 255 hashes of 32 bytes.
pub record KdfLaws {Cipher KeyPair : Type 0} (p : Platform Cipher KeyPair) : Type 0 where
  pub okm : Option Bytes → Bytes → Bytes → ℕ → Bytes
  pub expands :
      (salt : Option Bytes) (ikm info : Bytes) (n : ℕ)
      → n ≤ 255 * 32
      → p.expand salt ikm info n ≡ ok (okm salt ikm info n)
  pub length_okm :
      (salt : Option Bytes) (ikm info : Bytes) (n : ℕ) → length (okm salt ikm info n) ≡ n

-- The longest plaintext that AES-GCM takes (`P_MAX` of the crate).
abbrev pub max_plaintext : ℕ
max_plaintext = 2 ^ 36

-- AES-256-GCM: a 32-byte key gives a cipher; a 12-byte nonce and a plaintext within the limit give a box
-- that is 16 bytes longer, and the same key and nonce open it.
pub record AeadLaws {Cipher KeyPair : Type 0} (p : Platform Cipher KeyPair) : Type 0 where
  pub cipher : Bytes → Cipher
  pub box : Bytes → Bytes → Bytes → Bytes
  pub makes : (key : Bytes) → length key ≡ 32 → p.new_from_slice key ≡ ok (cipher key)
  pub seals :
      (key nonce plaintext : Bytes)
      → length key ≡ 32
      → length nonce ≡ 12
      → length plaintext ≤ max_plaintext
      → p.encrypt (cipher key) nonce plaintext ≡ ok (box key nonce plaintext)
  pub length_box :
      (key nonce plaintext : Bytes) → length (box key nonce plaintext) ≡ length plaintext + 16
  pub unseals :
      (key nonce plaintext : Bytes)
      → length key ≡ 32
      → length nonce ≡ 12
      → p.decrypt (cipher key) nonce (box key nonce plaintext) ≡ ok plaintext

-- The tag is bound to the key: a box does not open under another key. The text is the crate's for
-- `aead::Error`.
pub record AeadRejects {Cipher KeyPair : Type 0} (p : Platform Cipher KeyPair) (laws : AeadLaws p)
    : Type 0 where
  pub rejection : Text
  pub rejects :
      (key other nonce plaintext : Bytes)
      → key ≢ other
      → p.decrypt (laws.cipher other) nonce (laws.box key nonce plaintext) ≡ err rejection

-- X25519: the two sides of an exchange compute the same secret.
pub record AgreementLaws {Cipher KeyPair : Type 0} (p : Platform Cipher KeyPair) : Type 0 where
  pub agrees :
      (a b : Bytes)
      → p.diffie_hellman a (p.x25519_public b) ≡ p.diffie_hellman b (p.x25519_public a)
  pub length_public : (a : Bytes) → length (p.x25519_public a) ≡ 32

-- RFC 8032: an Ed25519 public key has 32 bytes, a signature 64.
pub record SigningLaws {Cipher KeyPair : Type 0} (p : Platform Cipher KeyPair) : Type 0 where
  pub length_public_key : (k : KeyPair) → length (p.public_key k) ≡ 32
  pub length_signature : (k : KeyPair) (message : Bytes) → length (p.sign k message) ≡ 64
