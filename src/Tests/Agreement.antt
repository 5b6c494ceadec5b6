-- ===== src/Tests/Agreement.antt =====
-- A sign-up and a handshake on the toy platform.
use merabriar.Prelude.{
  Bool, false, [], ◌∷◌, inl, zero, suc, if◌then◌else◌, ℕ, ◌≡◌, ◌≢◌, refl, ap, true, none, some,
  replicate, arith,
}
use merabriar.Rust.Text.{Bytes, Text, text}
use merabriar.Rust.Result.{ok, err}
use merabriar.Rust.Lock.{new_lock}
use merabriar.Rust.Words.{to_be_bytes}
use merabriar.Crypto.Session.{Session}
use merabriar.Crypto.State.{Crypto, IdentityKeys, KeyBundle, PublicKeyBundle}
use merabriar.Crypto.State
use merabriar.Crypto.Keys
use merabriar.Crypto.Sessions
use merabriar.Crypto.Peers.Handshake.{
  IsReady, Ends, agreed, first_send_key, first_recv_key, init_session_lem, handshake-mirrors,
  zero-MayStep,
}
use merabriar.Crypto.Encryption.Success.{with_session, wire, encrypt_message_lem}
use merabriar.Crypto.Encryption
use merabriar.Crypto.Session.Derivation.{after_send}
use merabriar.Crypto.Peers.Delivery.{with_session-Holds}
use merabriar.Crypto.Peers.Talk.{Talk, began, put, Reach, here, next, writes}
use merabriar.Crypto.Peers.Talk.Keys.{Users, secret, IsSeparated}
use merabriar.Crypto.Peers.Talk.Refused.{nothing_arrives}
use merabriar.Storage
use merabriar.Sync
use merabriar.Engine.{Core}
use merabriar.Api.{
  KeyBundleDto, generate_identity_keys, init_session, encrypt_message, decrypt_message,
}
use merabriar.Api.Agreement.{first_message-refused_after_sign_up}
use merabriar.Tests.Toy.{platform, kdf_laws, aead_laws, aead_rejects, agreement_laws, sum}

abbrev pub start : Core Bytes
start = record { crypto = State.init; queue = Sync.empty; db = Storage.empty }

-- The keys made from a PKCS #8 document and an X25519 secret of one repeated byte.
abbrev pub own_keys : ℕ → IdentityKeys
own_keys n = record {
  identity_keypair = replicate 3 n;
  signed_prekey_private = replicate 2 n;
  signed_prekey_public = (platform true).x25519_public (replicate 2 n);
  signed_prekey_signature =
      (platform true).sign (replicate 3 n) ((platform true).x25519_public (replicate 2 n));
}

abbrev pub shared_keys : ℕ → KeyBundleDto
shared_keys n = record {
  identity_public_key = (platform true).public_key (replicate 3 n);
  signed_prekey = (own_keys n).signed_prekey_public;
  signature = (own_keys n).signed_prekey_signature;
}

abbrev pub signed_up : ℕ → Core Bytes
signed_up n = record start {
  crypto = record State.init { identity_keys = new_lock (some (own_keys n)) };
}

pub signs_up :
    (n : ℕ)
    → generate_identity_keys (platform true) (ok (replicate 3 n)) (replicate 2 n) start
      ≡ (ok (shared_keys n), signed_up n)
unfolding generate_identity_keys Keys.generate_identity_keys
signs_up n = refl

abbrev pub bundle : ℕ → PublicKeyBundle
bundle n = record {
  identity_public_key = (shared_keys n).identity_public_key;
  signed_prekey = (shared_keys n).signed_prekey;
  signature = (shared_keys n).signature;
  one_time_prekey = none;
}

pub ready : (n : ℕ) → IsReady (own_keys n) (signed_up n).crypto
ready n = record { keys_readable = refl; has_keys = refl; sessions_healthy = refl }

-- The engine of the user `n` with a session for the user `m` under a name.
abbrev pub opened : ℕ → Text → ℕ → Core Bytes
opened n name m = record start {
  crypto =
      with_session name (agreed (kdf_laws true) (own_keys n) name (bundle m)) (signed_up n).crypto;
}

opens :
    (n m : ℕ) (name : Text)
    → init_session
        (platform true)
        name
        (shared_keys m).identity_public_key
        (shared_keys m).signed_prekey
        (shared_keys m).signature
        none
        (signed_up n)
      ≡ (ok tt, opened n name m)
unfolding init_session
opens n m name = rw (
    init_session_lem (kdf_laws true) name (own_keys n) (bundle m) (signed_up n).crypto (ready n)
      refl)

separated :
    first_send_key (kdf_laws true) (
      (platform true).diffie_hellman
        (replicate 2 3)
        ((platform true).x25519_public (replicate 2 4)))
    ≢ first_recv_key (kdf_laws true) (
        (platform true).diffie_hellman
          (replicate 2 3)
          ((platform true).x25519_public (replicate 2 4)))
unfolding to_be_bytes
separated e = absurd (omega (arith, ap sum e))

first_message-refused_after_sign_up_example :
    (sealed : Bytes) × (a₃ : Core Bytes) × (encrypt_message
        (platform true)
        (text "bob")
        (text "hello")
        (replicate 12 1)
        (opened 3 (text "bob") 4)
      ≡ (ok sealed, a₃))
    × (decrypt_message (platform true) (text "alice") sealed (opened 4 (text "alice") 3)
        ≡ (err (text "Decryption failed: aead::Error"), opened 4 (text "alice") 3))
first_message-refused_after_sign_up_example =
    first_message-refused_after_sign_up (kdf_laws true) (aead_laws true) (agreement_laws true)
      (aead_rejects true) (ok (replicate 3 3)) (ok (replicate 3 4)) (replicate 2 3) (replicate 2 4)
      start start (signed_up 3) (signed_up 4) (opened 3 (text "bob") 4) (opened 4 (text "alice") 3)
      (shared_keys 3) (shared_keys 4) (text "alice") (text "bob") (text "hello") (replicate 12 1)
      refl refl (signs_up 3) (signs_up 4) (opens 3 4 (text "bob")) (opens 4 3 (text "alice"))
      separated refl (omega arith)

ends :
    Ends
      (platform true)
      (signed_up 3).crypto
      (signed_up 4).crypto
      (own_keys 3)
      (own_keys 4)
      (bundle 3)
      (bundle 4)
ends = record { ready_a = ready 3; ready_b = ready 4; prekey_a = refl; prekey_b = refl }

handshake-mirrors_example :
    (sa sb : Session) × (Sessions.init_session
        (platform true)
        (text "bob")
        (bundle 4)
        (signed_up 3).crypto
      ≡ (ok tt, with_session (text "bob") sa (signed_up 3).crypto))
    × (Sessions.init_session (platform true) (text "alice") (bundle 3) (signed_up 4).crypto
        ≡ (ok tt, with_session (text "alice") sb (signed_up 4).crypto))
    × (sa.root_key ≡ sb.root_key)
    × (sa.send_chain_key ≡ sb.send_chain_key)
    × (sa.recv_chain_key ≡ sb.recv_chain_key)
handshake-mirrors_example =
    handshake-mirrors (kdf_laws true) (aead_laws true) (agreement_laws true) ends (text "alice")
      (text "bob")

abbrev key_bundle : KeyBundle
key_bundle = record {
  identity_public_key = (shared_keys 3).identity_public_key;
  signed_prekey = (shared_keys 3).signed_prekey;
  signature = (shared_keys 3).signature;
}

generated :
    Keys.generate_identity_keys (platform true) (ok (replicate 3 3)) (replicate 2 3) State.init
    ≡ (ok key_bundle, (signed_up 3).crypto)
unfolding Keys.generate_identity_keys
generated = refl

abbrev users : Users (platform true)
users = record {
  name = λ x. if x then text "alice" else text "bob";
  keys = λ x. if x then own_keys 3 else own_keys 4;
  bundle = λ x. if x then bundle 3 else bundle 4;
  prekey = prekeys;
}
  where
    prekeys :
        (x : Bool)
        → (if x then bundle 3 else bundle 4).signed_prekey
          ≡ (platform true).x25519_public
              (if x then own_keys 3 else own_keys 4).signed_prekey_private
    prekeys true = refl
    prekeys false = refl

abbrev engines : Bool → Crypto
engines x = (if x then signed_up 3 else signed_up 4).crypto

engines-IsReady : (x : Bool) → IsReady (users.keys x) (engines x)
engines-IsReady true = ready 3
engines-IsReady false = ready 4

-- Alice sends one message, which Bob reads.
abbrev alice_opened : Crypto
alice_opened =
    with_session (text "bob") (agreed (kdf_laws true) (own_keys 3) (text "bob") (bundle 4))
      (signed_up 3).crypto

abbrev said : Bytes
said =
    wire (kdf_laws true) (aead_laws true)
      (agreed (kdf_laws true) (own_keys 3) (text "bob") (bundle 4)) (replicate 12 1) (text "hello")

abbrev alice_wrote : Crypto
alice_wrote =
    with_session (text "bob")
      (after_send (kdf_laws true) (agreed (kdf_laws true) (own_keys 3) (text "bob") (bundle 4)))
      alice_opened

abbrev start_talk : Talk
start_talk = began (platform true) users.name users.bundle engines

abbrev after_hello : Talk
after_hello = record {
  who = put true alice_wrote start_talk.who;
  mail = put false (said ∷ []) start_talk.mail;
}

hello_sent :
    Encryption.encrypt_message
      (platform true)
      (text "bob")
      (text "hello")
      (replicate 12 1)
      (start_talk.who true)
    ≡ (ok said, alice_wrote)
hello_sent =
    rw
      (init_session_lem (kdf_laws true) (text "bob") (own_keys 3) (bundle 4) (signed_up 3).crypto
        (ready 3) refl)
      (encrypt_message_lem (kdf_laws true) (aead_laws true) (text "bob") (text "hello")
        (replicate 12 1) (agreed (kdf_laws true) (own_keys 3) (text "bob") (bundle 4)) alice_opened
        (with_session-Holds (text "bob")
          (agreed (kdf_laws true) (own_keys 3) (text "bob") (bundle 4)) (signed_up 3).crypto refl)
        (zero-MayStep true) refl (omega arith))

hello_talk : Reach (platform true) users.name users.bundle 2 start_talk after_hello
hello_talk = next here (
    writes true (text "hello") (replicate 12 1) said alice_wrote refl (omega arith) (omega arith)
      hello_sent refl)

all-IsSeparated : IsSeparated (kdf_laws true) 2 (secret users true)
unfolding to_be_bytes
all-IsSeparated zero h e = absurd (omega (arith, ap sum e))
all-IsSeparated (suc zero) h e = absurd (omega (arith, ap sum e))
all-IsSeparated (suc (suc n)) h e = absurd (omega arith)

nothing_arrives_example :
    Encryption.decrypt_message (platform true) (text "alice") said (after_hello.who false)
    ≡ (err (text "Decryption failed: aead::Error"), after_hello.who false)
nothing_arrives_example =
    nothing_arrives (kdf_laws true) (aead_laws true) (aead_rejects true) (agreement_laws true) users
      2 engines after_hello false said engines-IsReady all-IsSeparated hello_talk (inl refl)
