-- ===== src/Tests/Peers.antt =====
-- Sessions and messages on the toy platform.
use merabriar.Prelude.{◌≡◌, ◌≢◌, refl, ap, true, [], ◌∷◌, replicate, arith}
use merabriar.Rust.Text.{Bytes, Text, text}
use merabriar.Rust.Result.{ok, err}
use merabriar.Rust.Utf8.{is_utf8}
use merabriar.Rust.Words.{to_be_bytes}
use merabriar.Crypto.Session.{Session}
use merabriar.Crypto.Session.Derivation.{fresh, after_recv}
use merabriar.Crypto.State.{Crypto, IdentityKeys, PublicKeyBundle}
use merabriar.Crypto.State
use merabriar.Crypto.Encryption.{decrypt_message}
use merabriar.Crypto.Encryption.Success.{Holds, with_session}
use merabriar.Crypto.Peers.{Outgoing, IsSendable}
use merabriar.Crypto.Peers.Delivery.{with_session-Holds, expected}
use merabriar.Crypto.Peers.Chain.{encrypt_all, sealed_from, IsOnChain, encrypt_all-chain}
use merabriar.Crypto.Peers.Receiving.{decrypt_all, ReceivesOnChain, decrypt_all-chain}
use merabriar.Crypto.Peers.Disorder.{receiving_key, out_of_order}
use merabriar.Tests.Toy.{platform, kdf_laws, aead_laws, aead_rejects, sum}

abbrev pub secret : Bytes
secret = replicate 32 5

abbrev pub alice : Text
alice = text "alice"

abbrev pub bob : Text
bob = text "bob"

-- Alice's session with Bob, and a session of Bob's that receives where she sends.
abbrev pub to_bob : Session
to_bob = fresh (kdf_laws true) bob secret

abbrev pub from_alice : Session
from_alice = record to_bob {
  recipient_id = alice;
  send_chain_key = to_bob.recv_chain_key;
  recv_chain_key = to_bob.send_chain_key;
}

pub record Link : Type 0 where
  pub sender : Crypto
  pub receiver : Crypto

abbrev pub link : Link
link = record {
  sender = with_session bob to_bob State.init;
  receiver = with_session alice from_alice State.init;
}

abbrev pub hello : Outgoing
hello = record { plaintext = text "hello"; nonce = replicate 12 1 }

abbrev pub again : Outgoing
again = record { plaintext = text "again"; nonce = replicate 12 2 }

pub Holds-to_bob : Holds bob to_bob link.sender
Holds-to_bob = with_session-Holds bob to_bob State.init refl

pub Holds-from_alice : Holds alice from_alice link.receiver
Holds-from_alice = with_session-Holds alice from_alice State.init refl

pub hello-IsSendable : IsSendable hello
unfolding is_utf8
hello-IsSendable = record { nonce12 = refl; fits = omega arith; utf8 = refl }

pub again-IsSendable : IsSendable again
unfolding is_utf8
again-IsSendable = record { nonce12 = refl; fits = omega arith; utf8 = refl }

encrypt_all-chain_example :
    ((encrypt_all (platform true) bob (hello ∷ again ∷ []) link.sender).0
      ≡ ok (
          sealed_from
            (kdf_laws true)
            (aead_laws true)
            to_bob.send_chain_key
            0
            (hello ∷ again ∷ [])))
    × (last : Session) × Holds bob last
        (encrypt_all (platform true) bob (hello ∷ again ∷ []) link.sender).1
    × IsOnChain (kdf_laws true) (aead_laws true) to_bob.send_chain_key 2 last
encrypt_all-chain_example =
    encrypt_all-chain (kdf_laws true) (aead_laws true) bob to_bob.send_chain_key 0
      (hello ∷ again ∷ []) to_bob link.sender Holds-to_bob (record { counter = refl; key = refl })
      (omega arith) (hello-IsSendable, (again-IsSendable, tt))

-- What Alice's session with Bob expects, and what it expects after that.
abbrev pub expected_now : Outgoing → Bytes
expected_now m = expected (kdf_laws true) (aead_laws true) to_bob m

abbrev expected_later : Outgoing → Bytes
expected_later m = expected (kdf_laws true) (aead_laws true) (after_recv (kdf_laws true) to_bob) m

decrypt_all-chain_example :
    let r =
      decrypt_all
        (platform true)
        bob
        (sealed_from (kdf_laws true) (aead_laws true) to_bob.recv_chain_key 0 (hello ∷ again ∷ []))
        link.sender in
    (r.0 ≡ ok (text "hello" ∷ text "again" ∷ []))
    × (last : Session) × Holds bob last r.1
    × ReceivesOnChain (kdf_laws true) (aead_laws true) to_bob.recv_chain_key 2 last
decrypt_all-chain_example =
    decrypt_all-chain (kdf_laws true) (aead_laws true) bob to_bob.recv_chain_key 0
      (hello ∷ again ∷ []) to_bob link.sender Holds-to_bob (record { counter = refl; key = refl })
      (omega arith) (hello-IsSendable, (again-IsSendable, tt))

receiving_keys_differ :
    receiving_key (kdf_laws true) to_bob
    ≢ receiving_key (kdf_laws true) (after_recv (kdf_laws true) to_bob)
unfolding to_be_bytes
receiving_keys_differ e = absurd (omega (arith, ap sum e))

out_of_order_example :
    let refusal = err (text "Decryption failed: aead::Error") in
    (t u : Crypto) × (decrypt_message (platform true) bob (expected_later again) link.sender
      ≡ (refusal, link.sender))
    × (decrypt_message (platform true) bob (expected_now hello) link.sender
        ≡ (ok hello.plaintext, t))
    × (decrypt_message (platform true) bob (expected_now hello) t ≡ (refusal, t))
    × (decrypt_message (platform true) bob (expected_later again) t ≡ (ok again.plaintext, u))
out_of_order_example =
    out_of_order (kdf_laws true) (aead_laws true) (aead_rejects true) bob hello again to_bob
      link.sender Holds-to_bob (omega arith) hello-IsSendable again-IsSendable receiving_keys_differ
