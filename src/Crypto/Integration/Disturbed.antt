-- ===== src/Crypto/Integration/Disturbed.antt =====
-- A generation of keys by another thread in the middle of test_get_public_key_bundle_after_generation. The test
-- runner of Rust runs the tests of a file in threads of one process, and the keys are a static.
use merabriar.Prelude.{◌≡◌, ◌≢◌, refl, ap, false, inl, inr, Bool-cases, if_neg, true}
use merabriar.Rust.Text.{Text_discrete}
use merabriar.Rust.Result.{ok, panic}
use merabriar.Platform.{Platform}
use merabriar.Crypto.State.{Crypto, KeyBundle}
use merabriar.Crypto.Keys.{generate_identity_keys}
use merabriar.Crypto.Keys.Published.{generates}
use merabriar.Crypto.Integration.{same_bytes, expect_published}
use merabriar.Crypto.Integration.Suite.{Draw, IsDrawn, IsClean, signed, published}

module _ {Cipher KeyPair : Type 0} {p : Platform Cipher KeyPair} (d d' : Draw) (drawn : IsDrawn p d)
    (drawn' : IsDrawn p d') where
  abbrev generated : KeyBundle
  generated = record {
    identity_public_key = p.public_key drawn.keypair;
    signed_prekey = p.x25519_public d.prekey;
    signature = p.sign drawn.keypair (p.x25519_public d.prekey);
  }

  -- The test has generated its keys, then another thread generates keys with another prekey: the test fails, though
  -- neither call does.
  generation-disturbed :
      (s : Crypto)
      → IsClean s
      → p.x25519_public d'.prekey ≢ p.x25519_public d.prekey
      → (generate_identity_keys p (ok d.pkcs8) d.prekey s ≡ (ok generated, signed d drawn s))
        × ((generate_identity_keys p (ok d'.pkcs8) d'.prekey (signed d drawn s)).1
            ≡ signed d' drawn' s)
        × ((expect_published p generated (signed d' drawn' s)).0 ≡ panic)
  unfolding expect_published
  generation-disturbed s clean ne =
      let differs : same_bytes (p.x25519_public d'.prekey) (p.x25519_public d.prekey) ≡ false =
        if_neg (Text_discrete (p.x25519_public d'.prekey) (p.x25519_public d.prekey)) ne true
          false in
      (
        generates p d.pkcs8 d.prekey drawn.keypair s drawn.parses clean.keys_healthy,
        ap (λ r. r.1)
            (generates p d'.pkcs8 d'.prekey drawn'.keypair (signed d drawn s) drawn'.parses refl),
        elim (Bool-cases (same_bytes (p.public_key drawn'.keypair) (p.public_key drawn.keypair))) [
          | inl same ↦ rw (published d' drawn' s, same, differs)
          | inr other ↦ rw (published d' drawn' s, other)
        ],
      )
