-- ===== src/Tests/Integration.antt =====
-- The integration tests on the toy platform.
use merabriar.Prelude.{ℕ, ◌+◌, ◌≡◌, refl, true, [], ◌∷◌, List, length-replicate, replicate}
use merabriar.Rust.Result.{ok}
use merabriar.Rust.HashMap
use merabriar.Platform.{SigningLaws}
use merabriar.Crypto.State
use merabriar.Crypto.Sessions.{has_session}
use merabriar.Crypto.Integration.Suite.{
  Draw, Test, valid_bundle, bundle_published, multiple_sessions, empty_plaintext,
  invalid_ciphertext, ciphertext_format, session_check, ciphertext_produced, full_lifecycle,
  no_session, run_tests, IsDrawn, IsClean,
}
use merabriar.Crypto.Integration.Passes.{suite_passes}
use merabriar.Tests.Toy.{sum, platform, kdf_laws, aead_laws, agreement_laws}

abbrev signing_laws : SigningLaws (platform true)
signing_laws = record {
  length_public_key = λ k. length-replicate {A = ℕ} 32 (sum k);
  length_signature = λ k message. length-replicate {A = ℕ} 64 (sum k + sum message);
}

abbrev draw : Draw
draw = record { pkcs8 = replicate 3 3; prekey = replicate 2 3; nonce = replicate 12 1 }

abbrev drawn : IsDrawn (platform true) draw
drawn = record { keypair = replicate 3 3; parses = refl; nonce12 = refl }

init-IsClean : IsClean State.init
unfolding has_session HashMap.get HashMap.empty
init-IsClean = record {
  keys_healthy = refl;
  sessions_healthy = refl;
  no_eve = refl;
  no_unknown = refl;
  no_stranger = refl;
}

abbrev suite : List Test
suite =
    no_session (replicate 12 1)
    ∷ valid_bundle draw
    ∷ multiple_sessions draw
    ∷ bundle_published draw
    ∷ ciphertext_format draw
    ∷ invalid_ciphertext draw
    ∷ empty_plaintext draw
    ∷ multiple_sessions draw
    ∷ session_check draw draw
    ∷ ciphertext_produced draw
    ∷ full_lifecycle draw
    ∷ []

suite_passes_example : (run_tests (platform true) suite State.init).0 ≡ ok tt
suite_passes_example =
    suite_passes (kdf_laws true) (aead_laws true) (agreement_laws true) signing_laws suite
      State.init init-IsClean
      (
        tt,
        (
          drawn,
          (
            drawn,
            (drawn, (drawn, (drawn, (drawn, (drawn, ((drawn, drawn), (drawn, (drawn, tt)))))))),
          ),
        ),
      )
