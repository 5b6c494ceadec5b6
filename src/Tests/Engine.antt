-- ===== src/Tests/Engine.antt =====
-- Sequences of exported calls on the toy platform and the database in memory.
use merabriar.Prelude.{◌≡◌, refl, true, [], ◌∷◌, List, replicate, arith}
use merabriar.Rust.Text.{text}
use merabriar.Rust.Result.{ok}
use merabriar.Crypto.State.{KeyBundle}
use merabriar.Rust.Int.{pos}
use merabriar.Crypto.Encryption.Success.{wire}
use merabriar.Crypto.Peers.Handshake.{agreed}
use merabriar.Sync
use merabriar.Storage
use merabriar.Engine
use merabriar.Engine.{Core}
use merabriar.Sync.{QueuedMessage}
use merabriar.Engine.Offline.{Letter, put_off, letters_from, offline_waits}
use merabriar.Engine.Calls.{Call, starting, generating, opening, encrypting, queueing, after, run}
use merabriar.Crypto.Keys.Published.{stored_keys}
use merabriar.Engine.Calls.Soundness.{IsSound, run-IsSound, recovers}
use std.Path.{PathP}
use merabriar.Api.Transfer.{Interface, OwnBundle, ShownBundle, of_lib, of_api, interfaces_equal}
use merabriar.Tests.Toy.{platform, kdf_laws, aead_laws}
use merabriar.Tests.ToySqlite.{sqlite}
use merabriar.Tests.ToyTables.{Tables}
use merabriar.Tests.Peers.{
  bob, secret, to_bob, link, hello, again, hello-IsSendable, again-IsSendable, Holds-to_bob,
}
use merabriar.Tests.Sessions.{link-IsKeyed}
use merabriar.Tests.Agreement.{bundle}

-- Alice's engine with her session for Bob.
abbrev engine : Core Tables
engine = record { crypto = link.sender; queue = Sync.empty; db = Storage.empty }

engine-IsSound : IsSound engine
engine-IsSound = record { keyed = link-IsKeyed.0; sessions = refl; keys = refl; queue = refl }

abbrev day : List Call
day =
    starting (text "core.db") (text "key")
    ∷ encrypting bob hello.plaintext hello.nonce
    ∷ generating (ok (replicate 3 3)) (replicate 2 3)
    ∷ opening bob (bundle 4)
    ∷ queueing (Sync.new (pos 5) (text "m1") bob secret)
    ∷ []

run-IsSound_example : IsSound (run (platform true) sqlite day engine)
run-IsSound_example = run-IsSound (platform true) sqlite day engine engine-IsSound

recovers_example :
    let u = run (platform true) sqlite day engine in
    let v = after (platform true) sqlite (generating (ok (replicate 3 3)) (replicate 2 3)) u in
    let w = after (platform true) sqlite (opening bob (bundle 4)) v in
    ((shared : KeyBundle) × ((Engine.generate_identity_keys
          (platform true)
          (ok (replicate 3 3))
          (replicate 2 3)
          u).0
        ≡ ok shared))
    × ((Engine.init_session (platform true) bob (bundle 4) v).0 ≡ ok tt)
    × ((Engine.encrypt_message (platform true) bob hello.plaintext hello.nonce w).0
        ≡ ok (
            wire
              (kdf_laws true)
              (aead_laws true)
              (agreed
                (kdf_laws true)
                (stored_keys (platform true) (replicate 3 3) (replicate 2 3) (replicate 3 3))
                bob
                (bundle 4))
              hello.nonce
              hello.plaintext))
recovers_example =
    recovers (kdf_laws true) (aead_laws true) sqlite day engine bob hello.plaintext (bundle 4)
      (replicate 3 3) (replicate 2 3) hello.nonce (replicate 3 3) engine-IsSound refl refl refl
      (omega arith)

abbrev letters : List Letter
letters = (text "m1", hello) ∷ (text "m2", again) ∷ []

offline_waits_example :
    let done = put_off (platform true) bob (pos 5) letters (record engine { queue = Sync.empty }) in
    (done.0 ≡ ok tt)
    × (Engine.get_queued_messages_internal done.1
        ≡ ok (letters_from (kdf_laws true) (aead_laws true) to_bob bob (pos 5) letters))
    × ((Engine.clear_queue_internal (text "m1" ∷ text "m2" ∷ []) done.1).1.queue ≡ Sync.empty)
offline_waits_example =
    offline_waits (kdf_laws true) (aead_laws true) bob (pos 5) letters to_bob engine Holds-to_bob
      (omega arith) (hello-IsSendable, (again-IsSendable, tt))

interfaces_equal_example :
    PathP
      (λ i. Interface Tables (OwnBundle i) (ShownBundle i))
      (of_lib (platform true) sqlite)
      (of_api (platform true) sqlite)
interfaces_equal_example = interfaces_equal (platform true) sqlite
