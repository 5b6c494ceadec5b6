-- ===== src/Tests/Race.antt =====
-- Overlapping calls on the toy platform.
use merabriar.Prelude.{
  List, ◌∷◌, map, All, ◌⊎◌, ℕ, zero, suc, [], ◌∙◌, sym, ◌+◌, ◌≡◌, ◌≢◌, refl, ap, true, some,
  replicate, length, length-append, length-replicate, ◌++◌, arith,
}
use merabriar.Rust.Text.{Text}
use merabriar.Rust.Result.{ok}
use merabriar.Rust.HashMap
use merabriar.Crypto.Session.Derivation.{after_send}
use merabriar.Crypto.Encryption.Success.{wire, with_session}
use merabriar.Crypto.State.{Crypto}
use merabriar.Crypto.Peers.Delivery.{with_session-Holds}
use merabriar.Crypto.Peers.Handshake.{IsReady, agreed}
use merabriar.Crypto.Race.Reopened.{undoes_init_session}
use merabriar.Tests.Agreement.{own_keys, signed_up, bundle}
use merabriar.Crypto.Race.{
  Request, contact, sending, receiving, opening, Task, called, returned, World, Reach, here, call,
  finish,
}
use merabriar.Crypto.Race.Schedule.{update_self, after_copy, after_both, solo}
use merabriar.Crypto.Race.Overlap.{incoming, begin-sending, overlap-reuses_key, overlap-replays}
use merabriar.Crypto.Race.Keyed.{InPlace, Reach-InPlace}
use merabriar.Crypto.Sessions.Keyed.{Touches}
use merabriar.Crypto.Race.Alone.{call-Touches}
use merabriar.Crypto.Race.Isolation.{isolated}
use merabriar.Crypto.Locks
use merabriar.Crypto.Locks.{
  keys_lock, sessions_lock, shared, exclusive, acquire, release, message, Thread, moves,
  init_session_locks, message_locks, get_session_mut_locks, update_session_locks,
}
use merabriar.Crypto.Locks.Progress.{never_stuck}
use merabriar.Tests.Toy.{platform, kdf_laws, aead_laws}
use merabriar.Tests.Peers.{bob, to_bob, link, hello, again, Holds-to_bob, hello-IsSendable}
use merabriar.Tests.Sessions.{init-IsKeyed, link-IsKeyed}

abbrev hello_to : Text → Request
hello_to id = sending id hello.plaintext hello.nonce

abbrev from_bob : Request
from_bob =
    receiving bob (incoming (kdf_laws true) (aead_laws true) to_bob hello.nonce hello.plaintext)

abbrev two_senders : ℕ → Task
two_senders zero = called (hello_to bob)
two_senders (suc i) = called (sending bob again.plaintext again.nonce)

abbrev replayed : ℕ → Task
replayed zero = called (sending bob again.plaintext again.nonce)
replayed (suc i) = called from_bob

abbrev world : (ℕ → Task) → World
world tasks = record { crypto = link.sender; tasks = tasks }

zero_one : ◌≢◌ {A = ℕ} 0 1
zero_one e = absurd (omega arith)

zero_two : ◌≢◌ {A = ℕ} 0 2
zero_two e = absurd (omega arith)

one_two : ◌≢◌ {A = ℕ} 1 2
one_two e = absurd (omega arith)

overlap-reuses_key_example :
    (u : World) × Reach (platform true) (world two_senders) u
    × (u.tasks 0
        ≡ returned (ok (wire (kdf_laws true) (aead_laws true) to_bob hello.nonce hello.plaintext)))
    × (u.tasks 1
        ≡ returned (ok (wire (kdf_laws true) (aead_laws true) to_bob again.nonce again.plaintext)))
    × (HashMap.get bob u.crypto.sessions.value ≡ some (after_send (kdf_laws true) to_bob))
overlap-reuses_key_example =
    overlap-reuses_key (kdf_laws true) (aead_laws true) (world two_senders) 0 1 bob hello.plaintext
      again.plaintext hello.nonce again.nonce to_bob zero_one refl refl Holds-to_bob (omega arith)
      refl refl (omega arith) (omega arith)

overlap-replays_example :
    (u : World) × Reach (platform true) (world replayed) u
    × (u.tasks 0
        ≡ returned (ok (wire (kdf_laws true) (aead_laws true) to_bob again.nonce again.plaintext)))
    × (u.tasks 1 ≡ returned (ok hello.plaintext))
    × (u.tasks 2 ≡ returned (ok hello.plaintext))
overlap-replays_example =
    overlap-replays (kdf_laws true) (aead_laws true) (world replayed) 0 1 2 bob hello.plaintext
      again.plaintext hello.nonce again.nonce to_bob zero_one zero_two one_two refl refl refl
      Holds-to_bob (omega arith) (omega arith) refl refl hello-IsSendable.utf8 (omega arith)

-- Threads for contacts that all differ: "bob", "bob0", "bob00" and so on.
abbrev contact_of : ℕ → Text
contact_of i = bob ++ replicate i 48

length-contact_of : (i : ℕ) → length (contact_of i) ≡ 3 + i
length-contact_of i =
    omega (arith, length-append bob (replicate i 48), length-replicate {A = ℕ} i 48)

-- The first encrypts, the others open sessions.
abbrev one_each : ℕ → Request
one_each zero = hello_to bob
one_each (suc i) = opening (contact_of (suc i)) (bundle 4)

contact-one_each : (i : ℕ) → contact (one_each i) ≡ contact_of i
contact-one_each zero = refl
contact-one_each (suc i) = refl

differ : (i j : ℕ) → i ≢ j → contact (one_each i) ≢ contact (one_each j)
differ i j ne e =
    let same = sym (contact-one_each i) ∙ e ∙ contact-one_each j in
    ne (omega (arith, ap length same, length-contact_of i, length-contact_of j))

abbrev one_done : World
one_done = after_both (platform true) (world (λ i. called (one_each i))) 0 to_bob (one_each 0)

one_runs : Reach (platform true) (world (λ i. called (one_each i))) one_done
one_runs =
    solo (platform true) (world (λ i. called (one_each i))) (world (λ i. called (one_each i))) 0
      to_bob (one_each 0) here refl
      (begin-sending (kdf_laws true) (aead_laws true) bob hello.plaintext hello.nonce to_bob
        link.sender Holds-to_bob)

one_each-InPlace : InPlace (world (λ i. called (one_each i)))
one_each-InPlace = record { keyed = link-IsKeyed.0; own = λ i session r h. absurd (cc h) }

Reach-InPlace_example : InPlace one_done
Reach-InPlace_example = Reach-InPlace (platform true) one_runs one_each-InPlace

isolated_example :
    ((finish (platform true) to_bob (one_each 0) link.sender).0
      ≡ (call (platform true) (one_each 0) link.sender).0)
    × (HashMap.get bob one_done.crypto.sessions.value
        ≡ HashMap.get bob (call (platform true) (one_each 0) link.sender).1.sessions.value)
isolated_example =
    isolated (platform true) link.sender one_each one_done 0
      (finish (platform true) to_bob (one_each 0) link.sender).0 link-IsKeyed.0 refl differ one_runs
      (update_self
        (after_copy (platform true) (world (λ i. called (one_each i))) 0 (one_each 0)).tasks 0
        (returned (finish (platform true) to_bob (one_each 0) link.sender).0))

-- Alice has signed up and has a session for Bob, and opens another.
abbrev busy : Crypto
busy = with_session bob to_bob (signed_up 3).crypto

busy-IsReady : IsReady (own_keys 3) busy
busy-IsReady = record { keys_readable = refl; has_keys = refl; sessions_healthy = refl }

abbrev reopening : ℕ → Task
reopening zero = called (hello_to bob)
reopening (suc i) = called (opening bob (bundle 4))

undoes_init_session_example :
    (v : World) × Reach (platform true) (record { crypto = busy; tasks = reopening }) v
    × (v.tasks 1 ≡ returned (ok []))
    × (HashMap.get bob v.crypto.sessions.value
        ≡ some (agreed (kdf_laws true) (own_keys 3) bob (bundle 4)))
    × (u : World) × Reach (platform true) v u
    × (u.tasks 0
        ≡ returned (ok (wire (kdf_laws true) (aead_laws true) to_bob hello.nonce hello.plaintext)))
    × (HashMap.get bob u.crypto.sessions.value ≡ some (after_send (kdf_laws true) to_bob))
undoes_init_session_example =
    undoes_init_session (kdf_laws true) (aead_laws true)
      (record { crypto = busy; tasks = reopening }) 0 1 bob hello.plaintext hello.nonce to_bob
      (own_keys 3) (bundle 4) zero_one refl refl
      (with_session-Holds bob to_bob (signed_up 3).crypto refl) (omega arith) refl (omega arith)
      busy-IsReady refl

call-Touches_example :
    Touches bob
      (signed_up 3).crypto
      (call (platform true) (opening bob (bundle 4)) (signed_up 3).crypto).1
call-Touches_example =
    call-Touches (platform true) (opening bob (bundle 4)) (signed_up 3).crypto init-IsKeyed

-- One thread opens a session and has taken the lock of the keys, another encrypts.
abbrev keys_taken : List Thread
keys_taken =
    record {
      held = (keys_lock, shared) ∷ [];
      todo = acquire sessions_lock exclusive ∷ release ∷ [];
    }
    ∷ Locks.start message
    ∷ []

takes_keys : Locks.Reach (map Locks.start (Locks.opening ∷ message ∷ [])) keys_taken
unfolding init_session_locks message_locks get_session_mut_locks update_session_locks
takes_keys = Locks.next Locks.here (
    moves [] (Locks.start message ∷ []) [] (acquire keys_lock shared)
      (acquire sessions_lock exclusive ∷ release ∷ []) refl (tt, (tt, tt)) refl)

never_stuck_example :
    ((us : List Thread) × Locks.Step keys_taken us)
    ⊎ All (λ t. (t.todo ≡ []) × (t.held ≡ [])) keys_taken
never_stuck_example = never_stuck (Locks.opening ∷ message ∷ []) keys_taken takes_keys
