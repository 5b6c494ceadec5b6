-- ===== src/Crypto/Race.antt =====
-- Calls of `encrypt_message` and `decrypt_message` (crypto/encryption.rs) and of `init_session` (crypto/session.rs)
-- that overlap. A call takes a lock twice. The first two take the session lock by `get_session_mut`, which copies
-- the session out, and by `update_session`, which stores the copy back. `init_session` takes the lock of the
-- identity keys and then the session lock. Between the two a call works on its own session, and others may run.
-- `init_session` keeps the guard of the keys until it returns. That guard is not part of the state here: these calls
-- only read the keys, and no thread of this model generates any. Waiting for locks is the subject of Crypto/Locks.
pub mod Work
pub mod Begun
pub mod Schedule
pub mod Isolation
pub mod Keyed
pub mod Overlap
pub mod Reopened
pub mod Alone
use merabriar.Prelude.{
  ℕ, ◌+◌, ◌≡◌, [], ◌++◌, length, take, drop, ltb, if◌then◌else◌, ite, ℕ_discrete,
}
use merabriar.Rust.Text.{Bytes, Text, text}
use merabriar.Rust.Result.{Result, ok, err, panic, map_err}
use merabriar.Rust.Exec.{Exec, lift, pure, ◌>>=◌, ◌>>◌}
use merabriar.Rust.Utf8.{from_utf8}
use merabriar.Platform.{Platform}
use merabriar.Crypto.Session.{Session, derive_send_key, derive_recv_key}
use merabriar.Crypto.State.{Crypto, PublicKeyBundle}
use merabriar.Crypto.Sessions.{get_session_mut, update_session, insert_session, init_session}
use merabriar.Crypto.Sessions.Made.{new_session}
use merabriar.Crypto.Encryption.{encrypt_message, decrypt_message}

-- A call with its arguments, and the nonce of an encryption.
pub data Request : Type 0 where
  sending : Text → Text → Bytes → Request
  receiving : Text → Bytes → Request
  opening : Text → PublicKeyBundle → Request

abbrev pub contact : Request → Text
contact (sending id plaintext nonce) = id
contact (receiving id ciphertext) = id
contact (opening id theirs) = id

-- A thread: before its first acquisition, holding a session of its own, or returned. The text that
-- `decrypt_message` returns is its bytes, and the unit value of `init_session` no bytes.
pub data Task : Type 0 where
  called : Request → Task
  holding : Session → Request → Task
  returned : Result Bytes → Task

-- What a call does with the outcome of `get_session_mut`, or with the session that it has made.
unfoldable pub resume : Result Session → Request → Task
resume (ok session) r = holding session r
resume (err e) r = returned (err e)
resume panic r = returned panic

module _ {Cipher KeyPair : Type 0} (p : Platform Cipher KeyPair) where
  -- A call up to its second acquisition, which changes nothing. `decrypt_message` checks the length before the
  -- first.
  unfoldable pub begin : Request → Crypto → Task
  unfolding resume
  begin (sending id plaintext nonce) s =
      resume (get_session_mut id s).0 (sending id plaintext nonce)
  begin (receiving id ciphertext) s =
      if ltb (length ciphertext) (12 + 16)
      then returned (err (text "Ciphertext too short"))
      else resume (get_session_mut id s).0 (receiving id ciphertext)
  begin (opening id theirs) s = resume (new_session p id theirs s) (opening id theirs)

  -- The call as one function.
  abbrev pub call : Request → Exec Crypto Bytes
  call (sending id plaintext nonce) = encrypt_message p id plaintext nonce
  call (receiving id ciphertext) = decrypt_message p id ciphertext
  call (opening id theirs) = do init_session p id theirs; pure []

  -- A call after that: local work, then the second acquisition.
  unfoldable pub finish : Session → Request → Exec Crypto Bytes
  finish session (sending id plaintext nonce) = do
    derived ← lift (derive_send_key p session)
    cipher ← lift (map_err (text "Failed to create cipher: ") (p.new_from_slice derived.0))
    ciphertext ← lift (map_err (text "Encryption failed: ") (p.encrypt cipher nonce plaintext))
    update_session derived.1
    pure (nonce ++ ciphertext)
  finish session (receiving id ciphertext) = do
    derived ← lift (derive_recv_key p session)
    cipher ← lift (map_err (text "Failed to create cipher: ") (p.new_from_slice derived.0))
    let nonce = take 12 ciphertext
    let encrypted = drop 12 ciphertext
    plaintext ← lift (map_err (text "Decryption failed: ") (p.decrypt cipher nonce encrypted))
    update_session derived.1
    lift (map_err (text "Invalid UTF-8: ") (from_utf8 p.utf8_error plaintext))
  finish session (opening id theirs) = do insert_session id session; pure []

-- The threads are numbered.
pub record World : Type 0 where
  pub crypto : Crypto
  pub tasks : ℕ → Task

abbrev pub update : (ℕ → Task) → ℕ → Task → ℕ → Task
update tasks i t j = ite (ℕ_discrete i j) t (tasks j)

module _ {Cipher KeyPair : Type 0} (p : Platform Cipher KeyPair) where
  -- One acquisition of a lock by one of the threads.
  pub data Step (w w' : World) : Type 0 where
    copy_out :
        (i : ℕ) (r : Request)
        → w.tasks i ≡ called r
        → w' ≡ record { crypto = w.crypto; tasks = update w.tasks i (begin p r w.crypto) }
        → Step w w'
    store_back :
        (i : ℕ) (session : Session) (r : Request)
        → w.tasks i ≡ holding session r
        → w' ≡ record {
          crypto = (finish p session r w.crypto).1;
          tasks = update w.tasks i (returned (finish p session r w.crypto).0);
        }
        → Step w w'

  pub data Reach (w : World) : World → Type 0 where
    here : Reach w w
    next : {v u : World} → Reach w v → Step v u → Reach w u
