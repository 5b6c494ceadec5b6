-- ===== src/Crypto/Sessions.antt =====
-- crypto/session.rs: the operations on the session store.
pub mod Keyed
pub mod Made
pub mod Touched
pub mod Opened
use merabriar.Prelude.{Bool, false, ◌++◌, length, ◌==◌, if◌then◌else◌}
use merabriar.Rust.Text.{Bytes, Text, text}
use merabriar.Rust.Result.{Result, ok, err, panic}
use merabriar.Rust.Exec.{Exec, lift, ◌>>=◌}
use merabriar.Rust.Lock.{read, write}
use merabriar.Rust.HashMap.{get, insert, contains_key}
use merabriar.Platform.{Platform}
use merabriar.Crypto.Session
use merabriar.Crypto.Session.{Session}
use merabriar.Crypto.State.{Crypto, PublicKeyBundle}
use merabriar.Crypto.Keys.{ok_or}

-- `SESSIONS.write()?.insert(key, session)`
unfoldable pub insert_session : Text → Session → Exec Crypto (Unit {0})
insert_session key session s =
    let (r, l) = write (λ m. (ok tt, insert key session m)) s.sessions in
    (r, record s { sessions = l })

-- `try_into::<[u8; 32]>()`
unfoldable pub try_into_32 : Bytes → Result Bytes
try_into_32 bytes = if length bytes == 32 then ok bytes else err (text "Invalid prekey length")

unfoldable pub get_session_mut : Text → Exec Crypto Session
get_session_mut recipient_id = do
  sessions ← λ s. (read s.sessions, s)
  lift (ok_or (text "No session for " ++ recipient_id) (get recipient_id sessions))

unfoldable pub update_session : Session → Exec Crypto (Unit {0})
unfolding insert_session
update_session session = insert_session session.recipient_id session

unfoldable pub has_session : Text → Crypto → Bool
has_session recipient_id s = elim (read s.sessions) [
  | ok sessions ↦ contains_key recipient_id sessions
  | err _ ↦ false
  | panic ↦ false
]

module _ {Cipher KeyPair : Type 0} (p : Platform Cipher KeyPair) where
  unfoldable pub init_session : Text → PublicKeyBundle → Exec Crypto (Unit {0})
  unfolding insert_session
  init_session recipient_id recipient_keys = do
    keys ← λ s. (read s.identity_keys, s)
    our_keys ← lift (ok_or (text "Our keys not initialized") keys)
    their_prekey ← lift (try_into_32 recipient_keys.signed_prekey)
    let shared_secret = p.diffie_hellman our_keys.signed_prekey_private their_prekey
    session ← lift (Session.new p recipient_id shared_secret)
    insert_session recipient_id session
