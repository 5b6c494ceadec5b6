-- ===== src/Crypto/Locks.antt =====
-- The locks that the functions of crypto/session.rs, crypto/encryption.rs and crypto/key_management.rs take, in
-- the order in which they take them, and when their guards are dropped. A call that returns early takes the locks up to
-- there. What is done under a lock
-- is left to the other modules. Which of several waiting threads gets a lock is left open.
pub mod Progress
use merabriar.Prelude.{◌≡◌, Bool, true, false, List, [], ◌∷◌, ◌++◌, All}

-- `IDENTITY_KEYS` and `SESSIONS`
pub data Lock : Type 0 where
  keys_lock sessions_lock : Lock

-- `read()` and `write()`
pub data Mode : Type 0 where
  shared exclusive : Mode

-- To take a lock, and to drop all guards at the end of a function.
pub data Action : Type 0 where
  acquire : Lock → Mode → Action
  release : Action

unfoldable pub get_session_mut_locks : List Action
get_session_mut_locks = acquire sessions_lock shared ∷ release ∷ []

unfoldable pub update_session_locks : List Action
update_session_locks = acquire sessions_lock exclusive ∷ release ∷ []

-- `encrypt_message` and `decrypt_message`
unfoldable pub message_locks : List Action
unfolding get_session_mut_locks update_session_locks
message_locks = get_session_mut_locks ++ update_session_locks

-- `init_session`, which holds the guard of the keys until it returns; it may return before it takes `SESSIONS`
unfoldable pub init_session_locks : List Action
init_session_locks = acquire keys_lock shared ∷ acquire sessions_lock exclusive ∷ release ∷ []

unfoldable pub init_session_error_locks : List Action
init_session_error_locks = acquire keys_lock shared ∷ release ∷ []

unfoldable pub has_session_locks : List Action
has_session_locks = acquire sessions_lock shared ∷ release ∷ []

unfoldable pub generate_identity_keys_locks : List Action
generate_identity_keys_locks = acquire keys_lock exclusive ∷ release ∷ []

unfoldable pub get_public_key_bundle_locks : List Action
get_public_key_bundle_locks = acquire keys_lock shared ∷ release ∷ []

-- A call, by the way it takes.
pub data Route : Type 0 where
  message message_error opening opening_error looking generating publishing : Route

abbrev pub actions : Route → List Action
actions message = message_locks
actions message_error = get_session_mut_locks
actions opening = init_session_locks
actions opening_error = init_session_error_locks
actions looking = has_session_locks
actions generating = generate_identity_keys_locks
actions publishing = get_public_key_bundle_locks

-- A thread in the middle of a call: the guards that it holds, and what it has still to do.
pub record Thread : Type 0 where
  pub held : List (Lock × Mode)
  pub todo : List Action

abbrev pub start : Route → Thread
start route = record { held = []; todo = actions route }

-- Two guards can be held at once: of different locks, or both shared.
abbrev pub compatible : Lock × Mode → Lock × Mode → Bool
compatible (keys_lock, m) (sessions_lock, n) = true
compatible (sessions_lock, m) (keys_lock, n) = true
compatible (keys_lock, shared) (keys_lock, shared) = true
compatible (keys_lock, shared) (keys_lock, exclusive) = false
compatible (keys_lock, exclusive) (keys_lock, n) = false
compatible (sessions_lock, shared) (sessions_lock, shared) = true
compatible (sessions_lock, shared) (sessions_lock, exclusive) = false
compatible (sessions_lock, exclusive) (sessions_lock, n) = false

-- A lock can be taken when no thread, the one itself included, holds a guard that excludes it.
abbrev pub MayDo : Action → List Thread → Type 0
MayDo (acquire l m) ts = All (λ t. All (λ h. compatible (l, m) h ≡ true) t.held) ts
MayDo release ts = Unit

abbrev pub holding : Action → List (Lock × Mode) → List (Lock × Mode)
holding (acquire l m) held = (l, m) ∷ held
holding release held = []

-- One thread takes a lock or drops its guards.
pub data Step (ts us : List Thread) : Type 0 where
  moves :
      (before after : List Thread) (held : List (Lock × Mode)) (a : Action) (todo : List Action)
      → ts ≡ before ++ record { held = held; todo = a ∷ todo } ∷ after
      → MayDo a ts
      → us ≡ before ++ record { held = holding a held; todo = todo } ∷ after
      → Step ts us

pub data Reach (ts : List Thread) : List Thread → Type 0 where
  here : Reach ts ts
  next : {us vs : List Thread} → Reach ts us → Step us vs → Reach ts vs
