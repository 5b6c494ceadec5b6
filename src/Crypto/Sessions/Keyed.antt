-- ===== src/Crypto/Sessions/Keyed.antt =====
-- The invariant of the session store: a session stands under its own recipient. `update_session` of
-- crypto/session.rs rests on it, since it stores under the id that the session carries.
use merabriar.Prelude.{◌≡◌, ◌≢◌, sym, subst, refl, true, some, arith}
use merabriar.Rust.Text.{Bytes, Text}
use merabriar.Rust.Result.{ok}
use merabriar.Rust.HashMap
use merabriar.Rust.HashMap.{HashMap, get-insert}
use merabriar.Platform.{Platform}
use merabriar.Crypto.Session.{Session, new, derive_send_key, derive_recv_key}
use merabriar.Crypto.State.{Crypto}
use merabriar.Crypto.Sessions.{insert_session, get_session_mut, update_session}

abbrev pub IsKeyed : Crypto → Type 0
IsKeyed s =
    (k : Text) (session : Session)
    → HashMap.get k s.sessions.value ≡ some session
    → session.recipient_id ≡ k

-- What an operation for the contact `id` may do to the state: it leaves the sessions of all others, the
-- identity keys and the lock as they were, drops no session, and keeps the invariant.
pub record Touches (id : Text) (s s' : Crypto) : Type 0 where
  pub keyed : IsKeyed s'
  pub others :
      (k : Text) → id ≢ k → HashMap.get k s'.sessions.value ≡ HashMap.get k s.sessions.value
  pub kept :
      (k : Text)
      → HashMap.contains_key k s.sessions.value ≡ true
      → HashMap.contains_key k s'.sessions.value ≡ true
  pub identity : s'.identity_keys ≡ s.identity_keys
  pub lock : s'.sessions.poisoned ≡ s.sessions.poisoned

pub Touches-refl : (id : Text) {s : Crypto} → IsKeyed s → Touches id s s
Touches-refl id h = record {
  keyed = h;
  others = λ k _. refl;
  kept = λ k c. c;
  identity = refl;
  lock = refl;
}

pub insert_session-Touches :
    (s : Crypto) (session : Session)
    → IsKeyed s
    → Touches session.recipient_id s (insert_session session.recipient_id session s).1
unfolding insert_session
insert_session-Touches s session h = record {
  keyed = λ k other.
      ground (arith, h k other, get-insert session.recipient_id k session s.sessions.value);
  others = λ k ne. ground (arith, get-insert session.recipient_id k session s.sessions.value);
  kept = λ k c. ground (arith, get-insert session.recipient_id k session s.sessions.value);
  identity = ground arith;
  lock = ground arith;
}

module _ {Cipher KeyPair : Type 0} (p : Platform Cipher KeyPair) where
  pub recipient-new :
      (id : Text) (secret : Bytes) (s : Session) → new p id secret ≡ ok s → s.recipient_id ≡ id
  unfolding new
  recipient-new id secret s h = ground arith

  pub recipient-derive_send_key :
      (s : Session) (r : Bytes × Session)
      → derive_send_key p s ≡ ok r
      → r.1.recipient_id ≡ s.recipient_id
  unfolding derive_send_key
  recipient-derive_send_key s r h = ground arith

  pub recipient-derive_recv_key :
      (s : Session) (r : Bytes × Session)
      → derive_recv_key p s ≡ ok r
      → r.1.recipient_id ≡ s.recipient_id
  unfolding derive_recv_key
  recipient-derive_recv_key s r h = ground arith

-- What `get_session_mut` finds under an id belongs to that id.
pub recipient-get_session_mut :
    (id : Text) (s : Crypto) (session : Session)
    → IsKeyed s
    → (get_session_mut id s).0 ≡ ok session
    → session.recipient_id ≡ id
unfolding get_session_mut
recipient-get_session_mut id s session keyed h = ground (arith, keyed id session)

pub state-get_session_mut : (id : Text) (s : Crypto) → (get_session_mut id s).1 ≡ s
unfolding get_session_mut
state-get_session_mut id s = ground arith

-- Storing a session that belongs to `id`, and going on with nothing but a result.
pub update_session-Touches :
    {id : Text} (s : Crypto) (session : Session)
    → IsKeyed s
    → session.recipient_id ≡ id
    → Touches id s (update_session session s).1
unfolding update_session
update_session-Touches s session keyed e =
    subst (λ i. Touches i s (update_session session s).1) e (insert_session-Touches s session keyed)

-- The state after an operation for `id`: as before, or with one session of `id` stored.
pub data Change (id : Text) (s s' : Crypto) : Type 0 where
  same : s' ≡ s → Change id s s'
  stored :
      (session : Session)
      → session.recipient_id ≡ id
      → s' ≡ (update_session session s).1
      → Change id s s'

pub Change-Touches : {id : Text} {s s' : Crypto} → IsKeyed s → Change id s s' → Touches id s s'
Change-Touches {id} {s} keyed (same e) = subst (λ t. Touches id s t) (sym e) (Touches-refl id keyed)
Change-Touches {id} {s} keyed (stored session owner e) =
    subst (λ t. Touches id s t) (sym e) (update_session-Touches s session keyed owner)
