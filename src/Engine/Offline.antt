-- ===== src/Engine/Offline.antt =====
-- Messages written offline: encrypted and queued, and later cleared (lib.rs, sync/mod.rs).
use merabriar.Prelude.{
  ◌≡◌, refl, ap, ◌∙◌, subst, true, false, List, [], ◌∷◌, ◌++◌, append_assoc, append-nil, map, All,
  length, arith,
}
use merabriar.Rust.Text.{Text, contains}
use merabriar.Rust.Result.{ok}
use merabriar.Rust.Exec.{Exec, pure, ◌>>=◌, ◌>>◌}
use merabriar.Rust.Int.{ℤ}
use merabriar.Platform.{Platform, KdfLaws, AeadLaws}
use merabriar.Crypto.Session.{Session}
use merabriar.Crypto.Session.Derivation.{after_send}
use merabriar.Crypto.State.{Crypto}
use merabriar.Crypto.Encryption.Success.{Holds, with_session, wire, encrypt_message_lem}
use merabriar.Crypto.Peers.{Outgoing, IsSendable, Room}
use merabriar.Crypto.Peers.Delivery.{with_session-Holds, Room-step, Room-MayStep}
use merabriar.Sync
use merabriar.Sync.{QueuedMessage, Queue, retain}
use merabriar.Sync.Checks.{contains-append}
use merabriar.Engine.{
  Core, encrypt_message, queue_message_internal, get_queued_messages_internal, clear_queue_internal,
}

-- A message with the id that it is queued under.
abbrev pub Letter : Type 0
Letter = Text × Outgoing

module _ {Cipher KeyPair : Type 0} (p : Platform Cipher KeyPair) where
  -- The calls of the client while it is offline, at the time `now`.
  unfoldable pub put_off :
      {Connection : Type 0} → Text → ℤ → List Letter → Exec (Core Connection) (Unit {0})
  put_off to now [] = pure tt
  put_off to now ((id, o) ∷ letters) = do
    sealed ← encrypt_message p to o.plaintext o.nonce
    queue_message_internal (Sync.new now id to sealed)
    put_off to now letters

module _ {Cipher KeyPair : Type 0} {p : Platform Cipher KeyPair} (kdf : KdfLaws p)
    (aead : AeadLaws p) where
  -- What stands in the queue then: each message under its id, sealed under the next key of the sending chain.
  abbrev pub letters_from : Session → Text → ℤ → List Letter → List QueuedMessage
  letters_from a to now [] = []
  letters_from a to now ((id, o) ∷ letters) =
      Sync.new now id to (wire kdf aead a o.nonce o.plaintext)
      ∷ letters_from (after_send kdf a) to now letters

  ids-letters_from :
      (to : Text) (now : ℤ) (letters : List Letter) (a : Session)
      → map (λ m. m.id) (letters_from a to now letters) ≡ map (λ m. m.0) letters
  unfolding Sync.new
  ids-letters_from to now [] a = refl
  ids-letters_from to now ((id, o) ∷ letters) a =
      ap (◌∷◌ id) (ids-letters_from to now letters (after_send kdf a))

  put_off_lem :
      {Connection : Type 0} (to : Text) (now : ℤ) (letters : List Letter) (a : Session) (c : Crypto)
      (l : List QueuedMessage) (s : Core Connection)
      → Holds to a c
      → Room p.overflow_checks a.send_counter (length letters)
      → All (λ m. IsSendable m.1) letters
      → let r =
          put_off p to now letters
            (record s { crypto = c; queue = record { value = l; poisoned = false } }) in
        (r.0 ≡ ok tt)
        × (r.1.queue ≡ record { value = l ++ letters_from a to now letters; poisoned = false })
  unfolding put_off encrypt_message queue_message_internal Sync.queue_message
  put_off_lem to now [] a c l s holds room sendable = (refl, rw (append-nil l))
  put_off_lem to now ((id, o) ∷ letters) a c l s holds room sendable =
      let step = Room-MayStep p.overflow_checks a.send_counter (length letters) room in
      let m = Sync.new now id to (wire kdf aead a o.nonce o.plaintext) in
      let (done, left) =
        put_off_lem to now letters (after_send kdf a) (with_session to (after_send kdf a) c)
          (l ++ m ∷ []) s (with_session-Holds to (after_send kdf a) c holds.owner)
          (Room-step p.overflow_checks a.send_counter (length letters) room) sendable.1 in
      rw
        (encrypt_message_lem kdf aead to o.plaintext o.nonce a c holds step sendable.0.nonce12
          sendable.0.fits)
        (
          done,
          left
              ∙ ap (λ v. record { value = v; poisoned = false })
                  (append_assoc l (m ∷ []) (letters_from (after_send kdf a) to now letters)),
        )

-- Every message of a list has its id among those of the list.
listed :
    (before : List Text) (l : List QueuedMessage)
    → All (λ m. contains (before ++ map (λ m. m.id) l) m.id ≡ true) l
unfolding contains
listed before [] = tt
listed before (m ∷ l) = (
  contains-append before (m.id ∷ map (λ m. m.id) l) m.id ∙ ground arith,
  subst (λ ids. All (λ n. contains ids n.id ≡ true) l)
      (append_assoc before (m.id ∷ []) (map (λ m. m.id) l)) (listed (before ++ m.id ∷ []) l),
)

retain-listed :
    (ids : List Text) (l : List QueuedMessage)
    → All (λ m. contains ids m.id ≡ true) l
    → retain ids l ≡ []
unfolding retain
retain-listed ids [] h = refl
retain-listed ids (m ∷ l) (h, hs) = rw (h, retain-listed ids l hs)

module _ {Cipher KeyPair Connection : Type 0} {p : Platform Cipher KeyPair} (kdf : KdfLaws p)
    (aead : AeadLaws p) where
  -- Sendable messages that are encrypted for a contact with a held session and queued one after the other, from an
  -- empty queue and with room in the counter, wait in the queue in their order: each under its id, for the contact,
  -- sealed under the key that the sending chain has reached. To clear their ids empties the queue.
  pub offline_waits :
      (to : Text) (now : ℤ) (letters : List Letter) (a : Session) (s : Core Connection)
      → Holds to a s.crypto
      → Room p.overflow_checks a.send_counter (length letters)
      → All (λ m. IsSendable m.1) letters
      → let done = put_off p to now letters (record s { queue = Sync.empty }) in
        (done.0 ≡ ok tt)
        × (get_queued_messages_internal done.1 ≡ ok (letters_from kdf aead a to now letters))
        × ((clear_queue_internal (map (λ m. m.0) letters) done.1).1.queue ≡ Sync.empty)
  unfolding get_queued_messages_internal Sync.get_queued_messages clear_queue_internal
      Sync.clear_queue
  offline_waits to now letters a s ha room sendable =
      let waiting = letters_from kdf aead a to now letters in
      let (done, left) = put_off_lem kdf aead to now letters a s.crypto [] s ha room sendable in
      let ids = ids-letters_from kdf aead to now letters a in
      (
        done,
        rw left,
        rw (left, ← ids, retain-listed (map (λ m. m.id) waiting) waiting (listed [] waiting)),
      )
