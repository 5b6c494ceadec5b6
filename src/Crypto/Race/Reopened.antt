-- ===== src/Crypto/Race/Reopened.antt =====
-- An `init_session` (crypto/session.rs) that runs between the two acquisitions of an `encrypt_message`.
use merabriar.Prelude.{ℕ, ◌≤◌, ◌≡◌, ◌≢◌, refl, sym, ◌∙◌, some, [], length}
use merabriar.Rust.Text.{Bytes, Text}
use merabriar.Rust.Result.{ok}
use merabriar.Rust.HashMap
use merabriar.Rust.HashMap.{get-insert_self}
use merabriar.Platform.{Platform, KdfLaws, AeadLaws, max_plaintext}
use merabriar.Crypto.Session.{Session}
use merabriar.Crypto.Session.Derivation.{after_send, new-fresh, MayStep}
use merabriar.Crypto.State.{Crypto, IdentityKeys, PublicKeyBundle}
use merabriar.Crypto.Encryption.Success.{Holds, wire, with_session}
use merabriar.Crypto.Peers.Handshake.{IsReady, agreed, try_into_32_lem}
use merabriar.Crypto.Race.{
  sending, opening, called, holding, returned, resume, begin, finish, World, Reach, here, next,
  copy_out, store_back,
}
use merabriar.Crypto.Race.Schedule.{
  update_self, update-other, after_copy, after_store, after_both, solo,
}
use merabriar.Crypto.Race.Work.{finish-settle}
use merabriar.Crypto.Race.Overlap.{begin-sending, finish-sending}

module _ {Cipher KeyPair : Type 0} {p : Platform Cipher KeyPair} (kdf : KdfLaws p) where
  pub begin-opening :
      (id : Text) (ours : IdentityKeys) (theirs : PublicKeyBundle) (s : Crypto)
      → IsReady ours s
      → length theirs.signed_prekey ≡ 32
      → begin p (opening id theirs) s ≡ holding (agreed kdf ours id theirs) (opening id theirs)
  unfolding begin resume
  begin-opening id ours theirs s ready n32 = rw (
    ready.keys_readable,
    ready.has_keys,
    try_into_32_lem theirs.signed_prekey n32,
    new-fresh kdf id (p.diffie_hellman ours.signed_prekey_private theirs.signed_prekey),
  )

  pub finish-opening :
      (id : Text) (ours : IdentityKeys) (theirs : PublicKeyBundle) (s : Crypto)
      → IsReady ours s
      → finish p (agreed kdf ours id theirs) (opening id theirs) s
        ≡ (ok [], with_session id (agreed kdf ours id theirs) s)
  finish-opening id ours theirs s ready =
      finish-settle p (agreed kdf ours id theirs) (opening id theirs) s refl ready.sessions_healthy

module _ {Cipher KeyPair : Type 0} {p : Platform Cipher KeyPair} (kdf : KdfLaws p)
    (aead : AeadLaws p) where
  -- One thread is about to encrypt with a 12-byte nonce a plaintext that AES-GCM takes, for a contact whose
  -- session may step, and another, with identity keys and a prekey of 32 bytes, to call `init_session` for the
  -- same contact. They can overlap so that the second returns and its new session stands in the store, and then
  -- the first sends under the old key and the old session is back in its place.
  pub undoes_init_session :
      (w : World) (i j : ℕ) (id m : Text) (nonce : Bytes) (session : Session) (ours : IdentityKeys)
      (theirs : PublicKeyBundle)
      → i ≢ j
      → w.tasks i ≡ called (sending id m nonce)
      → w.tasks j ≡ called (opening id theirs)
      → Holds id session w.crypto
      → MayStep p.overflow_checks session.send_counter
      → length nonce ≡ 12
      → length m ≤ max_plaintext
      → IsReady ours w.crypto
      → length theirs.signed_prekey ≡ 32
      → (v : World) × Reach p w v
        × (v.tasks j ≡ returned (ok []))
        × (HashMap.get id v.crypto.sessions.value ≡ some (agreed kdf ours id theirs))
        × (u : World) × Reach p v u
        × (u.tasks i ≡ returned (ok (wire kdf aead session nonce m)))
        × (HashMap.get id u.crypto.sessions.value ≡ some (after_send kdf session))
  undoes_init_session w i j id m nonce session ours theirs ne at_i at_j holds step n12 fits ready
        n32 =
      let r = sending id m nonce in
      let q = opening id theirs in
      let made = agreed kdf ours id theirs in
      let c = with_session id made w.crypto in
      let v = after_copy p w i r in
      let u = after_both p v j made q in
      let started = begin-opening kdf id ours theirs w.crypto ready n32 in
      let stored = finish-opening kdf id ours theirs w.crypto ready in
      let sent = finish-sending kdf aead id m nonce session c refl holds.owner step n12 fits in
      let back = λ (e : j ≡ i). ne (sym e) in
      let x = returned (finish p made q w.crypto).0 in
      let held : u.tasks i ≡ holding session r =
        update-other (after_copy p v j q).tasks j i x back
        ∙ update-other v.tasks j i (begin p q w.crypto) back
        ∙ update_self w.tasks i (begin p r w.crypto)
        ∙ begin-sending kdf aead id m nonce session w.crypto holds in
      (
        u,
        solo p w v j made q (next here (copy_out i r at_i refl))
            (update-other w.tasks i j (begin p r w.crypto) ne ∙ at_j) started,
        update_self (after_copy p v j q).tasks j x ∙ rw stored,
        rw stored (get-insert_self id made w.crypto.sessions.value),
        after_store p u i session r,
        next here (store_back i session r held refl),
        update_self u.tasks i (returned (finish p session r u.crypto).0) ∙ rw (stored, sent),
        rw (stored, sent) (get-insert_self id (after_send kdf session) c.sessions.value),
      )
