-- ===== src/Crypto/Race/Keyed.antt =====
-- Overlapping calls and the place of each session in the store.
use merabriar.Prelude.{
  ◌⊎◌, ℕ, ◌∙◌, ℕ_discrete, if_pos, if_neg, ◌≡◌, refl, sym, ap, subst, true, false, inl, inr,
  Bool-cases, arith,
}
use merabriar.Rust.Text.{Bytes}
use merabriar.Rust.Result.{Result, ok, err, panic, is_ok, is_err, is_panic, Result-cases}
use merabriar.Platform.{Platform}
use merabriar.Crypto.Session.{Session}
use merabriar.Crypto.State.{Crypto}
use merabriar.Crypto.Sessions.{insert_session, update_session}
use merabriar.Crypto.Sessions.Keyed.{IsKeyed, update_session-Touches}
use merabriar.Crypto.Encryption.Success.{with_session, update_session-healthy}
use merabriar.Crypto.Race.{
  Request, Task, returned, sending, receiving, opening, contact, holding, begin, finish, World,
  update, Step, copy_out, store_back, Reach, here, next,
}
use merabriar.Crypto.Race.Work.{IsOwn, contact-IsOwn, work, settle, finish-settle}
use merabriar.Crypto.Race.Begun.{begin-owner}

update_session-poisoned :
    (session : Session) (s : Crypto) → s.sessions.poisoned ≡ true → (update_session session s).1 ≡ s
unfolding update_session insert_session
update_session-poisoned session s h = ground arith

with_session-IsKeyed :
    (session : Session) (s : Crypto)
    → s.sessions.poisoned ≡ false
    → IsKeyed s
    → IsKeyed (with_session session.recipient_id session s)
with_session-IsKeyed session s h keyed =
    subst IsKeyed (ap (λ r. r.1) (update_session-healthy session.recipient_id session s h refl))
      (update_session-Touches s session keyed refl).keyed

update-cases :
    (tasks : ℕ → Task) (i j : ℕ) (t x : Task) → update tasks i t j ≡ x → (t ≡ x) ⊎ (tasks j ≡ x)
update-cases tasks i j t x h = elim (ℕ_discrete i j) [
  | yes same ↦ inl (sym (if_pos _ same t (tasks j)) ∙ h)
  | no ne ↦ inr (sym (if_neg _ ne t (tasks j)) ∙ h)
]

-- Every session stands under its own recipient, and an `init_session` holds a session of its contact.
pub record InPlace (w : World) : Type 0 where
  pub keyed : IsKeyed w.crypto
  pub own :
      (i : ℕ) (session : Session) (r : Request) → w.tasks i ≡ holding session r → IsOwn session r

module _ {Cipher KeyPair : Type 0} (p : Platform Cipher KeyPair) where
  settle-IsKeyed :
      (r : Request) (done : Result (Bytes × Session)) (s : Crypto)
      → s.sessions.poisoned ≡ false
      → IsKeyed s
      → IsKeyed (settle p r done s).1
  settle-IsKeyed r (ok done) s h keyed = with_session-IsKeyed done.1 s h keyed
  settle-IsKeyed r (err e) s h keyed = keyed
  settle-IsKeyed r panic s h keyed = keyed

  -- On a poisoned lock the second half changes nothing.
  finish-poisoned :
      (session : Session) (r : Request) (s : Crypto)
      → s.sessions.poisoned ≡ true
      → (finish p session r s).1 ≡ s
  unfolding finish insert_session
  finish-poisoned session (sending id plaintext nonce) s h =
      elim (Result-cases (work p session (sending id plaintext nonce))) [
        | is_ok done e ↦ ground (arith, update_session-poisoned done.1 s h)
        | is_err t e ↦ ground arith
        | is_panic e ↦ ground arith
      ]
  finish-poisoned session (receiving id ciphertext) s h =
      elim (Result-cases (work p session (receiving id ciphertext))) [
        | is_ok done e ↦ ground (arith, update_session-poisoned done.1 s h)
        | is_err t e ↦ ground arith
        | is_panic e ↦ ground arith
      ]
  finish-poisoned session (opening id theirs) s h = ground arith

  finish-IsKeyed :
      (session : Session) (r : Request) (s : Crypto)
      → IsOwn session r
      → IsKeyed s
      → IsKeyed (finish p session r s).1
  finish-IsKeyed session r s own keyed = elim (Bool-cases s.sessions.poisoned) [
    | inl poisoned ↦ rw (finish-poisoned session r s poisoned) keyed
    | inr healthy ↦
        rw (finish-settle p session r s own healthy)
          (settle-IsKeyed r (work p session r) s healthy keyed)
  ]

  begin-IsOwn :
      (r r' : Request) (s : Crypto) (session : Session)
      → IsKeyed s
      → begin p r s ≡ holding session r'
      → IsOwn session r'
  begin-IsOwn r r' s session keyed h =
      let (owner, same) = begin-owner p r s session r' keyed h in
      contact-IsOwn session r' (owner ∙ ap contact (sym same))

  Step-InPlace : {w u : World} → Step p w u → InPlace w → InPlace u
  Step-InPlace {w} (copy_out i r at e) placed = rw e (record {
    keyed = placed.keyed;
    own = λ j session r' h. elim (update-cases w.tasks i j (begin p r w.crypto) _ h) [
      | inl begun ↦ begin-IsOwn r r' w.crypto session placed.keyed begun
      | inr before ↦ placed.own j session r' before
    ];
  })
  Step-InPlace {w} (store_back i session r at e) placed =
      let done = returned (finish p session r w.crypto).0 in
      rw e (record {
        keyed = finish-IsKeyed session r w.crypto (placed.own i session r at) placed.keyed;
        own = λ j copy r' h. elim (update-cases w.tasks i j done _ h) [
          | inl never ↦ absurd (cc never)
          | inr before ↦ placed.own j copy r' before
        ];
      })

  -- Whatever calls of `encrypt_message`, `decrypt_message` and `init_session` overlap, and whatever copies the
  -- first two hold: where every session stands under its own recipient, and every call of `init_session` that
  -- holds a session holds one of its contact, both stay so.
  pub Reach-InPlace : {w u : World} → Reach p w u → InPlace w → InPlace u
  Reach-InPlace here placed = placed
  Reach-InPlace (next r st) placed = Step-InPlace st (Reach-InPlace r placed)
