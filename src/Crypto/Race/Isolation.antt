-- ===== src/Crypto/Race/Isolation.antt =====
-- Overlapping calls for different contacts, against each of the calls alone.
use merabriar.Prelude.{
  ℕ, ◌≡◌, ◌≢◌, refl, sym, ap, ◌∙◌, subst, false, arith, ℕ_discrete, if_pos, if_neg,
}
use merabriar.Rust.Text.{Bytes, Text}
use merabriar.Rust.Result.{Result, ok, err, panic}
use merabriar.Rust.HashMap
use merabriar.Rust.HashMap.{get-insert}
use merabriar.Platform.{Platform}
use merabriar.Crypto.Session.{Session}
use merabriar.Crypto.State.{Crypto}
use merabriar.Crypto.Sessions.Keyed.{IsKeyed}
use merabriar.Crypto.Race.{
  Request, contact, Task, called, holding, returned, begin, call, finish, World, update, Step,
  copy_out, store_back, Reach, here, next,
}
use merabriar.Crypto.Race.Begun.{session_of, begin-local, begin-owner, kept, over, begun}
use merabriar.Crypto.Race.Work.{
  work, settle, contact-IsOwn, finish-settle, recipient-work, call-held, call-returned,
}

module _ {Cipher KeyPair : Type 0} (p : Platform Cipher KeyPair) where
  settle-healthy :
      (r : Request) (done : Result (Bytes × Session)) (s : Crypto)
      → s.sessions.poisoned ≡ false
      → (settle p r done s).1.sessions.poisoned ≡ false
  settle-healthy r (ok done) s h = refl
  settle-healthy r (err e) s h = h
  settle-healthy r panic s h = h

  settle-keys :
      (r : Request) (done : Result (Bytes × Session)) (s : Crypto)
      → (settle p r done s).1.identity_keys ≡ s.identity_keys
  settle-keys r (ok done) s = refl
  settle-keys r (err e) s = refl
  settle-keys r panic s = refl

  settle-result :
      (r : Request) (done : Result (Bytes × Session)) (s t : Crypto)
      → (settle p r done s).0 ≡ (settle p r done t).0
  settle-result r (ok done) s t = refl
  settle-result r (err e) s t = refl
  settle-result r panic s t = refl

  settle-local :
      (r : Request) (done : Result (Bytes × Session)) (s t : Crypto) (k : Text)
      → session_of k s ≡ session_of k t
      → session_of k (settle p r done s).1 ≡ session_of k (settle p r done t).1
  settle-local r (ok done) s t k e = ground (
    arith,
    get-insert done.1.recipient_id k done.1 s.sessions.value,
    get-insert done.1.recipient_id k done.1 t.sessions.value,
  )
  settle-local r (err x) s t k e = e
  settle-local r panic s t k e = e

  settle-others :
      (r : Request) (done : Result (Bytes × Session)) (s : Crypto) (k : Text)
      → ((d : Bytes × Session) → done ≡ ok d → d.1.recipient_id ≢ k)
      → session_of k (settle p r done s).1 ≡ session_of k s
  settle-others r (ok done) s k h =
      let other = h done refl in
      ground (arith, get-insert done.1.recipient_id k done.1 s.sessions.value)
  settle-others r (err x) s k h = refl
  settle-others r panic s k h = refl

module _ {Cipher KeyPair : Type 0} (p : Platform Cipher KeyPair) (s : Crypto) where
  -- Where a thread stands, against its call alone on the first state `s`: the sessions of its contact are those
  -- of `s` until it returns, and then those that its call alone leaves.
  abbrev Tracks : Crypto → Request → Task → Type 0
  Tracks c r (called r') = (r' ≡ r) × (session_of (contact r) c ≡ session_of (contact r) s)
  Tracks c r (holding session r') =
      (r' ≡ r)
      × (begin p r s ≡ holding session r)
      × (session_of (contact r) c ≡ session_of (contact r) s)
  Tracks c r (returned x) =
      (x ≡ (call p r s).0) × (session_of (contact r) c ≡ session_of (contact r) (call p r s).1)

  Tracks-move :
      (c c' : Crypto) (r : Request) (t : Task)
      → session_of (contact r) c' ≡ session_of (contact r) c
      → Tracks c r t
      → Tracks c' r t
  Tracks-move c c' r (called r') e h = (h.0, e ∙ h.1)
  Tracks-move c c' r (holding session r') e h = (h.0, h.1, e ∙ h.2)
  Tracks-move c c' r (returned x) e h = (h.0, e ∙ h.1)

  Tracks-begin :
      (c : Crypto) (r : Request)
      → c.sessions.poisoned ≡ false
      → s.sessions.poisoned ≡ false
      → c.identity_keys ≡ s.identity_keys
      → session_of (contact r) c ≡ session_of (contact r) s
      → Tracks c r (begin p r c)
  Tracks-begin c r hc hs keys e =
      let same = begin-local p r c s hc hs keys e in
      elim (begun p r s) [
        | kept session b ↦ rw (same ∙ b) (refl, b, e)
        | over x b ↦ let alone = call-returned p r x s b in rw (same ∙ b) (rw alone, rw alone e)
      ]

  Tracks-finish :
      (c : Crypto) (r : Request) (session : Session)
      → c.sessions.poisoned ≡ false
      → s.sessions.poisoned ≡ false
      → session.recipient_id ≡ contact r
      → begin p r s ≡ holding session r
      → session_of (contact r) c ≡ session_of (contact r) s
      → Tracks (finish p session r c).1 r (returned (finish p session r c).0)
  Tracks-finish c r session hc hs owner b e =
      let own = contact-IsOwn session r owner in
      rw
        (
          call-held p r session s b,
          finish-settle p session r s own hs,
          finish-settle p session r c own hc,
        )
        (
          settle-result p r (work p session r) c s,
          settle-local p r (work p session r) c s (contact r) e,
        )

  record Inv (rs : ℕ → Request) (w : World) : Type 0 where
    pub healthy : w.crypto.sessions.poisoned ≡ false
    pub keys : w.crypto.identity_keys ≡ s.identity_keys
    pub tracked : (i : ℕ) → Tracks w.crypto (rs i) (w.tasks i)

  module _ (rs : ℕ → Request) (keyed : IsKeyed s) (hs : s.sessions.poisoned ≡ false)
      (distinct : (i j : ℕ) → i ≢ j → contact (rs i) ≢ contact (rs j)) where
    Tracks-update :
        (c : Crypto) (tasks : ℕ → Task) (i : ℕ) (t : Task)
        → Tracks c (rs i) t
        → ((j : ℕ) → i ≢ j → Tracks c (rs j) (tasks j))
        → (j : ℕ) → Tracks c (rs j) (update tasks i t j)
    Tracks-update c tasks i t mine others j = elim (ℕ_discrete i j) [
      | yes e ↦ rw (if_pos _ e) (subst (λ k. Tracks c (rs k) t) e mine)
      | no ne ↦ rw (if_neg _ ne) (others j ne)
    ]

    Step-Inv : {w u : World} → Step p w u → Inv rs w → Inv rs u
    Step-Inv {w} {u} (copy_out i r at e) inv =
        let now : Tracks w.crypto (rs i) (called r) =
          subst (Tracks w.crypto (rs i)) at (inv.tracked i) in
        rw e (record {
          healthy = inv.healthy;
          keys = inv.keys;
          tracked =
              Tracks-update w.crypto w.tasks i (begin p r w.crypto)
                (rw now.0 (Tracks-begin w.crypto (rs i) inv.healthy hs inv.keys now.1))
                (λ j _. inv.tracked j);
        })
    Step-Inv {w} {u} (store_back i session r at e) inv =
        let now : Tracks w.crypto (rs i) (holding session r) =
          subst (Tracks w.crypto (rs i)) at (inv.tracked i) in
        let c' = (finish p session r w.crypto).1 in
        let owner = (begin-owner p (rs i) s session (rs i) keyed now.1).0 in
        let own = contact-IsOwn session r (owner ∙ ap contact (sym now.0)) in
        let settled = finish-settle p session r w.crypto own inv.healthy in
        rw e (record {
          healthy = rw settled (settle-healthy p r (work p session r) w.crypto inv.healthy);
          keys = rw settled (settle-keys p r (work p session r) w.crypto ∙ inv.keys);
          tracked =
              Tracks-update c' w.tasks i (returned (finish p session r w.crypto).0)
                (rw now.0 (Tracks-finish w.crypto (rs i) session inv.healthy hs owner now.1 now.2))
                (λ j ne.
                  Tracks-move w.crypto c' (rs j) (w.tasks j)
                    (rw settled (
                      settle-others p r (work p session r) w.crypto (contact (rs j)) (λ d made same.
                        distinct i j ne
                          (sym owner ∙ sym (recipient-work p session r d made) ∙ same))))
                    (inv.tracked j));
        })

module _ {Cipher KeyPair : Type 0} (p : Platform Cipher KeyPair) where
  Reach-Inv :
      (s : Crypto) (rs : ℕ → Request)
      → IsKeyed s
      → s.sessions.poisoned ≡ false
      → ((i j : ℕ) → i ≢ j → contact (rs i) ≢ contact (rs j))
      → {w : World} → Reach p (record { crypto = s; tasks = λ i. called (rs i) }) w
      → Inv p s rs w
  Reach-Inv s rs keyed hs distinct here = record {
    healthy = hs;
    keys = refl;
    tracked = λ i. (refl, refl);
  }
  Reach-Inv s rs keyed hs distinct (next r st) =
      Step-Inv p s rs keyed hs distinct st (Reach-Inv s rs keyed hs distinct r)

  -- Calls of `encrypt_message`, `decrypt_message` and `init_session` for contacts that all differ, on a healthy
  -- store where every session stands under its own recipient, may overlap in whatever way: a call that has returned has returned
  -- what it returns alone on the first state, and the session of its contact is the one that it leaves alone.
  pub isolated :
      (s : Crypto) (rs : ℕ → Request) (w : World) (i : ℕ) (x : Result Bytes)
      → IsKeyed s
      → s.sessions.poisoned ≡ false
      → ((i j : ℕ) → i ≢ j → contact (rs i) ≢ contact (rs j))
      → Reach p (record { crypto = s; tasks = λ i. called (rs i) }) w
      → w.tasks i ≡ returned x
      → (x ≡ (call p (rs i) s).0)
        × (HashMap.get (contact (rs i)) w.crypto.sessions.value
            ≡ HashMap.get (contact (rs i)) (call p (rs i) s).1.sessions.value)
  isolated s rs w i x keyed hs distinct r at =
      subst (Tracks p s w.crypto (rs i)) at ((Reach-Inv s rs keyed hs distinct r).tracked i)
