-- ===== src/Crypto/Race/Schedule.antt =====
-- Schedules of the threads of Race: one call at a time, and two calls interleaved.
use merabriar.Prelude.{ℕ, ◌≡◌, ◌≢◌, refl, sym, ◌∙◌, if_pos, if_neg}
use merabriar.Platform.{Platform}
use merabriar.Crypto.Session.{Session}
use merabriar.Crypto.Race.{
  Request, Task, called, holding, returned, begin, finish, World, update, copy_out, store_back,
  Reach, here, next,
}

pub update_self : (tasks : ℕ → Task) (i : ℕ) (t : Task) → update tasks i t i ≡ t
update_self tasks i t = if_pos _ refl t (tasks i)

pub update-other : (tasks : ℕ → Task) (i j : ℕ) (t : Task) → i ≢ j → update tasks i t j ≡ tasks j
update-other tasks i j t ne = if_neg _ ne t (tasks j)

module _ {Cipher KeyPair : Type 0} (p : Platform Cipher KeyPair) where
  -- The world after a first or a second half of the thread `i`.
  abbrev pub after_copy : World → ℕ → Request → World
  after_copy w i r = record { crypto = w.crypto; tasks = update w.tasks i (begin p r w.crypto) }

  abbrev pub after_store : World → ℕ → Session → Request → World
  after_store w i session r = record {
    crypto = (finish p session r w.crypto).1;
    tasks = update w.tasks i (returned (finish p session r w.crypto).0);
  }

  -- Both halves in a row.
  abbrev pub after_both : World → ℕ → Session → Request → World
  after_both w i session r = after_store (after_copy w i r) i session r

  pub solo :
      (w v : World) (i : ℕ) (session : Session) (r : Request)
      → Reach p w v
      → v.tasks i ≡ called r
      → begin p r v.crypto ≡ holding session r
      → Reach p w (after_both v i session r)
  solo w v i session r reach at b =
      next (next reach (copy_out i r at refl))
        (store_back i session r (update_self v.tasks i (begin p r v.crypto) ∙ b) refl)

  -- The thread `i` takes its copy, the thread `j` runs as a whole, and then `i` stores its copy back.
  abbrev pub after_overlap : World → ℕ → ℕ → Session → Request → Request → World
  after_overlap w i j session r q =
      after_store (after_both (after_copy w i r) j session q) i session r

  pub interleaved :
      (w : World) (i j : ℕ) (session : Session) (r q : Request)
      → i ≢ j
      → w.tasks i ≡ called r
      → w.tasks j ≡ called q
      → begin p r w.crypto ≡ holding session r
      → begin p q w.crypto ≡ holding session q
      → Reach p w (after_overlap w i j session r q)
  interleaved w i j session r q ne at_i at_j begin_i begin_j =
      let v = after_copy w i r in
      let u = after_both v j session q in
      let back = λ (e : j ≡ i). ne (sym e) in
      let held : u.tasks i ≡ holding session r =
        update-other (after_copy v j q).tasks j i (returned (finish p session q w.crypto).0) back
        ∙ update-other v.tasks j i (begin p q w.crypto) back
        ∙ update_self w.tasks i (begin p r w.crypto)
        ∙ begin_i in
      next
        (solo w v j session q (next here (copy_out i r at_i refl))
          (update-other w.tasks i j (begin p r w.crypto) ne ∙ at_j) begin_j)
        (store_back i session r held refl)

  -- What the two have returned, and that the others stand still.
  pub overlap-returned :
      (w : World) (i j : ℕ) (session : Session) (r q : Request)
      → i ≢ j
      → let u = after_overlap w i j session r q in
        (u.tasks i ≡ returned (finish p session r (finish p session q w.crypto).1).0)
        × (u.tasks j ≡ returned (finish p session q w.crypto).0)
        × ((k : ℕ) → i ≢ k → j ≢ k → u.tasks k ≡ w.tasks k)
  overlap-returned w i j session r q ne =
      let v = after_copy w i r in
      let c = after_copy v j q in
      let u = after_both v j session q in
      let x = returned (finish p session q w.crypto).0 in
      let y = returned (finish p session r u.crypto).0 in
      (
        update_self u.tasks i y,
        update-other u.tasks i j y ne ∙ update_self c.tasks j x,
        λ k ik jk.
            update-other u.tasks i k y ik
            ∙ update-other c.tasks j k x jk
            ∙ update-other v.tasks j k (begin p q w.crypto) jk
            ∙ update-other w.tasks i k (begin p r w.crypto) ik,
      )
