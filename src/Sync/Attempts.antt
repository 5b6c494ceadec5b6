-- ===== src/Sync/Attempts.antt =====
-- What `increment_attempts` of sync/mod.rs counts.
use merabriar.Prelude.{◌+◌, ◌<◌, ◌≡◌, ◌≢◌, Bool, true, false, List, [], ◌∷◌, ◌++◌, All, arith}
use merabriar.Rust.Text.{Text}
use merabriar.Rust.Result.{ok, panic}
use merabriar.Rust.Words.{u32_mod, inc_u32}
use merabriar.Sync.{QueuedMessage, increment_first, increment_attempts}

-- No message of the list has this id.
abbrev pub Lacks : Text → List QueuedMessage → Type 0
Lacks id = All (λ m. m.id ≢ id)

module _ (overflow_checks : Bool) where
  increment_first-at :
      (before after : List QueuedMessage) (m : QueuedMessage)
      → Lacks m.id before
      → m.attempts + 1 < u32_mod
      → increment_first overflow_checks m.id (before ++ m ∷ after)
        ≡ (ok tt, before ++ record m { attempts = m.attempts + 1 } ∷ after)
  unfolding increment_first inc_u32
  increment_first-at [] after m lacks room = ground arith
  increment_first-at (b ∷ before) after m lacks room =
      ground (arith, increment_first-at before after m lacks.1 room)

  -- The first message with the id gets one more attempt, if its counter has room; all else, later messages
  -- with the same id included, stays as it was.
  increment_attempts-first :
      (before after : List QueuedMessage) (m : QueuedMessage)
      → Lacks m.id before
      → m.attempts + 1 < u32_mod
      → increment_attempts overflow_checks m.id
          (record { value = before ++ m ∷ after; poisoned = false })
        ≡ (
          ok tt,
          record {
            value = before ++ record m { attempts = m.attempts + 1 } ∷ after;
            poisoned = false;
          },
        )
  unfolding increment_attempts
  increment_attempts-first before after m lacks room =
      ground (arith, increment_first-at before after m lacks room)

increment_first-overflow :
    (before after : List QueuedMessage) (m : QueuedMessage)
    → Lacks m.id before
    → m.attempts + 1 ≡ u32_mod
    → (increment_first true m.id (before ++ m ∷ after) ≡ (panic, before ++ m ∷ after))
      × (increment_first false m.id (before ++ m ∷ after)
          ≡ (ok tt, before ++ record m { attempts = 0 } ∷ after))
unfolding increment_first inc_u32
increment_first-overflow [] after m lacks last = (ground arith, ground arith)
increment_first-overflow (b ∷ before) after m lacks last =
    let ih = increment_first-overflow before after m lacks.1 last in
    (ground (arith, ih), ground (arith, ih))

-- A counter at its last value: with overflow checks the call panics under the lock, which stays poisoned
-- over the unchanged queue; without them the counter is 0 again.
increment_attempts-overflow :
    (before after : List QueuedMessage) (m : QueuedMessage)
    → Lacks m.id before
    → m.attempts + 1 ≡ u32_mod
    → (increment_attempts true m.id (record { value = before ++ m ∷ after; poisoned = false })
        ≡ (panic, record { value = before ++ m ∷ after; poisoned = true }))
      × (increment_attempts false m.id (record { value = before ++ m ∷ after; poisoned = false })
          ≡ (
            ok tt,
            record { value = before ++ record m { attempts = 0 } ∷ after; poisoned = false },
          ))
unfolding increment_attempts
increment_attempts-overflow before after m lacks last =
    let both = increment_first-overflow before after m lacks last in
    (ground (arith, both), ground (arith, both))
