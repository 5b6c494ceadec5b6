-- ===== src/Sync/Calls.antt =====
-- The calls that write the queue of sync/mod.rs, as a client makes them, and its lock.
use merabriar.Prelude.{◌≡◌, refl, Bool, false, List, [], ◌∷◌, arith}
use merabriar.Rust.Text.{Text}
use merabriar.Rust.Result.{ok}
use merabriar.Rust.Exec.{Exec}
use merabriar.Rust.Words.{inc_u32}
use merabriar.Sync.{
  QueuedMessage, Queue, queue_message, clear_queue, increment_first, increment_attempts,
}

-- The calls that write.
pub data Call : Type 0 where
  queue : QueuedMessage → Call
  clear : List Text → Call
  increment : Text → Call

module _ (overflow_checks : Bool) where
  abbrev pub perform : Call → Exec Queue (Unit {0})
  perform (queue m) = queue_message m
  perform (clear ids) = clear_queue ids
  perform (increment id) = increment_attempts overflow_checks id

  -- The queue after a sequence of calls, whatever they return.
  abbrev pub run : List Call → Queue → Queue
  run [] q = q
  run (c ∷ cs) q = run cs (perform c q).1

increment_first-no_panic :
    (id : Text) (l : List QueuedMessage) → (increment_first false id l).0 ≡ ok tt
unfolding increment_first inc_u32
increment_first-no_panic id [] = refl
increment_first-no_panic id (m ∷ l) = ground (arith, increment_first-no_panic id l)

pub call_healthy :
    (c : Call) (q : Queue)
    → q.poisoned ≡ false
    → ((perform false c q).0 ≡ ok tt) × ((perform false c q).1.poisoned ≡ false)
unfolding queue_message clear_queue increment_attempts
call_healthy (queue m) q h = (ground arith, ground arith)
call_healthy (clear ids) q h = (ground arith, ground arith)
call_healthy (increment id) q h = (
  ground (arith, increment_first-no_panic id q.value),
  ground (arith, increment_first-no_panic id q.value),
)

-- In a build without overflow checks no call panics: from a healthy lock every call of every sequence
-- succeeds.
pub release_healthy :
    (cs : List Call) (c : Call) (q : Queue)
    → q.poisoned ≡ false
    → ((run false cs q).poisoned ≡ false) × ((perform false c (run false cs q)).0 ≡ ok tt)
release_healthy [] c q h = (h, (call_healthy c q h).0)
release_healthy (d ∷ cs) c q h = release_healthy cs c (perform false d q).1 (call_healthy d q h).1
