-- ===== src/Sync.antt =====
-- rust_core/src/sync/mod.rs: the offline queue, the static `QUEUE` of the module. The deque is a list, its
-- front first. The clock is an argument. The trait `MessageQueue` has no implementation.
pub mod Calls
pub mod Attempts
pub mod Members
pub mod History
pub mod Bag
pub mod Merge
pub mod Checks
use merabriar.Prelude.{ℕ, Bool, not, List, [], ◌∷◌, ◌++◌, length, filter_by, ite}
use merabriar.Rust.Text.{Bytes, Text, Text_discrete, contains}
use merabriar.Rust.Result.{Result, ok, err, panic, ◌>>=◌}
use merabriar.Rust.Exec.{Exec}
use merabriar.Rust.Int.{ℤ}
use merabriar.Rust.Lock.{Lock, read, write, new_lock}
use merabriar.Rust.Words.{inc_u32}

pub record QueuedMessage : Type 0 where
  pub id : Text
  pub recipient_id : Text
  pub encrypted_content : Bytes
  pub created_at : ℤ
  pub attempts : ℕ

-- `QueuedMessage::new`, at the time `now`
unfoldable pub new : ℤ → Text → Text → Bytes → QueuedMessage
new now id recipient_id encrypted_content = record {
  id = id;
  recipient_id = recipient_id;
  encrypted_content = encrypted_content;
  created_at = now;
  attempts = 0;
}

abbrev pub Queue : Type 0
Queue = Lock (List QueuedMessage)

abbrev pub empty : Queue
empty = new_lock []

-- `init`
unfoldable pub init : Exec Queue (Unit {0})
init q = (ok tt, q)

unfoldable pub queue_message : QueuedMessage → Exec Queue (Unit {0})
queue_message message = write (λ queue. (ok tt, queue ++ message ∷ []))

unfoldable pub get_queued_messages : Queue → Result (List QueuedMessage)
get_queued_messages q = read q

-- The filter of `get_queued_for_recipient`.
unfoldable pub addressed : Text → List QueuedMessage → List QueuedMessage
addressed recipient_id [] = []
addressed recipient_id (m ∷ queue) =
    let rest = addressed recipient_id queue in
    ite (Text_discrete m.recipient_id recipient_id) (m ∷ rest) rest

unfoldable pub get_queued_for_recipient : Text → Queue → Result (List QueuedMessage)
unfolding addressed
get_queued_for_recipient recipient_id q = do queue ← read q; ok (addressed recipient_id queue)

-- `queue.retain(|m| !message_ids.contains(&m.id))`
unfoldable pub retain : List Text → List QueuedMessage → List QueuedMessage
unfolding contains
retain message_ids = filter_by (λ m. not (contains message_ids m.id))

unfoldable pub clear_queue : List Text → Exec Queue (Unit {0})
unfolding retain
clear_queue message_ids = write (λ queue. (ok tt, retain message_ids queue))

-- The result of `msg.attempts += 1`, beside the queue that it leaves: a panic leaves the message.
unfoldable pub put_attempts :
    Result ℕ → QueuedMessage → List QueuedMessage → Result (Unit {0}) × List QueuedMessage
put_attempts (ok n) m rest = (ok tt, record m { attempts = n } ∷ rest)
put_attempts (err e) m rest = (err e, m ∷ rest)
put_attempts panic m rest = (panic, m ∷ rest)

module _ (overflow_checks : Bool) where
  -- The loop of `increment_attempts`, which breaks at the first message with the id.
  unfoldable pub increment_first :
      Text → List QueuedMessage → Result (Unit {0}) × List QueuedMessage
  unfolding put_attempts
  increment_first message_id [] = (ok tt, [])
  increment_first message_id (m ∷ queue) =
      let rest = increment_first message_id queue in
      ite (Text_discrete m.id message_id)
        (put_attempts (inc_u32 overflow_checks m.attempts) m queue) (rest.0, m ∷ rest.1)

  unfoldable pub increment_attempts : Text → Exec Queue (Unit {0})
  unfolding increment_first
  increment_attempts message_id = write (increment_first message_id)

unfoldable pub queue_size : Queue → ℕ
queue_size q = elim (read q) [ ok queue ↦ length queue | err _ ↦ 0 | panic ↦ 0 ]
