-- ===== src/Tests/Queues.antt =====
-- The queue on small inputs.
use merabriar.Prelude.{subst, ◌++◌, if_neg, ◌&&◌, false, ◌≡◌, refl, true, List, [], ◌∷◌, map, arith}
use merabriar.Rust.Text.{contains, Text, text, Text_discrete}
use merabriar.Rust.Result.{ok}
use merabriar.Rust.Int.{pos}
use merabriar.Rust.Lock.{new_lock}
use merabriar.Sync.{QueuedMessage, Queue, get_queued_for_recipient}
use merabriar.Sync.Calls.{Call, queue, clear, increment, run}
use merabriar.Sync.Bag.{contents, clears, queues}
use merabriar.Sync.Merge.{Merge, done, first, second, any_call, Spares, order_forgotten}
use merabriar.Sync.History.{run-survivors}

abbrev message : Text → Text → QueuedMessage
message id recipient = record {
  id = id;
  recipient_id = recipient;
  encrypted_content = 1 ∷ 2 ∷ [];
  created_at = pos 1700000000;
  attempts = 0;
}

abbrev m1 : QueuedMessage
m1 = message (text "m1") (text "bob")

abbrev m2 : QueuedMessage
m2 = message (text "m2") (text "carol")

abbrev two : Queue
two = new_lock (m1 ∷ m2 ∷ [])

abbrev calls : List Call
calls =
    queue (message (text "m3") (text "bob"))
    ∷ increment (text "m2")
    ∷ clear (text "m1" ∷ [])
    ∷ queue m1
    ∷ []

run-survivors_example :
    map (λ m. m.id) (run false calls two).value ≡ text "m2" ∷ text "m3" ∷ text "m1" ∷ []
unfolding contains Text_discrete
run-survivors_example = run-survivors calls two refl

for_bob : get_queued_for_recipient (text "bob") two ≡ ok (m1 ∷ [])
unfolding get_queued_for_recipient Text_discrete
for_bob = refl

-- A client that queues, and one that clears what was there.
abbrev writer : List Call
writer =
    queue (message (text "m3") (text "bob"))
    ∷ queue (message (text "m4") (text "bob"))
    ∷ increment (text "m4")
    ∷ []

abbrev cleaner : List Call
cleaner = clear (text "m1" ∷ []) ∷ queue (message (text "m5") (text "bob")) ∷ []

abbrev interleaved : List Call
interleaved =
    queue (message (text "m3") (text "bob"))
    ∷ clear (text "m1" ∷ [])
    ∷ queue (message (text "m4") (text "bob"))
    ∷ queue (message (text "m5") (text "bob"))
    ∷ increment (text "m4")
    ∷ []

interleaved-Merge : Merge writer cleaner interleaved
interleaved-Merge = first _ (second _ (first _ (second _ (first _ done))))

writer-Spares : Spares writer cleaner
writer-Spares t = refl

cleaner-Spares : Spares cleaner writer
unfolding contains Text_discrete
cleaner-Spares t = elim (Text_discrete (text "m1") t) [
  | yes e ↦ subst (λ u. (any_call (clears u) cleaner && any_call (queues u) writer) ≡ false) e refl
  | no ne ↦ ground (arith, if_neg (Text_discrete (text "m1") t) ne true false)
]

order_forgotten_example :
    contents (run false interleaved two) ≡ contents (run false (writer ++ cleaner) two)
order_forgotten_example =
    order_forgotten writer cleaner interleaved two refl interleaved-Merge writer-Spares
      cleaner-Spares
