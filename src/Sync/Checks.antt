-- ===== src/Sync/Checks.antt =====
-- The unit tests of sync/mod.rs, as functions that panic where an assertion fails, at the time `now`.
use merabriar.Prelude.{
  ◌≡◌, refl, ap, ◌∙◌, Bool, true, false, not, List, [], ◌∷◌, ◌++◌, map, filter_by, ◌||◌, ◌&&◌, ite,
  arith,
}
use merabriar.Rust.Text.{Text, text, Text_discrete, contains}
use merabriar.Rust.Result.{ok, unwrap, assert}
use merabriar.Rust.Exec.{Exec, lift, ◌>>=◌, ◌>>◌}
use merabriar.Rust.Int.{ℤ}
use merabriar.Sync.{QueuedMessage, Queue, new, queue_message, get_queued_messages, clear_queue}
use merabriar.Sync.History.{cleared, survivors, run-survivors}
use merabriar.Sync.Calls.{Call, queue, clear, run, call_healthy, release_healthy}

-- `queued.iter().any(|m| m.id == id)`
unfoldable pub any_with_id : Text → List QueuedMessage → Bool
any_with_id id [] = false
any_with_id id (m ∷ l) = ite (Text_discrete m.id id) true (any_with_id id l)

-- `get_queued_messages().unwrap()`
abbrev queued : Exec Queue (List QueuedMessage)
queued q = (unwrap (get_queued_messages q), q)

abbrev unwrapped : Exec Queue (Unit {0}) → Exec Queue (Unit {0})
unwrapped f q = let (r, q') = f q in (unwrap r, q')

abbrev pub msg1 : ℤ → QueuedMessage
msg1 now = new now (text "msg1") (text "recipient1") (1 ∷ 2 ∷ 3 ∷ 4 ∷ [])

abbrev pub msg2 : ℤ → QueuedMessage
msg2 now = new now (text "msg2") (text "recipient2") (5 ∷ 6 ∷ 7 ∷ 8 ∷ [])

-- `test_queue_message` up to its look at the queue, and the rest; other threads use the same queue in between.
unfoldable pub put_first : ℤ → Exec Queue (Unit {0})
put_first now = unwrapped (queue_message (msg1 now))

unfoldable pub expect_first : Exec Queue (Unit {0})
unfolding any_with_id
expect_first = do messages ← queued; lift (assert (any_with_id (text "msg1") messages))

unfoldable pub test_queue_message : ℤ → Exec Queue (Unit {0})
test_queue_message now = do put_first now; expect_first

-- `test_clear_queue` in three parts: each takes the lock once, and other threads use the same queue in between.
unfoldable pub put_second : ℤ → Exec Queue (Unit {0})
put_second now = unwrapped (queue_message (msg2 now))

unfoldable pub clear_second : Exec Queue (Unit {0})
clear_second = unwrapped (clear_queue (text "msg2" ∷ []))

unfoldable pub expect_cleared : Exec Queue (Unit {0})
unfolding any_with_id
expect_cleared = do messages ← queued; lift (assert (not (any_with_id (text "msg2") messages)))

unfoldable pub test_clear_queue : ℤ → Exec Queue (Unit {0})
test_clear_queue now = do put_second now; clear_second; expect_cleared

any_with_id-contains :
    (id : Text) (l : List QueuedMessage) → any_with_id id l ≡ contains (map (λ m. m.id) l) id
unfolding any_with_id contains
any_with_id-contains id [] = refl
any_with_id-contains id (m ∷ l) = ap (ite (Text_discrete m.id id) true) (any_with_id-contains id l)

pub contains-append :
    (l r : List Text) (t : Text) → contains (l ++ r) t ≡ (contains l t || contains r t)
unfolding contains
contains-append [] r t = refl
contains-append (s ∷ l) r t = ground (arith, contains-append l r t)

contains-filter_by :
    (f : Text → Bool) (l : List Text) (t : Text)
    → contains (filter_by f l) t ≡ (f t && contains l t)
unfolding contains
contains-filter_by f [] t = ground arith
contains-filter_by f (s ∷ l) t = ground (arith, contains-filter_by f l t)

-- Whether a message with an id is there after calls.
any_with_id-run :
    (cs : List Call) (q : Queue) (t : Text)
    → q.poisoned ≡ false
    → any_with_id t (run false cs q).value
      ≡ ((not (cleared t cs) && contains (map (λ m. m.id) q.value) t) || contains (survivors cs) t)
any_with_id-run cs q t h =
    any_with_id-contains t (run false cs q).value
    ∙ ap (λ l. contains l t) (run-survivors cs q h)
    ∙ contains-append (filter_by (λ i. not (cleared i cs)) (map (λ m. m.id) q.value)) (survivors cs)
        t
    ∙ ap (λ b. b || contains (survivors cs) t)
        (contains-filter_by (λ i. not (cleared i cs)) (map (λ m. m.id) q.value) t)

put_first_lem :
    (now : ℤ) (q : Queue)
    → q.poisoned ≡ false
    → put_first now q ≡ (ok tt, run false (queue (msg1 now) ∷ []) q)
unfolding put_first
put_first_lem now q h = rw (call_healthy (queue (msg1 now)) q h).0

put_second_lem :
    (now : ℤ) (q : Queue)
    → q.poisoned ≡ false
    → put_second now q ≡ (ok tt, run false (queue (msg2 now) ∷ []) q)
unfolding put_second
put_second_lem now q h = rw (call_healthy (queue (msg2 now)) q h).0

clear_second_lem :
    (q : Queue)
    → q.poisoned ≡ false
    → clear_second q ≡ (ok tt, run false (clear (text "msg2" ∷ []) ∷ []) q)
unfolding clear_second
clear_second_lem q h = rw (call_healthy (clear (text "msg2" ∷ [])) q h).0

healthy_after :
    (cs : List Call) (q : Queue) → q.poisoned ≡ false → (run false cs q).poisoned ≡ false
healthy_after cs q h = (release_healthy cs (clear []) q h).0

looks :
    (f : List QueuedMessage → Bool) (q : Queue)
    → q.poisoned ≡ false
    → f q.value ≡ true
    → (do messages ← queued; lift (assert (f messages))) q ≡ (ok tt, q)
unfolding get_queued_messages
looks f q h e = rw (h, e)

expect_first_lem :
    (now : ℤ) (cs : List Call) (q : Queue)
    → q.poisoned ≡ false
    → cleared (text "msg1") cs ≡ false
    → let u = run false (queue (msg1 now) ∷ cs) q in expect_first u ≡ (ok tt, u)
unfolding expect_first new contains
expect_first_lem now cs q h kept =
    looks (any_with_id (text "msg1")) (run false (queue (msg1 now) ∷ cs) q)
      (healthy_after (queue (msg1 now) ∷ cs) q h)
      (any_with_id-run (queue (msg1 now) ∷ cs) q (text "msg1") h ∙ ground (arith, kept))

expect_cleared_lem :
    (ds : List Call) (q : Queue)
    → q.poisoned ≡ false
    → contains (survivors ds) (text "msg2") ≡ false
    → let v = run false (clear (text "msg2" ∷ []) ∷ ds) q in expect_cleared v ≡ (ok tt, v)
unfolding expect_cleared contains
expect_cleared_lem ds q h gone =
    let cs = clear (text "msg2" ∷ []) ∷ ds in
    looks (λ l. not (any_with_id (text "msg2") l)) (run false cs q) (healthy_after cs q h)
      (ap not (any_with_id-run cs q (text "msg2") h) ∙ ground (arith, gone))

-- In a build without overflow checks, on a queue whose lock is not poisoned: both tests pass when they run alone;
-- the look of the first passes after any calls of other threads that do not clear "msg1"; and the look of the second
-- passes whatever other threads call before it clears "msg2", and after any calls that follow and do not leave a
-- "msg2" of their own.
pub queue_tests_pass :
    (now : ℤ) (cs before after : List Call) (q : Queue)
    → q.poisoned ≡ false
    → cleared (text "msg1") cs ≡ false
    → contains (survivors after) (text "msg2") ≡ false
    → ((test_queue_message now q).0 ≡ ok tt)
      × ((test_clear_queue now q).0 ≡ ok tt)
      × ((expect_first (run false cs (put_first now q).1)).0 ≡ ok tt)
      × (let u = run false before (put_second now q).1 in
          ((clear_second u).0 ≡ ok tt)
          × ((expect_cleared (run false after (clear_second u).1)).0 ≡ ok tt))
unfolding test_queue_message test_clear_queue contains
queue_tests_pass now cs before after q h kept gone =
    let first = put_first_lem now q h in
    let second = put_second_lem now q h in
    let alone = run false (queue (msg2 now) ∷ []) q in
    let alone_healthy = healthy_after (queue (msg2 now) ∷ []) q h in
    let u = run false (queue (msg2 now) ∷ before) q in
    let u_healthy = healthy_after (queue (msg2 now) ∷ before) q h in
    (
      rw (first, expect_first_lem now [] q h refl),
      rw (
        second,
        clear_second_lem alone alone_healthy,
        expect_cleared_lem [] alone alone_healthy refl,
      ),
      rw (first, expect_first_lem now cs q h kept),
      rw (second, clear_second_lem u u_healthy)
          (refl, ap (λ r. r.0) (expect_cleared_lem after u u_healthy gone)),
    )
