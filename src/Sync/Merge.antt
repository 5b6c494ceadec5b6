-- ===== src/Sync/Merge.antt =====
-- Two clients that use the queue of sync/mod.rs at once. Every call takes the lock once.
use merabriar.Prelude.{◌≡◌, refl, ap, sym, ◌∙◌, Bool, false, ◌&&◌, ◌||◌, List, [], ◌∷◌, ◌++◌, arith}
use merabriar.Rust.Text.{Text}
use merabriar.Sync.{Queue}
use merabriar.Sync.Calls.{Call, run}
use merabriar.Sync.Bag.{Bag, contents, clears, queues, step, step-swap, steps, contents-run}

-- The calls of the two clients in the order in which they get the lock.
pub data Merge : List Call → List Call → List Call → Type 0 where
  done : Merge [] [] []
  first : (c : Call) {cs ds es : List Call} → Merge cs ds es → Merge (c ∷ cs) ds (c ∷ es)
  second : (d : Call) {cs ds es : List Call} → Merge cs ds es → Merge cs (d ∷ ds) (d ∷ es)

abbrev pub any_call : (Call → Bool) → List Call → Bool
any_call f [] = false
any_call f (c ∷ cs) = f c || any_call f cs

-- No call of the first client clears an id that the second queues.
abbrev pub Spares : List Call → List Call → Type 0
Spares cs ds = (t : Text) → (any_call (clears t) cs && any_call (queues t) ds) ≡ false

Spares-head :
    (c d : Call) (cs ds : List Call)
    → Spares (c ∷ cs) (d ∷ ds)
    → (t : Text) → (clears t c && queues t d) ≡ false
Spares-head c d cs ds h t = ground (arith, h t)

Spares-tail_left : (c : Call) (cs ds : List Call) → Spares (c ∷ cs) ds → Spares cs ds
Spares-tail_left c cs ds h t = ground (arith, h t)

Spares-tail_right : (d : Call) (cs ds : List Call) → Spares cs (d ∷ ds) → Spares cs ds
Spares-tail_right d cs ds h t = ground (arith, h t)

steps-append : (cs ds : List Call) (b : Bag) → steps (cs ++ ds) b ≡ steps ds (steps cs b)
steps-append [] ds b = refl
steps-append (c ∷ cs) ds b = steps-append cs ds (step c b)

-- A call of the second client after those of the first, instead of before them.
steps-step :
    (cs ds : List Call) (d : Call) (b : Bag)
    → Spares cs (d ∷ ds)
    → Spares (d ∷ ds) cs
    → steps cs (step d b) ≡ step d (steps cs b)
steps-step [] ds d b h h' = refl
steps-step (c ∷ cs) ds d b h h' =
    ap (steps cs) (step-swap c d b (Spares-head c d cs ds h) (Spares-head d c ds cs h'))
    ∙ steps-step cs ds d (step c b) (Spares-tail_left c cs (d ∷ ds) h)
        (Spares-tail_right c (d ∷ ds) cs h')

steps-merged :
    (cs ds es : List Call) (b : Bag)
    → Merge cs ds es
    → Spares cs ds
    → Spares ds cs
    → steps es b ≡ steps ds (steps cs b)
steps-merged _ _ _ b done h h' = refl
steps-merged _ ds _ b (first c {cs} {es = es} merge) h h' =
    steps-merged cs ds es (step c b) merge (Spares-tail_left c cs ds h)
      (Spares-tail_right c ds cs h')
steps-merged cs _ _ b (second d {ds = ds} {es} merge) h h' =
    steps-merged cs ds es (step d b) merge (Spares-tail_right d cs ds h)
      (Spares-tail_left d ds cs h')
    ∙ ap (steps ds) (steps-step cs ds d b h h')

-- In a build without overflow checks, of two clients of a healthy queue neither clears an id that the other
-- queues. Then it does not matter how their calls interleave: the queue ends with the same ids, each as often,
-- as if the second had waited for the first.
pub order_forgotten :
    (cs ds es : List Call) (q : Queue)
    → q.poisoned ≡ false
    → Merge cs ds es
    → Spares cs ds
    → Spares ds cs
    → contents (run false es q) ≡ contents (run false (cs ++ ds) q)
order_forgotten cs ds es q healthy merge h h' =
    contents-run es q healthy
    ∙ steps-merged cs ds es (contents q) merge h h'
    ∙ sym (steps-append cs ds (contents q))
    ∙ sym (contents-run (cs ++ ds) q healthy)
