-- ===== src/Sync/Bag.antt =====
-- What the queue of sync/mod.rs holds, whatever the order: its ids, each as often as it occurs.
use mathlib.Core.Quot
use mathlib.Core.Quot.{Quot, Quot-set}
use merabriar.Prelude.{
  ℕ, ◌+◌, ◌≡◌, refl, sym, ap, ◌∙◌, Bool, true, false, not, ◌&&◌, List, [], ◌∷◌, ◌++◌, filter_by,
  ite, arith,
}
use merabriar.Rust.Text.{Text, Text_discrete, contains}
use merabriar.Sync.{Queue}
use merabriar.Sync.Calls.{Call, queue, clear, increment, perform, run, call_healthy}
use merabriar.Sync.History.{ids_of, next_ids, ids-perform}

abbrev pub count : Text → List Text → ℕ
count t [] = 0
count t (u ∷ us) = let rest = count t us in ite (Text_discrete u t) (1 + rest) rest

abbrev pub SameIds : List Text → List Text → Type 0
SameIds l l' = (t : Text) → count t l ≡ count t l'

abbrev pub Bag : Type 0
Bag = Quot SameIds

abbrev pub contents : Queue → Bag
contents q = Quot.mk (ids_of q.value)

unfoldable pub occurrences : Text → Bag → ℕ
occurrences t = Quot.lift (hlevel) (count t) λ l l' h. h t

-- Whether a call clears an id, and whether it queues a message with it.
abbrev pub clears : Text → Call → Bool
clears t (queue m) = false
clears t (clear ids) = contains ids t
clears t (increment id) = false

abbrev pub queues : Text → Call → Bool
queues t (queue m) = ite (Text_discrete m.id t) true false
queues t (clear ids) = false
queues t (increment id) = false

abbrev pub next_count : Bool → Bool → ℕ → ℕ
next_count true q n = 0
next_count false true n = 1 + n
next_count false false n = n

count-append : (t : Text) (l l' : List Text) → count t (l ++ l') ≡ count t l + count t l'
count-append t [] l' = omega arith
count-append t (u ∷ l) l' = ground (arith, count-append t l l')

count-filter_by :
    (t : Text) (ids l : List Text)
    → count t (filter_by (λ u. not (contains ids u)) l)
      ≡ next_count (contains ids t) false (count t l)
count-filter_by t ids [] = ground arith
count-filter_by t ids (u ∷ l) = elim (Text_discrete u t) [
  | yes e ↦ ground (arith, count-filter_by t ids l, ap (contains ids) e)
  | no ne ↦ ground (arith, count-filter_by t ids l)
]

pub count-next_ids :
    (t : Text) (c : Call) (l : List Text)
    → count t (next_ids c l) ≡ next_count (clears t c) (queues t c) (count t l)
count-next_ids t (queue m) l = ground (arith, count-append t l (m.id ∷ []))
count-next_ids t (clear ids) l = count-filter_by t ids l
count-next_ids t (increment id) l = refl

-- One call on the ids without their order.
unfoldable pub step : Call → Bag → Bag
step c =
    Quot.lift Quot-set (λ l. Quot.mk (next_ids c l))
      λ l l' h. Quot.sound λ t.
        count-next_ids t c l
        ∙ ap (next_count (clears t c) (queues t c)) (h t)
        ∙ sym (count-next_ids t c l')

occurrences-step :
    (t : Text) (c : Call) (b : Bag)
    → occurrences t (step c b) ≡ next_count (clears t c) (queues t c) (occurrences t b)
unfolding occurrences step
occurrences-step t c = Quot.ind (λ _. hlevel) (count-next_ids t c)

bag_ext : (a b : Bag) → ((t : Text) → occurrences t a ≡ occurrences t b) → a ≡ b
unfolding occurrences
bag_ext = Quot.ind (λ _. hlevel Quot-set) λ l. Quot.ind (λ _. hlevel Quot-set) λ l'. Quot.sound

swap_counts :
    (c q c' q' : Bool) (n : ℕ)
    → (c && q') ≡ false
    → (c' && q) ≡ false
    → next_count c q (next_count c' q' n) ≡ next_count c' q' (next_count c q n)
swap_counts c q c' q' n h h' = ground arith

-- Calls that do not clear what the other queues may change places.
pub step-swap :
    (c d : Call) (b : Bag)
    → ((t : Text) → (clears t c && queues t d) ≡ false)
    → ((t : Text) → (clears t d && queues t c) ≡ false)
    → step c (step d b) ≡ step d (step c b)
step-swap c d b h h' = bag_ext _ _ λ t.
    occurrences-step t c (step d b)
    ∙ ap (next_count (clears t c) (queues t c)) (occurrences-step t d b)
    ∙ swap_counts (clears t c) (queues t c) (clears t d) (queues t d) (occurrences t b) (h t) (h' t)
    ∙ sym (ap (next_count (clears t d) (queues t d)) (occurrences-step t c b))
    ∙ sym (occurrences-step t d (step c b))

abbrev pub steps : List Call → Bag → Bag
steps [] b = b
steps (c ∷ cs) b = steps cs (step c b)

-- The queue itself, on a healthy lock and without overflow checks.
pub contents-run :
    (cs : List Call) (q : Queue)
    → q.poisoned ≡ false
    → contents (run false cs q) ≡ steps cs (contents q)
unfolding step
contents-run [] q h = refl
contents-run (c ∷ cs) q h =
    contents-run cs (perform false c q).1 (call_healthy c q h).1
    ∙ ap (λ l. steps cs (Quot.mk l)) (ids-perform c q h)
