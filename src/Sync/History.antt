-- ===== src/Sync/History.antt =====
-- The queue of sync/mod.rs against the history of its calls.
use merabriar.Prelude.{
  ◌≡◌, refl, sym, ap, ◌∙◌, Bool, false, not, ◌||◌, List, [], ◌∷◌, ◌++◌, map, append_assoc,
  append-nil, filter_by, filter_by-append, filter_by-filter_by, filter_by-all, map-filter_by,
  if◌then◌else◌, arith,
}
use mathlib.Core.List.{map-append}
use merabriar.Rust.Text.{Text, contains}
use merabriar.Sync.{
  QueuedMessage, Queue, retain, increment_first, queue_message, clear_queue, increment_attempts,
}
use merabriar.Sync.Calls.{Call, queue, clear, increment, perform, run, call_healthy}

-- Whether one of the calls clears the id.
abbrev pub cleared : Text → List Call → Bool
cleared t [] = false
cleared t (queue m ∷ cs) = cleared t cs
cleared t (clear ids ∷ cs) = contains ids t || cleared t cs
cleared t (increment id ∷ cs) = cleared t cs

-- The ids that were queued and not cleared afterwards, oldest first.
abbrev pub survivors : List Call → List Text
survivors [] = []
survivors (queue m ∷ cs) = let rest = survivors cs in if cleared m.id cs then rest else m.id ∷ rest
survivors (clear ids ∷ cs) = survivors cs
survivors (increment id ∷ cs) = survivors cs

abbrev pub ids_of : List QueuedMessage → List Text
ids_of = map (λ m. m.id)

abbrev stays : List Call → Text → Bool
stays cs t = not (cleared t cs)

ids-increment_first :
    (checks : Bool) (id : Text) (l : List QueuedMessage)
    → ids_of (increment_first checks id l).1 ≡ ids_of l
unfolding increment_first
ids-increment_first checks id [] = refl
ids-increment_first checks id (m ∷ l) = ground (arith, ids-increment_first checks id l)

ids-retain :
    (ids : List Text) (l : List QueuedMessage)
    → ids_of (retain ids l) ≡ filter_by (λ t. not (contains ids t)) (ids_of l)
unfolding retain
ids-retain ids l = map-filter_by (λ m. m.id) (λ t. not (contains ids t)) l

-- The ids after one call.
abbrev pub next_ids : Call → List Text → List Text
next_ids (queue m) l = l ++ m.id ∷ []
next_ids (clear ids) l = filter_by (λ t. not (contains ids t)) l
next_ids (increment id) l = l

pub ids-perform :
    (c : Call) (q : Queue)
    → q.poisoned ≡ false
    → ids_of (perform false c q).1.value ≡ next_ids c (ids_of q.value)
unfolding queue_message clear_queue increment_attempts
ids-perform (queue m) q h = rw h (map-append (λ m. m.id) q.value (m ∷ []))
ids-perform (clear ids) q h = rw h (ids-retain ids q.value)
ids-perform (increment id) q h = ground (arith, ids-increment_first false id q.value)

-- A later filter after one call.
filter_by-next_ids :
    (c : Call) (cs : List Call) (l : List Text)
    → filter_by (stays cs) (next_ids c l) ++ survivors cs
      ≡ filter_by (stays (c ∷ cs)) l ++ survivors (c ∷ cs)
filter_by-next_ids (queue m) cs l = rw (filter_by-append (stays cs) l (m.id ∷ [])) (
    append_assoc (filter_by (stays cs) l) (filter_by (stays cs) (m.id ∷ [])) (survivors cs)
    ∙ ap (λ r. filter_by (stays cs) l ++ r) (ground arith))
filter_by-next_ids (clear ids) cs l =
    ap (λ r. r ++ survivors cs)
      (filter_by-filter_by (stays cs) (λ t. not (contains ids t)) (stays (clear ids ∷ cs)) l
        (λ t. ground arith))
filter_by-next_ids (increment id) cs l = refl

-- Without overflow checks, after any sequence of calls on a healthy queue, the ids are those that were there
-- and those queued since, in order of arrival, without what was cleared after it arrived; attempts do not
-- matter.
pub run-survivors :
    (cs : List Call) (q : Queue)
    → q.poisoned ≡ false
    → map (λ m. m.id) (run false cs q).value
      ≡ filter_by (λ t. not (cleared t cs)) (map (λ m. m.id) q.value) ++ survivors cs
run-survivors [] q h = sym (append-nil _ ∙ filter_by-all _ _ (λ t. refl))
run-survivors (c ∷ cs) q h =
    run-survivors cs (perform false c q).1 (call_healthy c q h).1
    ∙ ap (λ l. filter_by (stays cs) l ++ survivors cs) (ids-perform c q h)
    ∙ filter_by-next_ids c cs (ids_of q.value)
