-- ===== src/Sync/Members.antt =====
-- Which messages the queries and `clear_queue` of sync/mod.rs select.
use merabriar.Prelude.{
  ◌≡◌, ◌↔◌, inl, inr, refl, true, false, Bool-cases, if_pos, if_neg, sym, ◌∙◌, List, [], ◌∷◌, In,
  arith,
}
use mathlib.Core.List.{Sublist, nil-sublist}
use mathlib.Core.List.Sublist
use mathlib.Core.Bool.{false≢true}
use merabriar.Rust.Text.{Text, Text_discrete, contains}
use merabriar.Rust.Result.{ok}
use merabriar.Sync.{QueuedMessage, Queue, retain, clear_queue, addressed, get_queued_for_recipient}

contains_iff : (ids : List Text) (t : Text) → (contains ids t ≡ true) ↔ In t ids
unfolding contains
contains_iff [] t = (λ h. cc, λ h. absurd h)
contains_iff (x ∷ ids) t = (ground (arith, contains_iff ids t), ground (arith, contains_iff ids t))

In-retain :
    (ids : List Text) (l : List QueuedMessage) (m : QueuedMessage)
    → (In m (retain ids l) → In m l × (contains ids m.id ≡ false))
      × (In m l → contains ids m.id ≡ false → In m (retain ids l))
unfolding retain
In-retain ids [] m = (λ h. absurd h, λ h _. h)
In-retain ids (x ∷ l) m =
    let ih = In-retain ids l m in
    elim (Bool-cases (contains ids x.id)) [
      | inl gone ↦ rw gone (
        λ h. (inr (ih.0 h).0, (ih.0 h).1),
        λ h e. elim h [ inl same ↦ cc (gone, e, same) | inr there ↦ ih.1 there e ],
      )
      | inr kept ↦ rw kept (
        λ h. elim h [
          | inl same ↦ (inl same, cc (kept, same))
          | inr there ↦ (inr (ih.0 there).0, (ih.0 there).1)
        ],
        λ h e. elim h [ inl same ↦ inl same | inr there ↦ inr (ih.1 there e) ],
      )
    ]

retain-sublist : (ids : List Text) (l : List QueuedMessage) → Sublist (retain ids l) l
unfolding retain
retain-sublist ids [] = nil-sublist []
retain-sublist ids (x ∷ l) = elim (Bool-cases (contains ids x.id)) [
  | inl gone ↦ rw gone (Sublist.cons x (retain-sublist ids l))
  | inr kept ↦ rw kept (Sublist.cons-cons x (retain-sublist ids l))
]

not-contains_iff : (ids : List Text) (t : Text) → (contains ids t ≡ false) ↔ (¬ In t ids)
not-contains_iff ids t = (
  λ h i. false≢true (sym h ∙ (contains_iff ids t).1 i),
  λ n. elim (Bool-cases (contains ids t)) [
    | inl h ↦ absurd (n ((contains_iff ids t).0 h))
    | inr h ↦ h
  ],
)

-- `clear_queue` on a healthy lock succeeds; it keeps exactly the messages whose id is not listed, every
-- copy of them, in their order.
clear_queue-exact :
    (ids : List Text) (q : Queue)
    → q.poisoned ≡ false
    → ((clear_queue ids q).0 ≡ ok tt)
      × ((m : QueuedMessage) → In m (clear_queue ids q).1.value ↔ (In m q.value × (¬ In m.id ids)))
      × Sublist (clear_queue ids q).1.value q.value
unfolding clear_queue
clear_queue-exact ids q healthy = rw healthy (
  refl,
  λ m.
      let both = In-retain ids q.value m in
      (
        λ h. ((both.0 h).0, (not-contains_iff ids m.id).0 (both.0 h).1),
        λ h. both.1 h.0 ((not-contains_iff ids m.id).1 h.1),
      ),
  retain-sublist ids q.value,
)

In-addressed :
    (r : Text) (l : List QueuedMessage) (m : QueuedMessage)
    → In m (addressed r l) ↔ (In m l × (m.recipient_id ≡ r))
unfolding addressed
In-addressed r [] m = (λ h. absurd h, λ h. absurd h.0)
In-addressed r (x ∷ l) m =
    let ih = In-addressed r l m in
    elim (Text_discrete x.recipient_id r) [
      | yes mine ↦ rw (if_pos _ mine) (
        λ h. elim h [
          | inl same ↦ (inl same, cc (mine, same))
          | inr there ↦ (inr (ih.0 there).0, (ih.0 there).1)
        ],
        λ h. elim h.0 [ inl same ↦ inl same | inr there ↦ inr (ih.1 (there, h.1)) ],
      )
      | no other ↦ rw (if_neg _ other) (
        λ h. (inr (ih.0 h).0, (ih.0 h).1),
        λ h. elim h.0 [
          | inl same ↦ absurd (other (cc (same, h.1)))
          | inr there ↦ ih.1 (there, h.1)
        ],
      )
    ]

addressed-sublist : (r : Text) (l : List QueuedMessage) → Sublist (addressed r l) l
unfolding addressed
addressed-sublist r [] = nil-sublist []
addressed-sublist r (x ∷ l) = elim (Text_discrete x.recipient_id r) [
  | yes mine ↦ rw (if_pos _ mine) (Sublist.cons-cons x (addressed-sublist r l))
  | no other ↦ rw (if_neg _ other) (Sublist.cons x (addressed-sublist r l))
]

-- What `get_queued_for_recipient` returns is exactly the queued messages for that recipient, in their order.
get_queued_for_recipient-exact :
    (r : Text) (q : Queue) (l : List QueuedMessage)
    → get_queued_for_recipient r q ≡ ok l
    → ((m : QueuedMessage) → In m l ↔ (In m q.value × (m.recipient_id ≡ r))) × Sublist l q.value
unfolding get_queued_for_recipient
get_queued_for_recipient-exact r q l h =
    let e : addressed r q.value ≡ l = ground arith in
    rw (← e) (In-addressed r q.value, addressed-sublist r q.value)
