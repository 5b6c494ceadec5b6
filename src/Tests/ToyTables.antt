-- ===== src/Tests/ToyTables.antt =====
-- The tables of a database in memory, and what a statement looks for in them.
use merabriar.Prelude.{
  ◌≡◌, ◌≢◌, ◌⊎◌, ◌↔◌, inl, inr, refl, true, false, Bool-cases, List, [], ◌∷◌, In, All, All-at,
  All-of_In, ite, if_pos, if_neg, if◌then◌else◌, arith,
}
use merabriar.Rust.Text.{Bytes, Text, Text_discrete}
use merabriar.Rust.HashMap
use merabriar.Rust.HashMap.{HashMap, get-insert}
use merabriar.Rust.Int.{ℤ, pos, negsuc, leb_ℤ}
use merabriar.Storage.{MessageRow, timestamp_column, descending}
use merabriar.Storage.Laws.{IsOrdered}

pub record Tables : Type 0 where
  pub messages : List MessageRow
  pub sessions : HashMap Bytes

abbrev pub no_tables : Tables
no_tables = record { messages = []; sessions = HashMap.empty }

unfoldable pub without : Text → List MessageRow → List MessageRow
without id [] = []
without id (r ∷ rs) = let rest = without id rs in ite (Text_discrete r.id id) rest (r ∷ rest)

pub In-without :
    (id : Text) (rs : List MessageRow) (r : MessageRow)
    → In r (without id rs) ↔ (In r rs × (r.id ≢ id))
unfolding without
In-without id [] r = (λ h. absurd h, λ h. absurd h.0)
In-without id (s ∷ rs) r =
    let ih = In-without id rs r in
    elim (Text_discrete s.id id) [
      | yes mine ↦ rw (if_pos _ mine) (
        λ h. (inr (ih.0 h).0, (ih.0 h).1),
        λ h. elim h.0 [ inl same ↦ absurd (h.1 (cc (mine, same))) | inr there ↦ ih.1 (there, h.1) ],
      )
      | no other ↦ rw (if_neg _ other) (
        λ h. elim h [
          | inl same ↦ (inl same, λ e. other (cc (e, same)))
          | inr there ↦ (inr (ih.0 there).0, (ih.0 there).1)
        ],
        λ h. elim h.0 [ inl same ↦ inl same | inr there ↦ inr (ih.1 (there, h.1)) ],
      )
    ]

unfoldable pub of_conversation : Text → List MessageRow → List MessageRow
of_conversation id [] = []
of_conversation id (r ∷ rs) =
    let rest = of_conversation id rs in ite (Text_discrete r.conversation_id id) (r ∷ rest) rest

pub In-of_conversation :
    (id : Text) (rs : List MessageRow) (r : MessageRow)
    → In r (of_conversation id rs) ↔ (In r rs × (r.conversation_id ≡ id))
unfolding of_conversation
In-of_conversation id [] r = (λ h. absurd h, λ h. absurd h.0)
In-of_conversation id (s ∷ rs) r =
    let ih = In-of_conversation id rs r in
    elim (Text_discrete s.conversation_id id) [
      | yes mine ↦ rw (if_pos _ mine) (
        λ h. elim h [
          | inl same ↦ (inl same, cc (mine, same))
          | inr there ↦ (inr (ih.0 there).0, (ih.0 there).1)
        ],
        λ h. elim h.0 [ inl same ↦ inl same | inr there ↦ inr (ih.1 (there, h.1)) ],
      )
      | no other ↦ rw (if_neg _ other) (
        λ h. (inr (ih.0 h).0, (ih.0 h).1),
        λ h. elim h.0 [
          | inl same ↦ absurd (other (cc (h.1, same)))
          | inr there ↦ ih.1 (there, h.1)
        ],
      )
    ]

-- Insertion sort by descending timestamps.
unfoldable pub insert_sorted : MessageRow → List MessageRow → List MessageRow
insert_sorted r [] = r ∷ []
insert_sorted r (s ∷ ss) =
    let rest = insert_sorted r ss in if leb_ℤ s.timestamp r.timestamp then r ∷ s ∷ ss else s ∷ rest

unfoldable pub sort : List MessageRow → List MessageRow
sort [] = []
sort (r ∷ rs) = insert_sorted r (sort rs)

leb_ℤ-trans : (a b c : ℤ) → leb_ℤ a b ≡ true → leb_ℤ b c ≡ true → leb_ℤ a c ≡ true
leb_ℤ-trans (pos a) (pos b) (pos c) h k = ground arith
leb_ℤ-trans (pos a) (pos b) (negsuc c) h k = cc
leb_ℤ-trans (pos a) (negsuc b) c h k = cc
leb_ℤ-trans (negsuc a) b (pos c) h k = refl
leb_ℤ-trans (negsuc a) (pos b) (negsuc c) h k = cc
leb_ℤ-trans (negsuc a) (negsuc b) (negsuc c) h k = ground arith

leb_ℤ-total : (a b : ℤ) → leb_ℤ a b ≡ false → leb_ℤ b a ≡ true
leb_ℤ-total (pos a) (pos b) h = ground arith
leb_ℤ-total (pos a) (negsuc b) h = refl
leb_ℤ-total (negsuc a) (pos b) h = cc
leb_ℤ-total (negsuc a) (negsuc b) h = ground arith

In-insert_sorted :
    (r x : MessageRow) (ss : List MessageRow) → In x (insert_sorted r ss) ↔ ((r ≡ x) ⊎ In x ss)
unfolding insert_sorted
In-insert_sorted r x [] = (λ h. h, λ h. h)
In-insert_sorted r x (s ∷ ss) =
    let ih = In-insert_sorted r x ss in
    elim (Bool-cases (leb_ℤ s.timestamp r.timestamp)) [
      | inl early ↦ rw early (λ h. h, λ h. h)
      | inr late ↦ rw late (
        λ h. elim h [
          | inl first ↦ inr (inl first)
          | inr there ↦ elim (ih.0 there) [ inl new ↦ inl new | inr old ↦ inr (inr old) ]
        ],
        λ h. elim h [
          | inl new ↦ inr (ih.1 (inl new))
          | inr old ↦ elim old [ inl first ↦ inl first | inr there ↦ inr (ih.1 (inr there)) ]
        ],
      )
    ]

pub In-sort : (rs : List MessageRow) (x : MessageRow) → In x (sort rs) ↔ In x rs
unfolding sort
In-sort [] x = (λ h. h, λ h. h)
In-sort (r ∷ rs) x =
    let ih = In-sort rs x in
    let one = In-insert_sorted r x (sort rs) in
    (
      λ h. elim (one.0 h) [ inl new ↦ inl new | inr old ↦ inr (ih.0 old) ],
      λ h. elim h [ inl new ↦ one.1 (inl new) | inr old ↦ one.1 (inr (ih.1 old)) ],
    )

All-insert_sorted :
    (P : MessageRow → Type 0) (r : MessageRow) (ss : List MessageRow)
    → P r
    → All P ss
    → All P (insert_sorted r ss)
unfolding insert_sorted
All-insert_sorted P r [] h hs = (h, hs)
All-insert_sorted P r (s ∷ ss) h hs = elim (Bool-cases (leb_ℤ s.timestamp r.timestamp)) [
  | inl early ↦ rw early (h, hs)
  | inr late ↦ rw late (hs.0, All-insert_sorted P r ss h hs.1)
]

-- The newest first.
abbrev IsNewestFirst : List MessageRow → Type 0
IsNewestFirst = IsOrdered timestamp_column descending

IsNewestFirst-insert_sorted :
    (r : MessageRow) (ss : List MessageRow) → IsNewestFirst ss → IsNewestFirst (insert_sorted r ss)
unfolding insert_sorted
IsNewestFirst-insert_sorted r [] h = (tt, tt)
IsNewestFirst-insert_sorted r (s ∷ ss) h = elim (Bool-cases (leb_ℤ s.timestamp r.timestamp)) [
  | inl early ↦ rw early (
    (
      early,
      All-of_In _ ss
          (λ x i. leb_ℤ-trans x.timestamp s.timestamp r.timestamp (All-at _ ss h.0 x i) early),
    ),
    h,
  )
  | inr late ↦ rw late (
    All-insert_sorted _ r ss (leb_ℤ-total s.timestamp r.timestamp late) h.0,
    IsNewestFirst-insert_sorted r ss h.1,
  )
]

pub IsNewestFirst-sort : (rs : List MessageRow) → IsNewestFirst (sort rs)
unfolding sort
IsNewestFirst-sort [] = tt
IsNewestFirst-sort (r ∷ rs) = IsNewestFirst-insert_sorted r (sort rs) (IsNewestFirst-sort rs)
