-- ===== src/Storage/Messages.antt =====
-- Messages that storage/mod.rs stores and reads back.
use merabriar.Prelude.{
  ℕ, ◌≡◌, ◌↔◌, inl, inr, refl, sym, ap, ◌∙◌, subst, false, some, Option-cases, List, [], ◌∷◌, map,
  In, In-map, In-unmap, arith,
}
use merabriar.Rust.Text.{Text, text}
use merabriar.Rust.Result.{Result, ok, err, panic, map_err, >>=-eq-ok}
use merabriar.Rust.Int.{ℤ, pos, negsuc}
use merabriar.Message.{Message, from_str}
use merabriar.Message.Status.{from_str-to_string}
use merabriar.Storage.{
  MessageRow, Sqlite, Database, to_row, from_row, collect, messages_query, Value, text_value,
  integer_value, timestamp_column, descending, on_connection, store_message, select_page,
  get_messages,
}
use merabriar.Storage.Laws.{IsOrdered, cells, at_most, skip, SqliteLaws}

-- The message that a row of the table holds.
abbrev pub held : MessageRow → Message
held r = record {
  id = r.id;
  conversation_id = r.conversation_id;
  sender_id = r.sender_id;
  content = r.content;
  timestamp = r.timestamp;
  status = from_str r.status;
}

-- A message is read back from its row as it was.
held-to_row : (m : Message) → held (to_row m) ≡ m
unfolding to_row
held-to_row m = ground (arith, from_str-to_string m.status)

id-to_row : (m : Message) → (to_row m).id ≡ m.id
unfolding to_row
id-to_row m = refl

in_conversation : (m : Message) → (to_row m).conversation_id ≡ m.conversation_id
unfolding to_row
in_conversation m = refl

abbrev pub text_of : Value → Text
text_of (text_value t) = t
text_of (integer_value n) = []

map_err-ok {ℓ} :
    {A : Type ℓ} (prefix : Text) (r : Result A) {a : A} → map_err prefix r ≡ ok a → r ≡ ok a
map_err-ok prefix (ok a) h = h
map_err-ok prefix (err e) h = cc
map_err-ok prefix panic h = cc

module _ {Connection : Type 0} {q : Sqlite Connection} (laws : SqliteLaws q) where
  -- The columns that the statement names are those that the closure reads.
  from_row-cells : (r : MessageRow) → from_row q (cells messages_query.columns r) ≡ ok (held r)
  unfolding from_row
  from_row-cells r =
      let values = cells messages_query.columns r in
      rw (
        laws.reads_text values 0 r.id refl,
        laws.reads_text values 1 r.conversation_id refl,
        laws.reads_text values 2 r.sender_id refl,
        laws.reads_text values 3 r.content refl,
        laws.reads_integer values 4 r.timestamp refl,
        laws.reads_text values 5 r.status refl,
      )

  collect-cells :
      (rs : List MessageRow)
      → collect q (map (λ r. ok (cells messages_query.columns r)) rs) ≡ ok (map held rs)
  unfolding collect
  collect-cells [] = refl
  collect-cells (r ∷ rs) = rw (from_row-cells r, collect-cells rs)

  stored_connection :
      (m : Message) (db db' : Database Connection)
      → store_message q m db ≡ (ok tt, db')
      → (c c' : Connection) × (q.replace_message (to_row m) c ≡ (ok tt, c'))
        × (db' ≡ record { value = some c'; poisoned = false })
  unfolding store_message on_connection
  stored_connection m db db' h = elim (Option-cases db.value) [
    | inl missing ↦ absurd (ground arith)
    | inr (c, found) ↦ (c, (q.replace_message (to_row m) c).1, ground arith, ground arith)
  ]

  -- What `get_messages` returns on a connection: a page of the conversation's rows, the newest first.
  pub select_page-lists :
      (id : Text) (limit offset : ℤ) (c : Connection) (l : List Message)
      → select_page q id limit offset c ≡ ok l
      → (all : List MessageRow) × IsOrdered timestamp_column descending all
        × ((r : MessageRow) → In r all ↔ (In r (laws.messages c) × (r.conversation_id ≡ id)))
        × (l ≡ map held (at_most limit (skip offset all)))
  unfolding select_page
  select_page-lists id limit offset c l h =
      let (prepared, _, h₁) =
        >>=-eq-ok (map_err (text "Failed to prepare query: ") (q.prepare_select messages_query c)) _
          h in
      let (rows, selected, h₂) =
        >>=-eq-ok
          (map_err (text "Failed to query messages: ")
            (q.query_map messages_query id limit offset c))
          _ h₁ in
      let answers =
        laws.selects messages_query id limit offset c rows
          (map_err-ok (text "Failed to query messages: ") _ selected) in
      let page = at_most limit (skip offset answers.all) in
      let collected : ok (map held page) ≡ ok l =
        sym (collect-cells page)
        ∙ ap (collect q) (sym answers.page)
        ∙ map_err-ok (text "Failed to collect messages: ") _ h₂ in
      (
        answers.all,
        answers.ordered,
        (λ r. (
          λ i. let (there, e) = (answers.chosen r).0 i in (there, ap text_of e),
          λ h. (answers.chosen r).1 (h.0, ap text_value h.1),
        )),
        cc collected,
      )

  pub got_connection :
      (id : Text) (limit offset : ℤ) (db : Database Connection) (l : List Message)
      → (get_messages q id limit offset db).0 ≡ ok l
      → (c : Connection) × (db.value ≡ some c) × (select_page q id limit offset c ≡ ok l)
  unfolding get_messages on_connection
  got_connection id limit offset db l h = elim (Option-cases db.value) [
    | inl missing ↦ absurd (ground arith)
    | inr (c, found) ↦ (c, found, ground arith)
  ]

  -- After a message has been stored, a query for its conversation without limit and offset that succeeds
  -- returns it as it was stored, and no other message with its id.
  pub get_messages-store_message :
      (m : Message) (db db' : Database Connection) (k : ℕ) (l : List Message)
      → store_message q m db ≡ (ok tt, db')
      → (get_messages q m.conversation_id (negsuc k) (pos 0) db').0 ≡ ok l
      → In m l × ((x : Message) → In x l → x.id ≡ m.id → x ≡ m)
  get_messages-store_message m db db' k l stored got =
      let (c, c', replaced, after) = stored_connection m db db' stored in
      let (d, opened, paged) = got_connection m.conversation_id (negsuc k) (pos 0) db' l got in
      let same : d ≡ c' = cc (opened, after) in
      let (all, _, chosen, listed) =
        select_page-lists m.conversation_id (negsuc k) (pos 0) d l paged in
      let table = subst (λ t. laws.messages t ≡ laws.messages c') (sym same) refl in
      let present : In (to_row m) all = (chosen (to_row m)).1 (
        subst (In (to_row m)) (sym table)
            ((laws.replaces (to_row m) c c' replaced (to_row m)).1 (inl refl)),
        in_conversation m,
      ) in
      (
        subst (In m) (sym listed)
            (subst (λ t. In t (map held all)) (held-to_row m) (In-map held (to_row m) all present)),
        λ x i e.
            let (r, r_in, r_eq) = In-unmap held x all (subst (In x) listed i) in
            let r_new =
              (laws.replaces (to_row m) c c' replaced r).0
                (subst (In r) table ((chosen r).0 r_in).0) in
            elim r_new [
              | inl new ↦ sym r_eq ∙ ap held new ∙ held-to_row m
              | inr old ↦ absurd (old.1 (ap (λ (y : Message). y.id) r_eq ∙ e ∙ sym (id-to_row m)))
            ],
      )
