-- ===== src/Tests/ToySqlite.antt =====
-- A database in memory that meets the contract of Storage/Laws.
use merabriar.Prelude.{
  ℕ, ap, Bool, ◌&&◌, get_elem?, ◌≡◌, ◌≢◌, ◌⊎◌, ◌↔◌, inl, inr, refl, sym, true, false, Bool-cases,
  Option, none, some, List, ◌∷◌, map, In, ite, if◌then◌else◌, arith,
}
use merabriar.Rust.Text.{Bytes, Text, text, Text_discrete}
use merabriar.Rust.Result.{Result, ok, err}
use merabriar.Rust.HashMap
use merabriar.Rust.HashMap.{HashMap, get-insert}
use merabriar.Rust.Int.{ℤ}
use merabriar.Storage.{
  MessageRow, QueryRow, row, no_rows, Sqlite, Column, id_column, conversation_id_column,
  sender_id_column, content_column, timestamp_column, status_column, Value, text_value,
  integer_value, Direction, ascending, descending, Query,
}
use merabriar.Storage.Laws.{cells, at_most, skip, Answers, SqliteLaws}
use merabriar.Storage.Messages.{text_of}
use merabriar.Tests.ToyTables.{
  Tables, no_tables, without, In-without, of_conversation, In-of_conversation, sort, In-sort,
  IsNewestFirst-sort,
}

abbrev chosen_rows : Text → Tables → List MessageRow
chosen_rows id c = sort (of_conversation id c.messages)

abbrev is_conversation : Column → Bool
is_conversation id_column = false
is_conversation conversation_id_column = true
is_conversation sender_id_column = false
is_conversation content_column = false
is_conversation timestamp_column = false
is_conversation status_column = false

abbrev is_timestamp : Column → Bool
is_timestamp id_column = false
is_timestamp conversation_id_column = false
is_timestamp sender_id_column = false
is_timestamp content_column = false
is_timestamp timestamp_column = true
is_timestamp status_column = false

abbrev is_descending : Direction → Bool
is_descending ascending = false
is_descending descending = true

-- This database answers only statements that look for a conversation and list the newest first.
abbrev is_answered : Query → Bool
is_answered query =
    is_conversation query.where_column
    && (is_timestamp query.order_column && is_descending query.direction)

conversation-only :
    (column : Column) → is_conversation column ≡ true → column ≡ conversation_id_column
conversation-only id_column h = cc
conversation-only conversation_id_column h = refl
conversation-only sender_id_column h = cc
conversation-only content_column h = cc
conversation-only timestamp_column h = cc
conversation-only status_column h = cc

timestamp-only : (column : Column) → is_timestamp column ≡ true → column ≡ timestamp_column
timestamp-only id_column h = cc
timestamp-only conversation_id_column h = cc
timestamp-only sender_id_column h = cc
timestamp-only content_column h = cc
timestamp-only timestamp_column h = refl
timestamp-only status_column h = cc

descending-only : (d : Direction) → is_descending d ≡ true → d ≡ descending
descending-only ascending h = cc
descending-only descending h = refl

abbrev found_text : Option Value → Result Text
found_text none = err (text "InvalidColumnIndex")
found_text (some (text_value t)) = ok t
found_text (some (integer_value n)) = err (text "InvalidColumnType")

abbrev found_integer : Option Value → Result ℤ
found_integer none = err (text "InvalidColumnIndex")
found_integer (some (text_value t)) = err (text "InvalidColumnType")
found_integer (some (integer_value n)) = ok n

abbrev found_row : Option Bytes → QueryRow
found_row none = no_rows
found_row (some bytes) = row bytes

abbrev pub sqlite : Sqlite Tables
sqlite = record {
  open_path = λ path. ok no_tables;
  create_tables = λ c. (ok tt, c);
  replace_message = λ r c. (ok tt, record c { messages = r ∷ without r.id c.messages });
  prepare_select = λ query c. ok tt;
  query_map = λ query id limit offset c.
      if is_answered query
      then ok
          (map (λ r. ok (cells query.columns r)) (at_most limit (skip offset (chosen_rows id c))))
      else err (text "not answered here");
  get_text = λ values i. found_text (get_elem? values i);
  get_integer = λ values i. found_integer (get_elem? values i);
  replace_session =
      λ id bytes c. (ok tt, record c { sessions = HashMap.insert id bytes c.sessions });
  select_session = λ id c. found_row (HashMap.get id c.sessions);
}

pub replaces_lem :
    (new_row : MessageRow) (c c' : Tables)
    → sqlite.replace_message new_row c ≡ (ok tt, c')
    → (r : MessageRow)
    → In r c'.messages ↔ ((r ≡ new_row) ⊎ (In r c.messages × (r.id ≢ new_row.id)))
replaces_lem new_row c c' h r =
    let both = In-without new_row.id c.messages r in
    let e : new_row ∷ without new_row.id c.messages ≡ c'.messages = ground arith in
    rw (← e) (
      λ i. elim i [ inl new ↦ inl (sym new) | inr old ↦ inr (both.0 old) ],
      λ i. elim i [ inl new ↦ inl (sym new) | inr old ↦ inr (both.1 old) ],
    )

pub selects_lem :
    (query : Query) (id : Text) (limit offset : ℤ) (c : Tables) (rows : List (Result (List Value)))
    → sqlite.query_map query id limit offset c ≡ ok rows
    → Answers c.messages query id limit offset rows
selects_lem query id limit offset c rows h = elim (Bool-cases (is_answered query)) [
  | inl answered ↦
      let by = conversation-only query.where_column (ground arith) in
      let on = timestamp-only query.order_column (ground arith) in
      let way = descending-only query.direction (ground arith) in
      record {
        all = chosen_rows id c;
        ordered = rw (on, way) (IsNewestFirst-sort (of_conversation id c.messages));
        chosen = λ r.
            let one = In-sort (of_conversation id c.messages) r in
            let two = In-of_conversation id c.messages r in
            rw by (
              λ i. let (there, e) = two.0 (one.0 i) in (there, ap text_value e),
              λ i. one.1 (two.1 (i.0, ap text_of i.1)),
            );
        page = ground arith;
      }
  | inr not_answered ↦ absurd (ground arith)
]

pub reads_text_lem :
    (values : List Value) (i : ℕ) (t : Text)
    → get_elem? values i ≡ some (text_value t)
    → sqlite.get_text values i ≡ ok t
reads_text_lem values i t h = rw h

pub reads_integer_lem :
    (values : List Value) (i : ℕ) (n : ℤ)
    → get_elem? values i ≡ some (integer_value n)
    → sqlite.get_integer values i ≡ ok n
reads_integer_lem values i n h = rw h

pub stores_lem :
    (id : Text) (bytes : Bytes) (c c' : Tables)
    → sqlite.replace_session id bytes c ≡ (ok tt, c')
    → (k : Text)
    → HashMap.get k c'.sessions ≡ ite (Text_discrete id k) (some bytes) (HashMap.get k c.sessions)
stores_lem id bytes c c' h k =
    let e : HashMap.insert id bytes c.sessions ≡ c'.sessions = ground arith in
    rw (← e) (get-insert id k bytes c.sessions)

pub finds_lem :
    (id : Text) (bytes : Bytes) (c : Tables)
    → sqlite.select_session id c ≡ row bytes
    → HashMap.get id c.sessions ≡ some bytes
finds_lem id bytes c h = ground arith

pub misses_lem :
    (id : Text) (c : Tables)
    → sqlite.select_session id c ≡ no_rows
    → HashMap.get id c.sessions ≡ none
misses_lem id c h = ground arith

abbrev pub sqlite_laws : SqliteLaws sqlite
sqlite_laws = record {
  messages = λ c. c.messages;
  sessions = λ c k. HashMap.get k c.sessions;
  replaces = replaces_lem;
  selects = selects_lem;
  reads_text = reads_text_lem;
  reads_integer = reads_integer_lem;
  stores_session = stores_lem;
  finds_session = finds_lem;
  misses_session = misses_lem;
}
