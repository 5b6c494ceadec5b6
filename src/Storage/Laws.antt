-- ===== src/Storage/Laws.antt =====
-- What the statements of storage/mod.rs mean to SQLite.
use merabriar.Prelude.{
  ℕ, get_elem?, ◌≡◌, ◌≢◌, ◌↔◌, ◌⊎◌, true, Option, none, some, List, [], ◌∷◌, In, All, map, take,
  drop, ite,
}
use merabriar.Rust.Text.{Bytes, Text, Text_discrete}
use merabriar.Rust.Result.{Result, ok}
use merabriar.Rust.Int.{ℤ, pos, negsuc, leb_ℤ}
use merabriar.Storage.{
  MessageRow, row, no_rows, Sqlite, Column, id_column, conversation_id_column, sender_id_column,
  content_column, timestamp_column, status_column, Value, text_value, integer_value, Direction,
  ascending, descending, Query,
}

-- What stands in a column of a row.
abbrev pub cell : Column → MessageRow → Value
cell id_column r = text_value r.id
cell conversation_id_column r = text_value r.conversation_id
cell sender_id_column r = text_value r.sender_id
cell content_column r = text_value r.content
cell timestamp_column r = integer_value r.timestamp
cell status_column r = text_value r.status

abbrev pub cells : List Column → MessageRow → List Value
cells columns r = map (λ k. cell k r) columns

-- The first value may come before the second. Of the order of texts nothing is assumed.
abbrev pub MayPrecede : Direction → Value → Value → Type 0
MayPrecede ascending (integer_value a) (integer_value b) = leb_ℤ a b ≡ true
MayPrecede descending (integer_value a) (integer_value b) = leb_ℤ b a ≡ true
MayPrecede direction (text_value a) v = Unit
MayPrecede direction (integer_value a) (text_value b) = Unit

-- `ORDER BY column direction`
abbrev pub IsOrdered : Column → Direction → List MessageRow → Type 0
IsOrdered by direction [] = Unit
IsOrdered by direction (r ∷ rs) =
    All (λ s. MayPrecede direction (cell by r) (cell by s)) rs × IsOrdered by direction rs

-- `LIMIT limit OFFSET offset`: a negative limit is none, and a negative offset is 0.
abbrev pub skip : {A : Type 0} → ℤ → List A → List A
skip (pos n) xs = drop n xs
skip (negsuc n) xs = xs

abbrev pub at_most : {A : Type 0} → ℤ → List A → List A
at_most (pos n) xs = take n xs
at_most (negsuc n) xs = xs

-- `rows` answers a statement over a table: all the rows that its `WHERE` takes, in its order (ties in any order),
-- then the page, and of each row the columns of the statement.
pub record Answers (table : List MessageRow) (query : Query) (parameter : Text) (limit offset : ℤ)
    (rows : List (Result (List Value))) : Type 0 where
  pub all : List MessageRow
  pub ordered : IsOrdered query.order_column query.direction all
  pub chosen :
      (r : MessageRow)
      → In r all ↔ (In r table × (cell query.where_column r ≡ text_value parameter))
  pub page : rows ≡ map (λ r. ok (cells query.columns r)) (at_most limit (skip offset all))

-- The tables of a connection, and what a statement that succeeds does to them. `id` is the primary key of
-- `messages`, `recipient_id` that of `sessions`.
pub record SqliteLaws {Connection : Type 0} (q : Sqlite Connection) : Type 0 where
  pub messages : Connection → List MessageRow
  pub sessions : Connection → Text → Option Bytes
  pub replaces :
      (new_row : MessageRow) (c c' : Connection)
      → q.replace_message new_row c ≡ (ok tt, c')
      → (r : MessageRow)
      → In r (messages c') ↔ ((r ≡ new_row) ⊎ (In r (messages c) × (r.id ≢ new_row.id)))
  pub selects :
      (query : Query) (parameter : Text) (limit offset : ℤ) (c : Connection)
      (rows : List (Result (List Value)))
      → q.query_map query parameter limit offset c ≡ ok rows
      → Answers (messages c) query parameter limit offset rows
  pub reads_text :
      (values : List Value) (i : ℕ) (t : Text)
      → get_elem? values i ≡ some (text_value t)
      → q.get_text values i ≡ ok t
  pub reads_integer :
      (values : List Value) (i : ℕ) (n : ℤ)
      → get_elem? values i ≡ some (integer_value n)
      → q.get_integer values i ≡ ok n
  pub stores_session :
      (id : Text) (bytes : Bytes) (c c' : Connection)
      → q.replace_session id bytes c ≡ (ok tt, c')
      → (k : Text) → sessions c' k ≡ ite (Text_discrete id k) (some bytes) (sessions c k)
  pub finds_session :
      (id : Text) (bytes : Bytes) (c : Connection)
      → q.select_session id c ≡ row bytes
      → sessions c id ≡ some bytes
  pub misses_session :
      (id : Text) (c : Connection) → q.select_session id c ≡ no_rows → sessions c id ≡ none
