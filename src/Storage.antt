-- ===== src/Storage.antt =====
-- rust_core/src/storage/mod.rs: the database behind the static `DB`. SQLite (the crate rusqlite) is a
-- parameter: one operation for each statement that the module runs. The trait `Storage` has no
-- implementation.
pub mod Laws
pub mod Messages
pub mod Pages
pub mod Sessions
use merabriar.Prelude.{ℕ, Option, none, some, List, [], ◌∷◌, ◌++◌, map}
use merabriar.Rust.Text.{Bytes, Text, text}
use merabriar.Rust.Result.{Result, ok, err, panic, map_err, ◌>>=◌}
use merabriar.Rust.Exec.{Exec}
use merabriar.Rust.Int.{ℤ}
use merabriar.Rust.Lock.{Lock, write, new_lock}
use merabriar.Message.{Message, from_str, to_string}

-- The columns of `messages` that the module reads and writes.
pub record MessageRow : Type 0 where
  pub id : Text
  pub conversation_id : Text
  pub sender_id : Text
  pub content : Text
  pub timestamp : ℤ
  pub status : Text

pub data Column : Type 0 where
  id_column conversation_id_column sender_id_column content_column timestamp_column status_column :
      Column

-- A value as SQLite stores it, in the two types of those columns.
pub data Value : Type 0 where
  text_value : Text → Value
  integer_value : ℤ → Value

pub data Direction : Type 0 where
  ascending descending : Direction

-- A statement `SELECT columns FROM messages WHERE where_column = ?1 ORDER BY order_column direction
-- LIMIT ?2 OFFSET ?3`.
pub record Query : Type 0 where
  pub columns : List Column
  pub where_column : Column
  pub order_column : Column
  pub direction : Direction

-- The statement of `get_messages`.
abbrev pub messages_query : Query
messages_query = record {
  columns =
      id_column ∷ conversation_id_column ∷ sender_id_column ∷ content_column ∷ timestamp_column
      ∷ status_column ∷ [];
  where_column = conversation_id_column;
  order_column = timestamp_column;
  direction = descending;
}

-- The outcome of `query_row`, where `Error::QueryReturnedNoRows` is told from other errors.
pub data QueryRow : Type 0 where
  row : Bytes → QueryRow
  no_rows : QueryRow
  failed : Text → QueryRow

pub record Sqlite (Connection : Type 0) : Type 0 where
  -- `Connection::open(path)`
  pub open_path : Text → Result Connection
  -- `execute_batch` of the `CREATE TABLE IF NOT EXISTS` statements
  pub create_tables : Connection → Result (Unit {0}) × Connection
  -- `INSERT OR REPLACE INTO messages`
  pub replace_message : MessageRow → Connection → Result (Unit {0}) × Connection
  -- `prepare` of a `SELECT ... FROM messages`, and `query_map` of it: the rows with its three parameters
  pub prepare_select : Query → Connection → Result (Unit {0})
  pub query_map : Query → Text → ℤ → ℤ → Connection → Result (List (Result (List Value)))
  -- `row.get(i)` of a row, at the types `String` and `i64`
  pub get_text : List Value → ℕ → Result Text
  pub get_integer : List Value → ℕ → Result ℤ
  -- `INSERT OR REPLACE INTO sessions`, `SELECT session_data FROM sessions`
  pub replace_session : Text → Bytes → Connection → Result (Unit {0}) × Connection
  pub select_session : Text → Connection → QueryRow

abbrev pub Database : Type 0 → Type 0
Database Connection = Lock (Option Connection)

abbrev pub empty : {Connection : Type 0} → Database Connection
empty = new_lock none

-- The parameters of the insertion.
unfoldable pub to_row : Message → MessageRow
to_row m = record {
  id = m.id;
  conversation_id = m.conversation_id;
  sender_id = m.sender_id;
  content = m.content;
  timestamp = m.timestamp;
  status = to_string m.status;
}

-- `let conn = db.as_ref().ok_or("Database not initialized")?`
unfoldable pub on_connection :
    {Connection A : Type 0}
    → (Connection → Result A × Connection)
    → Option Connection
    → Result A × Option Connection
on_connection body none = (err (text "Database not initialized"), none)
on_connection body (some conn) = let (r, conn') = body conn in (r, some conn')

unfoldable pub query_result : QueryRow → Result (Option Bytes)
query_result (row bytes) = ok (some bytes)
query_result no_rows = ok none
query_result (failed e) = err (text "Failed to get session: " ++ e)

module _ {Connection : Type 0} (q : Sqlite Connection) where
  -- The end of `init`: the result of the statements, then the new connection in place of the old.
  unfoldable pub install : Result (Unit {0}) → Connection → Exec (Database Connection) (Unit {0})
  install (ok _) conn db = write (λ _. (ok tt, some conn)) db
  install (err e) conn db = (err (text "Failed to create tables: " ++ e), db)
  install panic conn db = (panic, db)

  unfoldable pub open_result : Result Connection → Exec (Database Connection) (Unit {0})
  unfolding install
  open_result (ok conn) db = let (r, conn') = q.create_tables conn in install r conn' db
  open_result (err e) db = (err (text "Failed to open database: " ++ e), db)
  open_result panic db = (panic, db)

  -- `init`; the encryption key is not used
  unfoldable pub init : Text → Text → Exec (Database Connection) (Unit {0})
  unfolding open_result
  init db_path encryption_key = open_result (q.open_path db_path)

  unfoldable pub store_message : Message → Exec (Database Connection) (Unit {0})
  unfolding on_connection to_row
  store_message message = write (
      on_connection (λ conn.
        let (r, conn') = q.replace_message (to_row message) conn in
        (map_err (text "Failed to store message: ") r, conn')))

  -- The closure that reads a row.
  unfoldable pub from_row : List Value → Result Message
  from_row values = do
    id ← q.get_text values 0
    conversation_id ← q.get_text values 1
    sender_id ← q.get_text values 2
    content ← q.get_text values 3
    timestamp ← q.get_integer values 4
    status ← q.get_text values 5
    ok (record {
      id = id;
      conversation_id = conversation_id;
      sender_id = sender_id;
      content = content;
      timestamp = timestamp;
      status = from_str status;
    })

  -- `messages.collect::<Result<Vec<_>, _>>()` over the mapped rows
  unfoldable pub collect : List (Result (List Value)) → Result (List Message)
  collect [] = ok []
  collect (r ∷ rs) = do values ← r; first ← from_row values; rest ← collect rs; ok (first ∷ rest)

  -- `get_messages` on the connection
  unfoldable pub select_page : Text → ℤ → ℤ → Connection → Result (List Message)
  unfolding collect from_row
  select_page conversation_id limit offset conn = do
    prepared ← map_err (text "Failed to prepare query: ") (q.prepare_select messages_query conn)
    rows ←
        map_err (text "Failed to query messages: ")
          (q.query_map messages_query conversation_id limit offset conn)
    map_err (text "Failed to collect messages: ") (collect rows)

  unfoldable pub get_messages : Text → ℤ → ℤ → Exec (Database Connection) (List Message)
  unfolding on_connection select_page
  get_messages conversation_id limit offset =
      write (on_connection (λ conn. (select_page conversation_id limit offset conn, conn)))

  unfoldable pub store_session : Text → Bytes → Exec (Database Connection) (Unit {0})
  unfolding on_connection
  store_session recipient_id session_data = write (
      on_connection (λ conn.
        let (r, conn') = q.replace_session recipient_id session_data conn in
        (map_err (text "Failed to store session: ") r, conn')))

  unfoldable pub get_session : Text → Exec (Database Connection) (Option Bytes)
  unfolding on_connection query_result
  get_session recipient_id =
      write (on_connection (λ conn. (query_result (q.select_session recipient_id conn), conn)))
