-- ===== src/Storage/Sessions.antt =====
-- Sessions that storage/mod.rs stores and reads back, and the life of the connection.
use merabriar.Prelude.{
  ◌≡◌, ◌≢◌, ◌⊎◌, inl, inr, refl, ◌∙◌, false, Option, none, some, Option-cases, ite, arith,
}
use merabriar.Rust.Text.{Bytes, Text, text, Text_discrete}
use merabriar.Rust.Result.{ok, err, is_ok, is_err, is_panic, Result-cases}
use merabriar.Rust.Int.{ℤ}
use merabriar.Message.{Message}
use merabriar.Storage.{
  Sqlite, QueryRow, row, no_rows, failed, Database, on_connection, query_result, init,
  store_message, get_messages, store_session, get_session,
}
use merabriar.Storage.Laws.{SqliteLaws}

data RowCases (r : QueryRow) : Type 0 where
  is_row : (bytes : Bytes) → r ≡ row bytes → RowCases r
  is_no_rows : r ≡ no_rows → RowCases r
  is_failed : (e : Text) → r ≡ failed e → RowCases r

row-cases : (r : QueryRow) → RowCases r
row-cases (row bytes) = is_row bytes refl
row-cases no_rows = is_no_rows refl
row-cases (failed e) = is_failed e refl

module _ {Connection : Type 0} {q : Sqlite Connection} (laws : SqliteLaws q) where
  got_session :
      (k : Text) (db : Database Connection) (r : Option Bytes)
      → (get_session q k db).0 ≡ ok r
      → (c : Connection) × (db.value ≡ some c) × (laws.sessions c k ≡ r)
  unfolding get_session on_connection query_result
  got_session k db r h = elim (Option-cases db.value) [
    | inl missing ↦ absurd (ground arith)
    | inr (c, found) ↦ elim (row-cases (q.select_session k c)) [
      | is_row bytes e ↦ (c, found, laws.finds_session k bytes c e ∙ ground arith)
      | is_no_rows e ↦ (c, found, laws.misses_session k c e ∙ ground arith)
      | is_failed t e ↦ absurd (ground arith)
    ]
  ]

  stored_session :
      (id : Text) (bytes : Bytes) (db db' : Database Connection)
      → store_session q id bytes db ≡ (ok tt, db')
      → (c c' : Connection) × (db.value ≡ some c)
        × (q.replace_session id bytes c ≡ (ok tt, c'))
        × (db'.value ≡ some c')
  unfolding store_session on_connection
  stored_session id bytes db db' h = elim (Option-cases db.value) [
    | inl missing ↦ absurd (ground arith)
    | inr (c, found) ↦ (c, (q.replace_session id bytes c).1, found, ground arith, ground arith)
  ]

  -- After a session has been stored, a read that succeeds gives its bytes under its recipient, and under every
  -- other recipient what was read before.
  get_session-store_session :
      (id k : Text) (bytes : Bytes) (db db' : Database Connection) (old new : Option Bytes)
      → (get_session q k db).0 ≡ ok old
      → store_session q id bytes db ≡ (ok tt, db')
      → (get_session q k db').0 ≡ ok new
      → new ≡ ite (Text_discrete id k) (some bytes) old
  get_session-store_session id k bytes db db' old new before stored after =
      let (b, b_in, b_is) = got_session k db old before in
      let (c, c', c_in, replaced, c'_in) = stored_session id bytes db db' stored in
      let (d, d_in, d_is) = got_session k db' new after in
      ground (arith, laws.stores_session id bytes c c' replaced k)

module _ {Connection : Type 0} (q : Sqlite Connection) where
  -- Before a successful `init` every operation fails with the same error and changes nothing.
  uninitialized :
      (m : Message) (id : Text) (bytes : Bytes) (limit offset : ℤ) (db : Database Connection)
      → db.value ≡ none
      → db.poisoned ≡ false
      → (store_message q m db ≡ (err (text "Database not initialized"), db))
        × (get_messages q id limit offset db ≡ (err (text "Database not initialized"), db))
        × (store_session q id bytes db ≡ (err (text "Database not initialized"), db))
        × (get_session q id db ≡ (err (text "Database not initialized"), db))
  unfolding store_message get_messages store_session get_session on_connection
  uninitialized m id bytes limit offset db missing healthy =
      (ground arith, ground arith, ground arith, ground arith)

  -- `init` succeeds and the lock then holds a connection, or it fails and whatever connection was there is
  -- still there.
  pub init-replaces :
      (db_path key : Text) (db : Database Connection)
      → (((init q db_path key db).0 ≡ ok tt)
          × (c : Connection) × ((init q db_path key db).1
              ≡ record { value = some c; poisoned = false }))
        ⊎ (((init q db_path key db).0 ≢ ok tt) × ((init q db_path key db).1 ≡ db))
  unfolding init
  init-replaces db_path key db = elim (Result-cases (q.open_path db_path)) [
    | is_ok conn opened ↦ elim (Result-cases (init q db_path key db).0) [
      | is_ok u e ↦ inl (e, (q.create_tables conn).1, ground arith)
      | is_err t e ↦ inr (ground arith, ground arith)
      | is_panic e ↦ inr (ground arith, ground arith)
    ]
    | is_err t e ↦ inr (ground arith, ground arith)
    | is_panic e ↦ inr (ground arith, ground arith)
  ]
