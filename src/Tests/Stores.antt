-- ===== src/Tests/Stores.antt =====
-- Storing and reading back, on a database in memory.
use merabriar.Prelude.{ℕ, ◌≤◌, ◌≡◌, refl, some, List, [], ◌∷◌, length, map, In, All}
use merabriar.Rust.Text.{Bytes, Text, text, Text_discrete}
use merabriar.Rust.Result.{ok}
use merabriar.Rust.HashMap
use merabriar.Rust.Int.{pos, negsuc}
use merabriar.Rust.Lock.{new_lock}
use merabriar.Message.{Message, MessageStatus, sent, delivered, from_str, to_lowercase, to_string}
use merabriar.Storage.{Database, store_message, get_messages, store_session, get_session, to_row}
use merabriar.Storage.Messages.{get_messages-store_message}
use merabriar.Storage.Pages.{IsSortedDesc, get_messages-page}
use merabriar.Tests.ToySqlite.{sqlite, sqlite_laws}
use merabriar.Tests.ToyTables.{Tables, no_tables, without, of_conversation, sort, insert_sorted}

abbrev message : Text → ℕ → MessageStatus → Message
message id at status = record {
  id = id;
  conversation_id = text "chat";
  sender_id = text "bob";
  content = text "hello";
  timestamp = pos at;
  status = status;
}

abbrev m1 : Message
m1 = message (text "m1") 10 sent

abbrev m2 : Message
m2 = message (text "m2") 20 sent

-- `m1` again, with another status.
abbrev m1_delivered : Message
m1_delivered = message (text "m1") 10 delivered

abbrev holding : List Message → Database Tables
holding ms = new_lock (some (record no_tables { messages = map to_row ms }))

stored :
    store_message sqlite m1_delivered (holding (m1 ∷ m2 ∷ []))
    ≡ (ok tt, holding (m1_delivered ∷ m2 ∷ []))
unfolding store_message without Text_discrete to_row
stored = refl

listed :
    (get_messages sqlite (text "chat") (negsuc 0) (pos 0) (holding (m1_delivered ∷ m2 ∷ []))).0
    ≡ ok (m2 ∷ m1_delivered ∷ [])
unfolding get_messages of_conversation sort insert_sorted Text_discrete to_row from_str to_lowercase
    to_string
listed = refl

first_page :
    (get_messages sqlite (text "chat") (pos 1) (pos 0) (holding (m1_delivered ∷ m2 ∷ []))).0
    ≡ ok (m2 ∷ [])
unfolding get_messages of_conversation sort insert_sorted Text_discrete to_row from_str to_lowercase
    to_string
first_page = refl

get_messages-store_message_example :
    In m1_delivered (m2 ∷ m1_delivered ∷ [])
    × ((x : Message) → In x (m2 ∷ m1_delivered ∷ []) → x.id ≡ m1_delivered.id → x ≡ m1_delivered)
get_messages-store_message_example =
    get_messages-store_message sqlite_laws m1_delivered (holding (m1 ∷ m2 ∷ []))
      (holding (m1_delivered ∷ m2 ∷ [])) 0 (m2 ∷ m1_delivered ∷ []) stored listed

get_messages-page_example :
    All (λ m. m.conversation_id ≡ text "chat") (m2 ∷ [])
    × IsSortedDesc (m2 ∷ [])
    × ((n : ℕ) → pos 1 ≡ pos n → length (m2 ∷ []) ≤ n)
get_messages-page_example =
    get_messages-page sqlite_laws (text "chat") (pos 1) (pos 0) (holding (m1_delivered ∷ m2 ∷ []))
      (m2 ∷ []) first_page

abbrev with_bytes : Bytes → Database Tables
with_bytes bytes =
    new_lock
      (some (record no_tables { sessions = HashMap.insert (text "bob") bytes HashMap.empty }))

reads : (n : ℕ) → (get_session sqlite (text "bob") (with_bytes (n ∷ []))).0 ≡ ok (some (n ∷ []))
unfolding get_session HashMap.get HashMap.insert HashMap.empty Text_discrete
reads n = refl

overwrites :
    store_session sqlite (text "bob") (2 ∷ []) (with_bytes (1 ∷ [])) ≡ (ok tt, with_bytes (2 ∷ []))
unfolding store_session HashMap.insert HashMap.empty Text_discrete
overwrites = refl
