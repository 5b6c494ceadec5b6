-- ===== src/Storage/Pages.antt =====
-- The pages that `get_messages` of storage/mod.rs returns.
use merabriar.Prelude.{
  ℕ, ◌≤◌, ◌≡◌, zero, suc, ◌∙◌, sym, ap, subst, true, List, [], ◌∷◌, map, length, take, drop, In,
  In-unmap, In-take, In-drop, All, All-of_In, All-at, length-take-le, length-map,
}
use merabriar.Rust.Text.{Text}
use merabriar.Rust.Result.{ok}
use merabriar.Rust.Int.{ℤ, pos, negsuc, leb_ℤ}
use merabriar.Message.{Message}
use merabriar.Storage.{MessageRow, Sqlite, Database, get_messages, timestamp_column, descending}
use merabriar.Storage.Laws.{IsOrdered, at_most, skip, SqliteLaws}
use merabriar.Storage.Messages.{held, got_connection, select_page-lists}

abbrev IsNewestFirst : List MessageRow → Type 0
IsNewestFirst = IsOrdered timestamp_column descending

-- The newest first.
abbrev pub IsSortedDesc : List Message → Type 0
IsSortedDesc [] = Unit
IsSortedDesc (m ∷ ms) = All (λ n. leb_ℤ n.timestamp m.timestamp ≡ true) ms × IsSortedDesc ms

IsNewestFirst-take : (n : ℕ) (rs : List MessageRow) → IsNewestFirst rs → IsNewestFirst (take n rs)
IsNewestFirst-take zero rs h = tt
IsNewestFirst-take (suc n) [] h = tt
IsNewestFirst-take (suc n) (r ∷ rs) h = (
  All-of_In _ (take n rs) (λ s i. All-at _ rs h.0 s (In-take s n rs i)),
  IsNewestFirst-take n rs h.1,
)

IsNewestFirst-drop : (n : ℕ) (rs : List MessageRow) → IsNewestFirst rs → IsNewestFirst (drop n rs)
IsNewestFirst-drop zero rs h = h
IsNewestFirst-drop (suc n) [] h = h
IsNewestFirst-drop (suc n) (r ∷ rs) h = IsNewestFirst-drop n rs h.1

IsNewestFirst-page :
    (limit offset : ℤ) (rs : List MessageRow)
    → IsNewestFirst rs
    → IsNewestFirst (at_most limit (skip offset rs))
IsNewestFirst-page (pos n) (pos k) rs h =
    IsNewestFirst-take n (drop k rs) (IsNewestFirst-drop k rs h)
IsNewestFirst-page (pos n) (negsuc k) rs h = IsNewestFirst-take n rs h
IsNewestFirst-page (negsuc n) (pos k) rs h = IsNewestFirst-drop k rs h
IsNewestFirst-page (negsuc n) (negsuc k) rs h = h

In-page :
    (limit offset : ℤ) (rs : List MessageRow) (r : MessageRow)
    → In r (at_most limit (skip offset rs))
    → In r rs
In-page (pos n) (pos k) rs r i = In-drop r k rs (In-take r n (drop k rs) i)
In-page (pos n) (negsuc k) rs r i = In-take r n rs i
In-page (negsuc n) (pos k) rs r i = In-drop r k rs i
In-page (negsuc n) (negsuc k) rs r i = i

IsSortedDesc-map : (rs : List MessageRow) → IsNewestFirst rs → IsSortedDesc (map held rs)
IsSortedDesc-map [] h = tt
IsSortedDesc-map (r ∷ rs) h = (
  All-of_In _ (map held rs) (λ m i.
      let (s, s_in, e) = In-unmap held m rs i in
      subst (λ (x : Message). leb_ℤ x.timestamp r.timestamp ≡ true) e (All-at _ rs h.0 s s_in)),
  IsSortedDesc-map rs h.1,
)

length-at_most :
    (n : ℕ) (limit : ℤ) (rs : List MessageRow) → limit ≡ pos n → length (at_most limit rs) ≤ n
length-at_most n limit rs e = rw e (length-take-le n rs)

module _ {Connection : Type 0} {q : Sqlite Connection} (laws : SqliteLaws q) where
  -- Whatever page is asked for, the messages that are returned belong to the conversation and come the newest
  -- first, and there are at most `limit` of them if the limit is not negative.
  pub get_messages-page :
      (id : Text) (limit offset : ℤ) (db : Database Connection) (l : List Message)
      → (get_messages q id limit offset db).0 ≡ ok l
      → All (λ m. m.conversation_id ≡ id) l
        × IsSortedDesc l
        × ((n : ℕ) → limit ≡ pos n → length l ≤ n)
  get_messages-page id limit offset db l got =
      let (c, _, paged) = got_connection laws id limit offset db l got in
      let (all, sorted, chosen, listed) = select_page-lists laws id limit offset c l paged in
      let page = at_most limit (skip offset all) in
      rw listed (
        All-of_In _ (map held page) (λ m i.
            let (r, r_in, e) = In-unmap held m page i in
            sym (ap (λ (x : Message). x.conversation_id) e)
            ∙ ((chosen r).0 (In-page limit offset all r r_in)).1),
        IsSortedDesc-map page (IsNewestFirst-page limit offset all sorted),
        λ n e. rw (length-map held page) (length-at_most n limit (skip offset all) e),
      )
