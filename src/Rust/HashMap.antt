-- ===== src/Rust/HashMap.antt =====
-- `HashMap<String, V>`. The program never iterates over one, so order is not modelled: the map is an
-- association list with one entry for a key.
use merabriar.Prelude.{Bool, true, false, List, [], ◌∷◌, Option, none, some, ◌≡◌, refl, ite, arith}
use merabriar.Rust.Text.{Text, Text_discrete}

pub record HashMap {ℓ} (V : Type ℓ) : Type ℓ where
  entries : List (Text × V)

module _ {ℓ} {V : Type ℓ} where
  find : Text → List (Text × V) → Option V
  find k [] = none
  find k ((j, v) ∷ m) = ite (Text_discrete j k) (some v) (find k m)

  store : Text → V → List (Text × V) → List (Text × V)
  store k v [] = (k, v) ∷ []
  store k v ((j, w) ∷ m) = ite (Text_discrete j k) ((k, v) ∷ m) ((j, w) ∷ store k v m)

  find-store :
      (k j : Text) (v : V) (m : List (Text × V))
      → find j (store k v m) ≡ ite (Text_discrete k j) (some v) (find j m)
  unfolding find store
  find-store k j v [] = refl
  find-store k j v ((i, w) ∷ m) = ground (arith, find-store k j v m)

  unfoldable pub empty : HashMap V
  empty = record { entries = [] }

  unfoldable pub get : Text → HashMap V → Option V
  unfolding find
  get k m = find k m.entries

  unfoldable pub insert : Text → V → HashMap V → HashMap V
  unfolding store
  insert k v m = record { entries = store k v m.entries }

  -- `contains_key`
  abbrev pub contains_key : Text → HashMap V → Bool
  contains_key k m = elim (get k m) [ none ↦ false | some _ ↦ true ]

  -- A lookup after an insertion finds the new value at its key, and elsewhere what was there.
  pub get-insert :
      (k j : Text) (v : V) (m : HashMap V)
      → get j (insert k v m) ≡ ite (Text_discrete k j) (some v) (get j m)
  unfolding get insert
  get-insert k j v m = find-store k j v m.entries

  pub get-insert_self : (k : Text) (v : V) (m : HashMap V) → get k (insert k v m) ≡ some v
  get-insert_self k v m = ground (arith, get-insert k k v m)

pub get-empty {ℓ} : {V : Type ℓ} (k : Text) → get k (empty {V = V}) ≡ none
unfolding get empty
get-empty k = refl
