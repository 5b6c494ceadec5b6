-- ===== src/Rust/Lock.antt =====
-- `RwLock` and `Mutex` of `std::sync`, with poisoning: a panic under a write guard poisons the
-- lock, and every later acquisition is an `Err`. A guard lives to the end of the function that takes
-- it, so one acquisition with all that is done under it is one step.
use merabriar.Prelude.{Bool, true, false, if◌then◌else◌}
use merabriar.Rust.Text.{Text, text}
use merabriar.Rust.Result.{Result, ok, err, panic}
use merabriar.Rust.Exec.{Exec}

pub record Lock {ℓ} (A : Type ℓ) : Type ℓ where
  pub value : A
  pub poisoned : Bool

abbrev pub new_lock {ℓ} : {A : Type ℓ} → A → Lock A
new_lock a = record { value = a; poisoned = false }

-- The text of a `PoisonError`.
abbrev pub poison_text : Text
poison_text = text "poisoned lock: another task failed inside"

-- `lock.read().map_err(|e| e.to_string())?`
abbrev pub read {ℓ} : {A : Type ℓ} → Lock A → Result A
read l = if l.poisoned then err poison_text else ok l.value

module _ {ℓ κ} {A : Type ℓ} {B : Type κ} where
  -- The end of a write guard's scope: a panic leaves the lock poisoned.
  abbrev pub release : Result B × A → Result B × Lock A
  release (ok b, a) = (ok b, record { value = a; poisoned = false })
  release (err e, a) = (err e, record { value = a; poisoned = false })
  release (panic, a) = (panic, record { value = a; poisoned = true })

  -- `let mut guard = lock.write().map_err(|e| e.to_string())?; body`
  abbrev pub write : Exec A B → Exec (Lock A) B
  write body l = if l.poisoned then (err poison_text, l) else release (body l.value)
