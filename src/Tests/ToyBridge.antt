-- ===== src/Tests/ToyBridge.antt =====
-- A memory and a world of Dart values that meet the contracts of Bridge.
use merabriar.Prelude.{
  ℕ, zero, suc, ◌+◌, ◌≡◌, ◌≢◌, refl, Bool, true, false, Option, none, some, List, [], ◌∷◌, length,
  replicate, get_elem?, ◌==◌, if◌then◌else◌, arith,
}
use merabriar.Rust.Text.{Bytes, Text, text}
use merabriar.Rust.Result.{Result, ok, err, panic, ◌>>=◌}
use merabriar.Rust.Exec
use merabriar.Rust.Exec.{Exec, pure}
use merabriar.Rust.Int.{ℤ, pos, rounds}
use merabriar.Bridge.Cst.{Ffi, WireList}
use merabriar.Bridge.Cst.Ownership.{FfiLaws}
use merabriar.Bridge.Dart.{Dart, Js}
use merabriar.Bridge.Dart.Web.{JsLaws}

-- The blocks by their pointers.
abbrev pub Memory : Type 0
Memory = List (ℕ × Bytes)

abbrev box_at : ℕ → Exec Memory WireList
box_at p [] = (panic, [])
box_at p ((q, v) ∷ m) =
    let (r, left) = box_at p m in
    if p == q
    then (ok (record { ptr = p; len = pos (length v) }), (q, v) ∷ m)
    else (r, (q, v) ∷ left)

abbrev vec_at : ℕ → ℤ → Exec Memory Bytes
vec_at a n [] = (panic, [])
vec_at a n ((q, v) ∷ m) =
    let (r, left) = vec_at a n m in if a == q then (ok v, m) else (r, (q, v) ∷ left)

abbrev unused : Memory → ℕ
unused [] = 1
unused ((q, v) ∷ m) = q + unused m

abbrev new_vec : ℕ → ℤ → Exec Memory ℕ
new_vec i n m = (ok (unused m), (unused m, replicate (rounds n) i) ∷ m)

abbrev or_null : (ℕ → Exec Memory Bytes) → ℕ → Exec Memory (Option Bytes)
or_null d zero = pure none
or_null d (suc p) = Exec.◌>>=◌ (d (suc p)) (λ v. pure (some v))

abbrev pub ffi : Ffi Memory
ffi = record {
  box_from_leak_ptr = box_at;
  vec_from_leak_ptr = vec_at;
  new_leak_vec_ptr = new_vec;
  new_leak_box_ptr = λ w. pure w.ptr;
  decode_option = or_null;
  utf8_error = λ _. text "FromUtf8Error";
}

pub box_at-head :
    (p : ℕ) (v : Bytes) (m : Memory)
    → box_at p ((p, v) ∷ m) ≡ (ok (record { ptr = p; len = pos (length v) }), (p, v) ∷ m)
box_at-head p v m = ground arith

pub vec_at-head : (p : ℕ) (n : ℤ) (v : Bytes) (m : Memory) → vec_at p n ((p, v) ∷ m) ≡ (ok v, m)
vec_at-head p n v m = ground arith

pub or_null-some :
    (d : ℕ → Exec Memory Bytes) (p : ℕ) (m m' : Memory) (v : Bytes)
    → p ≢ 0
    → d p m ≡ (ok v, m')
    → or_null d p m ≡ (ok (some v), m')
or_null-some d zero m m' v ne h = absurd (ne refl)
or_null-some d (suc p) m m' v ne h = rw h

abbrev pub ffi_laws : FfiLaws ffi
ffi_laws = record {
  Owned = λ m blocks. m ≡ blocks;
  takes = λ m p v rest h. (
    p,
    (p, v) ∷ rest,
    rest,
    rw h (box_at-head p v rest),
    vec_at-head p (pos (length v)) v rest,
    refl,
  );
  makes = λ m n rest h. (
    unused m,
    unused m,
    (unused m, replicate n 0) ∷ m,
    (unused m, replicate n 0) ∷ m,
    refl,
    refl,
    rw h,
  );
  no_option = λ d m. refl;
  an_option = or_null-some;
}

-- The values of Dart and JavaScript.
pub data Value : Type 0 where
  of_bytes : Bytes → Value
  of_text : Text → Value
  of_bool : Bool → Value
  null : Value
  no_items : Value
  items_of : Value → Value → Value

abbrev array_of : List Value → Value
array_of [] = no_items
array_of (v ∷ vs) = items_of v (array_of vs)

abbrev into_array : Value → Result (List Value)
into_array no_items = ok []
into_array (items_of v vs) = do rest ← into_array vs; ok (v ∷ rest)
into_array _ = err (text "not an array")

abbrev option_of : Option Bytes → Value
option_of none = null
option_of (some v) = of_bytes v

abbrev to_vec : Value → Bytes
to_vec (of_bytes v) = v
to_vec _ = []

abbrev as_string : Value → Option Text
as_string (of_text s) = some s
as_string _ = none

abbrev is_truthy : Value → Bool
is_truthy (of_bool b) = b
is_truthy null = false
is_truthy _ = true

abbrev item_or_null : Option Value → Value
item_or_null none = null
item_or_null (some v) = v

abbrev option_or_null : (Value → Result Bytes) → Value → Result (Option Bytes)
option_or_null d null = ok none
option_or_null d v = do w ← d v; ok (some w)

pub data Message : Type 0 where
  success : Value → Message
  failure : Value → Message

abbrev pub dart : Dart Value Message
dart = record {
  of_bytes = of_bytes;
  of_text = of_text;
  of_bool = of_bool;
  of_unit = null;
  of_option = option_of;
  of_list = array_of;
  on_ok = success;
  on_err = failure;
}

abbrev pub js : Js Value
js = record {
  into_array = into_array;
  get = λ items i. item_or_null (get_elem? items i);
  to_vec = to_vec;
  as_string = as_string;
  is_truthy = is_truthy;
  decode_option = option_or_null;
}

pub into_array-array_of : (items : List Value) → into_array (array_of items) ≡ ok items
into_array-array_of [] = refl
into_array-array_of (v ∷ vs) = rw (into_array-array_of vs)

abbrev pub js_laws : JsLaws dart js
js_laws = record {
  array = into_array-array_of;
  item = λ items i v h. rw h;
  bytes = λ v. refl;
  null = λ d. refl;
  value = λ d v w h. rw h;
}
