-- ===== src/Bridge/Cst/Ownership.antt =====
-- Who owns the memory behind the arguments of a call, which Dart leaves to the decoders of frb_generated.rs.
use merabriar.Prelude.{
  ℕ, ◌≡◌, ◌≢◌, true, false, Option, none, some, List, [], ◌∷◌, ◌++◌, length, replicate,
}
use merabriar.Rust.Text.{Bytes, Text}
use merabriar.Rust.Result.{ok, panic}
use merabriar.Rust.Exec.{Exec}
use merabriar.Rust.Int.{pos}
use merabriar.Rust.Utf8.{is_utf8}
use merabriar.Api.{PublicKeyBundleDto}
use merabriar.Bridge.Cst.{
  WirePublicKeyBundle, Ffi, decode_list, decode_text, decode_public_key_bundle, new_list,
}

-- `Owned m blocks`: the memory holds, apart from one another, a list behind each of these pointers with these
-- bytes, which nobody has taken over yet. To take a list over (`Box::from_raw`, then `Vec::from_raw_parts`)
-- gives its bytes and leaves the others; to make one adds a block of zeros.
pub record FfiLaws {Memory : Type 0} (f : Ffi Memory) : Type 1 where
  pub Owned : Memory → List (ℕ × Bytes) → Type 0
  pub takes :
      (m : Memory) (p : ℕ) (v : Bytes) (rest : List (ℕ × Bytes))
      → Owned m ((p, v) ∷ rest)
      → (a : ℕ) × (m₁ m₂ : Memory) × (f.box_from_leak_ptr p m
          ≡ (ok (record { ptr = a; len = pos (length v) }), m₁))
        × (f.vec_from_leak_ptr a (pos (length v)) m₁ ≡ (ok v, m₂))
        × Owned m₂ rest
  pub makes :
      (m : Memory) (n : ℕ) (rest : List (ℕ × Bytes))
      → Owned m rest
      → (a p : ℕ) × (m₁ m₂ : Memory) × (f.new_leak_vec_ptr 0 (pos n) m ≡ (ok a, m₁))
        × (f.new_leak_box_ptr (record { ptr = a; len = pos n }) m₁ ≡ (ok p, m₂))
        × Owned m₂ ((p, replicate n 0) ∷ rest)
  pub no_option : (d : ℕ → Exec Memory Bytes) (m : Memory) → f.decode_option d 0 m ≡ (ok none, m)
  pub an_option :
      (d : ℕ → Exec Memory Bytes) (p : ℕ) (m m' : Memory) (v : Bytes)
      → p ≢ 0
      → d p m ≡ (ok v, m')
      → f.decode_option d p m ≡ (ok (some v), m')

module _ {Memory : Type 0} {f : Ffi Memory} (laws : FfiLaws f) where
  pub decode_list-Owned :
      (m : Memory) (p : ℕ) (v : Bytes) (rest : List (ℕ × Bytes))
      → laws.Owned m ((p, v) ∷ rest)
      → (m' : Memory) × (decode_list f p m ≡ (ok v, m')) × laws.Owned m' rest
  unfolding decode_list
  decode_list-Owned m p v rest h =
      let (a, m₁, m₂, boxed, taken, left) = laws.takes m p v rest h in (m₂, rw (boxed, taken), left)

  pub decode_text-Owned :
      (m : Memory) (p : ℕ) (s : Text) (rest : List (ℕ × Bytes))
      → is_utf8 s ≡ true
      → laws.Owned m ((p, s) ∷ rest)
      → (m' : Memory) × (decode_text f p m ≡ (ok s, m')) × laws.Owned m' rest
  unfolding decode_text
  decode_text-Owned m p s rest utf8 h =
      let (m', read, left) = decode_list-Owned m p s rest h in (m', rw (read, utf8), left)

  -- A text argument that is not UTF-8 panics in the decoder, and its memory has been taken over.
  decode_text-not_utf8 :
      (m : Memory) (p : ℕ) (v : Bytes) (rest : List (ℕ × Bytes))
      → is_utf8 v ≡ false
      → laws.Owned m ((p, v) ∷ rest)
      → (m' : Memory) × (decode_text f p m ≡ (panic, m')) × laws.Owned m' rest
  unfolding decode_text
  decode_text-not_utf8 m p v rest bad h =
      let (m', read, left) = decode_list-Owned m p v rest h in (m', rw (read, bad), left)

  -- An optional argument, as a pointer and as the blocks that it owns.
  pub data OptionArg : ℕ → Option Bytes → List (ℕ × Bytes) → Type 0 where
    absent : OptionArg 0 none []
    present : (p : ℕ) (v : Bytes) → p ≢ 0 → OptionArg p (some v) ((p, v) ∷ [])

  pub decode_option-Owned :
      (m : Memory) {p : ℕ} {o : Option Bytes} {blocks : List (ℕ × Bytes)} (rest : List (ℕ × Bytes))
      → OptionArg p o blocks
      → laws.Owned m (blocks ++ rest)
      → (m' : Memory) × (f.decode_option (decode_list f) p m ≡ (ok o, m')) × laws.Owned m' rest
  decode_option-Owned m rest absent h = (m, laws.no_option (decode_list f) m, h)
  decode_option-Owned m rest (present p v there) h =
      let (m', read, left) = decode_list-Owned m p v rest h in
      (m', laws.an_option (decode_list f) p m m' v there read, left)

  -- A bundle that Dart leaves behind four pointers is read as it is, with no optional part for a null pointer,
  -- and exactly its memory has been taken over.
  decode_public_key_bundle-Owned :
      (m : Memory) (w : WirePublicKeyBundle) (b : PublicKeyBundleDto)
      (blocks rest : List (ℕ × Bytes))
      → OptionArg w.one_time_prekey b.one_time_prekey blocks
      → laws.Owned m (
          (w.identity_public_key, b.identity_public_key)
          ∷ (w.signed_prekey, b.signed_prekey)
          ∷ (w.signature, b.signature)
          ∷ (blocks ++ rest))
      → (m' : Memory) × (decode_public_key_bundle f w m ≡ (ok b, m')) × laws.Owned m' rest
  unfolding decode_public_key_bundle
  decode_public_key_bundle-Owned m w b blocks rest arg h =
      let (m₁, e₁, h₁) = decode_list-Owned m w.identity_public_key b.identity_public_key _ h in
      let (m₂, e₂, h₂) = decode_list-Owned m₁ w.signed_prekey b.signed_prekey _ h₁ in
      let (m₃, e₃, h₃) = decode_list-Owned m₂ w.signature b.signature _ h₂ in
      let (m₄, e₄, h₄) = decode_option-Owned m₃ rest arg h₃ in (m₄, rw (e₁, e₂, e₃, e₄), h₄)

  -- A list that Dart has asked for and left as it was is read as zeros, of the length that was asked for, and
  -- then nothing of it is left.
  decode_list-new_list :
      (m : Memory) (n : ℕ) (rest : List (ℕ × Bytes))
      → laws.Owned m rest
      → (p : ℕ) × (m₁ m₂ : Memory) × (new_list f (pos n) m ≡ (ok p, m₁))
        × (decode_list f p m₁ ≡ (ok (replicate n 0), m₂))
        × laws.Owned m₂ rest
  unfolding new_list
  decode_list-new_list m n rest h =
      let (a, p, m₁, m₂, made, boxed, owned) = laws.makes m n rest h in
      let (m₃, read, left) = decode_list-Owned m₂ p (replicate n 0) rest owned in
      (p, m₂, m₃, rw (made, boxed), read, left)
