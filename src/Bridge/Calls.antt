-- ===== src/Bridge/Calls.antt =====
-- A call of api.rs through frb_generated.rs, from the memory that Dart leaves to the task of the handler.
use merabriar.Prelude.{ℕ, ◌≡◌, refl, true, Option, List, ◌∷◌, ◌++◌}
use merabriar.Rust.Text.{Bytes, Text}
use merabriar.Rust.Int.{ℤ}
use merabriar.Rust.Utf8.{is_utf8}
use merabriar.Platform.{Platform}
use merabriar.Storage.{Sqlite}
use merabriar.Bridge.Cst.{Ffi}
use merabriar.Bridge.Cst.Ownership.{
  FfiLaws, OptionArg, decode_list-Owned, decode_text-Owned, decode_option-Owned,
}
use merabriar.Bridge.Dart.{Dart}
use merabriar.Bridge.Wire.{
  WireCall, wire_decrypt_message, wire_encrypt_message, wire_init_session, wire_has_session,
  wire_init_core,
}
use merabriar.Bridge.Io
use merabriar.Bridge.Web

-- The native call, on memory `m` that owns its arguments and others, hands over what the call of the web hands
-- over, and has taken over its own arguments.
abbrev pub SameCall :
    {Memory Connection Message : Type 0} {f : Ffi Memory}
    → FfiLaws f
    → Memory
    → List (ℕ × Bytes)
    → WireCall Memory Connection Message
    → WireCall Memory Connection Message
    → Type 0
SameCall {Memory} laws m rest io web =
    (io.info ≡ web.info)
    × (m' : Memory) × (io.prepare m ≡ ((web.prepare m).0, m'))
    × laws.Owned m' rest

module _ {Memory Connection Cipher KeyPair Obj Message : Type 0} {f : Ffi Memory} (laws : FfiLaws f)
    (d : Dart Obj Message) (p : Platform Cipher KeyPair) where
  -- Of the functions with one or two arguments the native one hands the handler the same task as that of the
  -- web does with the values that the pointers own, if the texts are UTF-8; and exactly the arguments are taken
  -- over.
  pub native_agrees :
      (q : Sqlite Connection) (m n k : Memory) (port : ℤ) (i j : ℕ) (s t : Text) (v nonce : Bytes)
      (rest : List (ℕ × Bytes))
      → is_utf8 s ≡ true
      → is_utf8 t ≡ true
      → laws.Owned m ((i, s) ∷ (j, v) ∷ rest)
      → laws.Owned n ((i, s) ∷ (j, t) ∷ rest)
      → laws.Owned k ((i, s) ∷ rest)
      → SameCall {Connection = Connection} laws m rest
          (Io.decrypt_message f d p port i j)
          (Web.decrypt_message d p port s v)
        × SameCall {Connection = Connection} laws n rest
            (Io.encrypt_message f d p nonce port i j)
            (Web.encrypt_message d p nonce port s t)
        × SameCall laws n rest (Io.init_core f d q port i j) (Web.init_core d q port s t)
        × SameCall {Connection = Connection} laws k rest
            (Io.has_session f d port i)
            (Web.has_session d port s)
  unfolding Io.decrypt_message Web.decrypt_message Io.encrypt_message Web.encrypt_message
      Io.init_core Web.init_core Io.has_session Web.has_session wire_decrypt_message
      wire_encrypt_message wire_init_core wire_has_session Web.decoded
  native_agrees q m n k port i j s t v nonce rest us ut hm hn hk =
      let (m₁, e₁, h₁) = decode_text-Owned laws m i s _ us hm in
      let (m₂, e₂, h₂) = decode_list-Owned laws m₁ j v _ h₁ in
      let (n₁, g₁, l₁) = decode_text-Owned laws n i s _ us hn in
      let (n₂, g₂, l₂) = decode_text-Owned laws n₁ j t _ ut l₁ in
      let (k₁, o₁, r₁) = decode_text-Owned laws k i s _ us hk in
      (
        (refl, m₂, rw (e₁, e₂), h₂),
        (refl, n₂, rw (g₁, g₂), l₂),
        (refl, n₂, rw (g₁, g₂), l₂),
        (refl, k₁, rw (o₁), r₁),
      )

  -- The same of `init_session`, whose one-time prekey is optional: a null pointer, or one that owns it.
  native_agrees_init_session :
      (m : Memory) (port : ℤ) (i j k l o : ℕ) (s : Text) (identity prekey signature : Bytes)
      (one_time : Option Bytes) (blocks rest : List (ℕ × Bytes))
      → is_utf8 s ≡ true
      → OptionArg laws o one_time blocks
      → laws.Owned m ((i, s) ∷ (j, identity) ∷ (k, prekey) ∷ (l, signature) ∷ (blocks ++ rest))
      → SameCall {Connection = Connection} laws m rest
          (Io.init_session f d p port i j k l o)
          (Web.init_session d p port s identity prekey signature one_time)
  unfolding Io.init_session Web.init_session wire_init_session Web.decoded
  native_agrees_init_session m port i j k l o s identity prekey signature one_time blocks rest us
        arg h =
      let (m₁, e₁, h₁) = decode_text-Owned laws m i s _ us h in
      let (m₂, e₂, h₂) = decode_list-Owned laws m₁ j identity _ h₁ in
      let (m₃, e₃, h₃) = decode_list-Owned laws m₂ k prekey _ h₂ in
      let (m₄, e₄, h₄) = decode_list-Owned laws m₃ l signature _ h₃ in
      let (m₅, e₅, h₅) = decode_option-Owned laws m₄ rest arg h₄ in
      (refl, m₅, rw (e₁, e₂, e₃, e₄, e₅, Web.decoded_option_lem one_time), h₅)
