-- ===== src/Bridge/Sse/RoundTrip.antt =====
-- What `SseDecode` reads of what `SseEncode` has written, whatever bytes follow.
use merabriar.Prelude.{
  ℕ, ◌/◌, ◌%◌, ◌^◌, ◌<◌, ◌≡◌, refl, ap, true, Option, none, some, [], ◌∷◌, ◌++◌, append_assoc,
  length, arith,
}
use merabriar.Rust.Text.{Bytes, Text}
use merabriar.Rust.Result.{ok}
use merabriar.Rust.Int.{
  ℤ, to_bits, from_bits, as_i32, rounds, to_bits-lt, as_i32_small, from_bits-as_i32,
}
use merabriar.Rust.Utf8.{is_utf8}
use merabriar.Api.{KeyBundleDto, PublicKeyBundleDto}
use merabriar.Bridge.Sse.{
  Endian, little, big, split_word, join_word, encode_i32, encode_items, encode_vec, encode_bool,
  encode_option, encode_string, encode_key_bundle_dto, encode_public_key_bundle_dto, decode_i32,
  decode_u8, decode_items, decode_vec, decode_bool, decode_option, decode_string,
  decode_key_bundle_dto, decode_public_key_bundle_dto,
}

decode_i32-split :
    (endian : Endian) (w : ℕ) (rest : Bytes)
    → w < 2 ^ 32
    → decode_i32 endian (split_word endian w ++ rest) ≡ ok (from_bits w, rest)
unfolding decode_i32
decode_i32-split little w rest h =
    let e : join_word little (w % 256) (w / 2 ^ 8 % 256) (w / 2 ^ 16 % 256) (w / 2 ^ 24) ≡ w =
      omega arith in
    rw e
decode_i32-split big w rest h =
    let e : join_word big (w / 2 ^ 24) (w / 2 ^ 16 % 256) (w / 2 ^ 8 % 256) (w % 256) ≡ w =
      omega arith in
    rw e

module _ (endian : Endian) where
  decode_i32-encode_i32 :
      (n : ℤ) (rest : Bytes)
      → decode_i32 endian (encode_i32 endian n ++ rest) ≡ ok (from_bits (to_bits n), rest)
  unfolding encode_i32
  decode_i32-encode_i32 n rest = decode_i32-split endian (to_bits n) rest (to_bits-lt n)

  encode_items_lem : (v : Bytes) → encode_items endian v ≡ v
  unfolding encode_items
  encode_items_lem [] = refl
  encode_items_lem (x ∷ v) = ap (◌∷◌ x) (encode_items_lem v)

decode_items-append : (v rest : Bytes) → decode_items (length v) (v ++ rest) ≡ ok (v, rest)
unfolding decode_items decode_u8
decode_items-append [] rest = refl
decode_items-append (x ∷ v) rest = rw (decode_items-append v rest)

module _ (endian : Endian) where
  pub decode_vec_any :
      (v rest : Bytes)
      → decode_vec endian (encode_vec endian v ++ rest)
        ≡ decode_items (rounds (as_i32 (length v))) (v ++ rest)
  unfolding decode_vec encode_vec
  decode_vec_any v rest = rw (
    append_assoc (encode_i32 endian (as_i32 (length v))) (encode_items endian v) rest,
    encode_items_lem endian v,
    decode_i32-encode_i32 endian (as_i32 (length v)) (v ++ rest),
    from_bits-as_i32 (length v),
  )

  decode_vec-encode_vec :
      (v rest : Bytes)
      → length v < 2 ^ 31
      → decode_vec endian (encode_vec endian v ++ rest) ≡ ok (v, rest)
  decode_vec-encode_vec v rest h =
      rw (decode_vec_any v rest, as_i32_small (length v) h) (decode_items-append v rest)

  decode_option-encode_option :
      (o : Option Bytes) (rest : Bytes)
      → ((v : Bytes) → o ≡ some v → length v < 2 ^ 31)
      → decode_option endian (encode_option endian o ++ rest) ≡ ok (o, rest)
  unfolding decode_option encode_option decode_bool decode_u8 encode_bool
  decode_option-encode_option none rest h = refl
  decode_option-encode_option (some v) rest h = rw (decode_vec-encode_vec v rest (h v refl))

  decode_string-encode_string :
      (explain : Bytes → Text) (s : Text) (rest : Bytes)
      → length s < 2 ^ 31
      → is_utf8 s ≡ true
      → decode_string endian explain (encode_string endian s ++ rest) ≡ ok (s, rest)
  unfolding decode_string encode_string
  decode_string-encode_string explain s rest h utf8 = rw (decode_vec-encode_vec s rest h, utf8)

-- What the length of an `i32` can say.
abbrev pub IsShort : Bytes → Type 0
IsShort v = length v < 2 ^ 31

abbrev pub IsShortOption : Option Bytes → Type 0
IsShortOption none = Unit
IsShortOption (some v) = IsShort v

short_option : (o : Option Bytes) → IsShortOption o → (v : Bytes) → o ≡ some v → length v < 2 ^ 31
short_option none h v e = cc
short_option (some w) h v e = ground arith

module _ (endian : Endian) where
  decode_key_bundle_lem :
      (k : KeyBundleDto) (rest : Bytes)
      → IsShort k.identity_public_key
      → IsShort k.signed_prekey
      → IsShort k.signature
      → decode_key_bundle_dto endian (encode_key_bundle_dto endian k ++ rest) ≡ ok (k, rest)
  unfolding decode_key_bundle_dto encode_key_bundle_dto
  decode_key_bundle_lem k rest h₁ h₂ h₃ =
      let a = encode_vec endian k.identity_public_key in
      let b = encode_vec endian k.signed_prekey in
      let c = encode_vec endian k.signature in
      rw (
        append_assoc a (b ++ c) rest,
        append_assoc b c rest,
        decode_vec-encode_vec endian k.identity_public_key (b ++ (c ++ rest)) h₁,
        decode_vec-encode_vec endian k.signed_prekey (c ++ rest) h₂,
        decode_vec-encode_vec endian k.signature rest h₃,
      )

  decode_public_key_bundle_lem :
      (k : PublicKeyBundleDto) (rest : Bytes)
      → IsShort k.identity_public_key
      → IsShort k.signed_prekey
      → IsShort k.signature
      → IsShortOption k.one_time_prekey
      → decode_public_key_bundle_dto endian (encode_public_key_bundle_dto endian k ++ rest)
        ≡ ok (k, rest)
  unfolding decode_public_key_bundle_dto encode_public_key_bundle_dto
  decode_public_key_bundle_lem k rest h₁ h₂ h₃ h₄ =
      let a = encode_vec endian k.identity_public_key in
      let b = encode_vec endian k.signed_prekey in
      let c = encode_vec endian k.signature in
      let d = encode_option endian k.one_time_prekey in
      rw (
        append_assoc a (b ++ (c ++ d)) rest,
        append_assoc b (c ++ d) rest,
        append_assoc c d rest,
        decode_vec-encode_vec endian k.identity_public_key (b ++ (c ++ (d ++ rest))) h₁,
        decode_vec-encode_vec endian k.signed_prekey (c ++ (d ++ rest)) h₂,
        decode_vec-encode_vec endian k.signature (d ++ rest) h₃,
        decode_option-encode_option endian k.one_time_prekey rest
            (short_option k.one_time_prekey h₄),
      )

  -- In either byte order, and whatever bytes follow, each of the three values that api.rs returns (a text,
  -- the keys of a sign-up, a published bundle) is read back from what was written, and what follows is left:
  -- provided that a text is UTF-8 and that every byte sequence is shorter than 2^31.
  pub sse_decode-sse_encode :
      (explain : Bytes → Text) (s : Text) (k : KeyBundleDto) (b : PublicKeyBundleDto) (rest : Bytes)
      → is_utf8 s ≡ true
      → IsShort s
      → IsShort k.identity_public_key × IsShort k.signed_prekey × IsShort k.signature
      → IsShort b.identity_public_key
        × IsShort b.signed_prekey
        × IsShort b.signature
        × IsShortOption b.one_time_prekey
      → (decode_string endian explain (encode_string endian s ++ rest) ≡ ok (s, rest))
        × (decode_key_bundle_dto endian (encode_key_bundle_dto endian k ++ rest) ≡ ok (k, rest))
        × (decode_public_key_bundle_dto endian (encode_public_key_bundle_dto endian b ++ rest)
            ≡ ok (b, rest))
  sse_decode-sse_encode explain s k b rest utf8 hs (k₁, k₂, k₃) (b₁, b₂, b₃, b₄) = (
    decode_string-encode_string endian explain s rest hs utf8,
    decode_key_bundle_lem k rest k₁ k₂ k₃,
    decode_public_key_bundle_lem b rest b₁ b₂ b₃ b₄,
  )
