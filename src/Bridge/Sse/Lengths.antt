-- ===== src/Bridge/Sse/Lengths.antt =====
-- What becomes of lengths in `SseEncode` and `SseDecode` of `Vec<u8>`: the length goes through an `i32`.
use merabriar.Prelude.{
  ℕ, zero, suc, ◌%◌, ◌^◌, ◌≤◌, ◌≡◌, refl, ◌∙◌, [], ◌∷◌, ◌++◌, length, take, drop, ltb,
  if◌then◌else◌, arith,
}
use merabriar.Rust.Text.{Bytes}
use merabriar.Rust.Result.{ok}
use merabriar.Rust.Int.{rounds, as_i32, from_bits}
use merabriar.Bridge.Sse.{Endian, encode_vec, decode_u8, decode_items, decode_vec}
use merabriar.Bridge.Sse.RoundTrip.{decode_vec_any}

decode_items-take :
    (n : ℕ) (v rest : Bytes)
    → n ≤ length v
    → decode_items n (v ++ rest) ≡ ok (take n v, drop n v ++ rest)
unfolding decode_items decode_u8
decode_items-take zero v rest h = refl
decode_items-take (suc n) [] rest h = absurd (omega arith)
decode_items-take (suc n) (x ∷ v) rest h = rw (decode_items-take n v rest (omega arith))

-- The length that the reader sees.
abbrev pub seen : ℕ → ℕ
seen n = if ltb (n % 2 ^ 32) (2 ^ 31) then n % 2 ^ 32 else 0

rounds-as_i32 : (n : ℕ) → rounds (as_i32 n) ≡ seen n
unfolding as_i32 from_bits
rounds-as_i32 n = ground arith

seen-le : (n : ℕ) → seen n ≤ n
seen-le n = ground arith

-- Whatever was written as a `Vec<u8>` is read without a panic. From 2^31 bytes on the value is cut: of a
-- length that is at least 2^31 modulo 2^32 nothing is read, of another as many bytes as the length modulo 2^32,
-- and the rest is left in the buffer as if it were what follows.
pub decode_vec-encode_vec-seen :
    (endian : Endian) (v rest : Bytes)
    → decode_vec endian (encode_vec endian v ++ rest)
      ≡ ok (take (seen (length v)) v, drop (seen (length v)) v ++ rest)
decode_vec-encode_vec-seen endian v rest =
    decode_vec_any endian v rest
    ∙ rw (rounds-as_i32 (length v))
        (decode_items-take (seen (length v)) v rest (seen-le (length v)))
