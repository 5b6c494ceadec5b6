-- ===== src/Tests/Toy.antt =====
-- A platform that meets the contracts of Platform, so that the theorems under them are not empty. Its
-- "cryptography" is arithmetic on the sums of the bytes.
use merabriar.Prelude.{
  ℕ, zero, suc, ◌+◌, ◌*◌, ◌-◌, ◌%◌, ◌≤◌, ◌≡◌, ◌≢◌, refl, ap, Bool, Option, none, some, [], ◌∷◌,
  ◌++◌, length, length-append, length-replicate, take, drop, take-append, drop-append, replicate,
  leb, ◌==◌, if◌then◌else◌, arith,
}
use merabriar.Rust.Text.{Bytes, text}
use merabriar.Rust.Result.{Result, ok, err}
use merabriar.Platform.{Platform, KdfLaws, AeadLaws, AeadRejects, AgreementLaws}

abbrev pub sum : Bytes → ℕ
sum [] = 0
sum (b ∷ bs) = b + sum bs

abbrev sum_salt : Option Bytes → ℕ
sum_salt none = 0
sum_salt (some bs) = sum bs

abbrev okm : Option Bytes → Bytes → Bytes → ℕ → Bytes
okm salt ikm info n = replicate n ((sum_salt salt + sum ikm + 7 * sum info) % 251)

-- An injective code of a key by a number, for a tag that no other key has.
abbrev pair : ℕ → ℕ → ℕ
pair zero m = 2 * m + 1
pair (suc n) m = 2 * pair n m

abbrev encode : Bytes → ℕ
encode [] = 0
encode (b ∷ bs) = pair b (encode bs)

pair-injective : (a b m n : ℕ) → pair a m ≡ pair b n → (a ≡ b) × (m ≡ n)
pair-injective zero zero m n h = (refl, omega arith)
pair-injective zero (suc b) m n h = absurd (omega arith)
pair-injective (suc a) zero m n h = absurd (omega arith)
pair-injective (suc a) (suc b) m n h =
    let ih = pair-injective a b m n (omega arith) in (ap suc ih.0, ih.1)

pair_pos : (a m : ℕ) → 1 ≤ pair a m
pair_pos zero m = omega arith
pair_pos (suc a) m = omega (arith, pair_pos a m)

encode-injective : (k l : Bytes) → encode k ≡ encode l → k ≡ l
encode-injective [] [] h = refl
encode-injective [] (b ∷ l) h = absurd (omega (arith, pair_pos b (encode l)))
encode-injective (a ∷ k) [] h = absurd (omega (arith, pair_pos a (encode k)))
encode-injective (a ∷ k) (b ∷ l) h =
    let both = pair-injective a b (encode k) (encode l) h in
    cc (both.0, encode-injective k l both.1)

abbrev tag : Bytes → Bytes
tag key = encode key ∷ replicate 15 0

abbrev box : Bytes → Bytes → Bytes → Bytes
box key nonce plaintext = plaintext ++ tag key

check_tag : Bytes → Bytes → Bytes → Result Bytes
check_tag key plaintext [] = err (text "aead::Error")
check_tag key plaintext (t ∷ _) = if t == encode key then ok plaintext else err (text "aead::Error")

unfoldable pub unbox : Bytes → Bytes → Bytes → Result Bytes
unfolding check_tag
unbox key nonce sealed = let n = length sealed - 16 in check_tag key (take n sealed) (drop n sealed)

abbrev pub platform : Bool → Platform Bytes Bytes
platform checks = record {
  overflow_checks = checks;
  expand = λ salt ikm info n.
      if leb n 8160 then ok (okm salt ikm info n) else err (text "InvalidLength");
  new_from_slice = λ key. if length key == 32 then ok key else err (text "InvalidLength");
  encrypt = λ key nonce plaintext. ok (box key nonce plaintext);
  decrypt = unbox;
  x25519_public = λ a. replicate 32 (sum a);
  diffie_hellman = λ a b. replicate 32 ((32 * sum a + sum b) % 251);
  from_pkcs8 = λ b. ok b;
  sign = λ key message. replicate 64 (sum key + sum message);
  public_key = λ key. replicate 32 (sum key);
  utf8_error = λ _. text "Utf8Error";
}

pub expands_lem :
    (checks : Bool) (salt : Option Bytes) (ikm info : Bytes) (n : ℕ)
    → n ≤ 8160
    → (platform checks).expand salt ikm info n ≡ ok (okm salt ikm info n)
expands_lem checks salt ikm info n h = ground arith

abbrev pub kdf_laws : (checks : Bool) → KdfLaws (platform checks)
kdf_laws checks = record {
  okm = okm;
  expands = expands_lem checks;
  length_okm = λ salt ikm info n. length-replicate n _;
}

unbox-box :
    (key other nonce plaintext : Bytes)
    → unbox other nonce (box key nonce plaintext)
      ≡ (if encode key == encode other then ok plaintext else err (text "aead::Error"))
unfolding unbox
unbox-box key other nonce plaintext =
    let n : length (box key nonce plaintext) - 16 ≡ length plaintext =
      omega (arith, length-append plaintext (tag key)) in
    rw (
      n,
      take-append (length plaintext) plaintext (tag key) refl,
      drop-append (length plaintext) plaintext (tag key) refl,
    )

pub makes_lem :
    (checks : Bool) (key : Bytes) → length key ≡ 32 → (platform checks).new_from_slice key ≡ ok key
makes_lem checks key h = ground arith

pub length-box :
    (key nonce plaintext : Bytes) → length (box key nonce plaintext) ≡ length plaintext + 16
length-box key nonce plaintext = length-append plaintext (tag key)

pub unseals_lem :
    (key nonce plaintext : Bytes) → unbox key nonce (box key nonce plaintext) ≡ ok plaintext
unseals_lem key nonce plaintext = ground (arith, unbox-box key key nonce plaintext)

pub rejects_lem :
    (key other nonce plaintext : Bytes)
    → key ≢ other
    → unbox other nonce (box key nonce plaintext) ≡ err (text "aead::Error")
rejects_lem key other nonce plaintext ne =
    let differ : encode key ≢ encode other = λ e. ne (encode-injective key other e) in
    ground (arith, unbox-box key other nonce plaintext)

abbrev pub aead_laws : (checks : Bool) → AeadLaws (platform checks)
aead_laws checks = record {
  cipher = λ key. key;
  box = box;
  makes = makes_lem checks;
  seals = λ key nonce plaintext _ _ _. refl;
  length_box = length-box;
  unseals = λ key nonce plaintext _ _. unseals_lem key nonce plaintext;
}

abbrev pub aead_rejects : (checks : Bool) → AeadRejects (platform checks) (aead_laws checks)
aead_rejects checks = record { rejection = text "aead::Error"; rejects = rejects_lem }

pub agrees_lem :
    (a b : Bytes)
    → (32 * sum a + sum (replicate 32 (sum b))) ≡ (32 * sum b + sum (replicate 32 (sum a)))
agrees_lem a b = omega arith

abbrev pub agreement_laws : (checks : Bool) → AgreementLaws (platform checks)
agreement_laws checks = record {
  agrees = λ a b. ap (λ n. replicate 32 (n % 251)) (agrees_lem a b);
  length_public = λ a. length-replicate 32 (sum a);
}
