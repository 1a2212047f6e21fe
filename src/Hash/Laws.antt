-- ===== src/Hash/Laws.antt =====
-- The identifiers that `sha256` writes, and `is_sha256`
-- (crates/postgresem-compiler/src/hash.rs, compiler.rs and mutation.rs).
use Prim.Native.String
use postgresem.Prelude.{
  ℕ, suc, ◌+◌, ◌*◌, ◌/◌, ◌%◌, ◌<◌, ◌≡◌, refl, zero, Bool, ◌&&◌, true, List, [], ◌∷◌, arith, length,
  all, All, if◌then◌else◌, ltb,
}
use postgresem.Prelude.Text.{as_bytes, as_bytes-append, hex_text}
use postgresem.Hash.{encode_hex, same_bytes, sha256, is_lower_hex, is_sha256}

-- A byte of a digest.
abbrev pub IsByte : ℕ → Type 0
IsByte b = b < 256

-- the byte of a hexadecimal digit
abbrev hex_byte : ℕ → ℕ
hex_byte d = if ltb d 10 then 48 + d else 87 + d

all_below : ℕ → (ℕ → Bool) → Bool
all_below zero p = true
all_below (suc n) p = p n && all_below n p

all_below_lem : (n : ℕ) (p : ℕ → Bool) (d : ℕ) → all_below n p ≡ true → d < n → p d ≡ true
unfolding all_below
all_below_lem zero p d h lt = absurd (omega arith)
all_below_lem (suc n) p d h lt = ground (arith, all_below_lem n p d)

same_bytes→≡ : (as' bs : List ℕ) → same_bytes as' bs ≡ true → as' ≡ bs
same_bytes→≡ [] [] h = refl
same_bytes→≡ (a ∷ as') (b ∷ bs) h = ground (arith, same_bytes→≡ as' bs)
same_bytes→≡ [] (b ∷ bs) h = cc
same_bytes→≡ (a ∷ as') [] h = cc

hex_table : all_below 16 (λ d. same_bytes (as_bytes (hex_text d)) (hex_byte d ∷ [])) ≡ true
unfolding all_below as_bytes
hex_table = refl

-- every digit has its own text of one byte
as_bytes-hex_text : (d : ℕ) → d < 16 → as_bytes (hex_text d) ≡ hex_byte d ∷ []
as_bytes-hex_text d h = same_bytes→≡ _ _ (all_below_lem 16 _ d hex_table h)

hex_byte-IsLowerHex : (d : ℕ) → d < 16 → is_lower_hex (hex_byte d) ≡ true
hex_byte-IsLowerHex d h = ground arith

encode_hex-IsLowerHex :
    (bytes : List ℕ)
    → All IsByte bytes
    → (all is_lower_hex (as_bytes (encode_hex bytes)) ≡ true)
      × (length (as_bytes (encode_hex bytes)) ≡ 2 * length bytes)
unfolding encode_hex
encode_hex-IsLowerHex [] h = unfold as_bytes in (refl, refl)
encode_hex-IsLowerHex (b ∷ bytes) (p, h) =
    let high : b / 16 < 16 = omega arith in
    let low : b % 16 < 16 = omega arith in
    let (letters, count) = encode_hex-IsLowerHex bytes h in
    rw
      (
        as_bytes-append (hex_text (b / 16)) (String.◌++◌ (hex_text (b % 16)) (encode_hex bytes)),
        as_bytes-append (hex_text (b % 16)) (encode_hex bytes),
        as_bytes-hex_text (b / 16) high,
        as_bytes-hex_text (b % 16) low,
        hex_byte-IsLowerHex (b / 16) high,
        hex_byte-IsLowerHex (b % 16) low,
      )
      (letters, omega arith)

-- Over a digest of 32 bytes, every identifier that is written is recognised.
pub sha256-is_sha256 :
    (digest : List ℕ → List ℕ) (value : List ℕ)
    → length (digest value) ≡ 32
    → All IsByte (digest value)
    → is_sha256 (sha256 digest value) ≡ true
unfolding is_sha256 sha256
sha256-is_sha256 digest value count bytes =
    let (letters, twice) = encode_hex-IsLowerHex (digest value) bytes in
    rw (as_bytes-append "sha256:" (encode_hex (digest value)))
      (unfold as_bytes in ground (arith, letters, twice))
