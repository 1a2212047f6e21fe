-- ===== src/Hash.antt =====
-- crates/postgresem-compiler/src/hash.rs: the textual form of a SHA-256 digest, and the test
-- `is_sha256` of compiler.rs and mutation.rs that recognises it.
mod Tests
pub mod Laws
use Prim.Native.String
use postgresem.Prelude.{
  ℕ, ◌+◌, ◌-◌, ◌*◌, ◌/◌, ◌%◌, ◌<◌, String, Bool, ◌&&◌, ◌||◌, List, [], ◌∷◌, leb, ◌==◌, length, all,
  drop, take, if◌then◌else◌, true, false,
}
use postgresem.Prelude.Text.{as_bytes, is_ascii_digit, hex_text}

-- `HEX[usize::from(byte >> 4)]` and `HEX[usize::from(byte & 0x0f)]`, pushed for each byte
unfoldable pub encode_hex : List ℕ → String
encode_hex [] = ""
encode_hex (byte ∷ bytes) =
    String.◌++◌ (hex_text (byte / 16)) (String.◌++◌ (hex_text (byte % 16)) (encode_hex bytes))

-- `sha256`, over the digest function of the `sha2` package.
unfoldable pub sha256 : (List ℕ → List ℕ) → List ℕ → String
unfolding encode_hex
sha256 digest value = String.◌++◌ "sha256:" (encode_hex (digest value))

abbrev is_lower_hex : ℕ → Bool
is_lower_hex byte = is_ascii_digit byte || (leb b'a' byte && leb byte b'f')

abbrev pub same_bytes : List ℕ → List ℕ → Bool
same_bytes [] [] = true
same_bytes (a ∷ as') (b ∷ bs) = a == b && same_bytes as' bs
same_bytes _ _ = false

-- over the bytes of the text
unfoldable pub is_sha256_bytes : List ℕ → Bool
is_sha256_bytes value =
    length value == 71
    && same_bytes (take 7 value) (as_bytes "sha256:")
    && all is_lower_hex (drop 7 value)

unfoldable pub is_sha256 : String → Bool
unfolding is_sha256_bytes
is_sha256 value = is_sha256_bytes (as_bytes value)
