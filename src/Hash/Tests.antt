-- ===== src/Hash/Tests.antt =====
-- Runs of crates/postgresem-compiler/src/hash.rs.
use postgresem.Prelude.{ℕ, ◌≡◌, refl, true, false, List, [], ◌∷◌, arith}
use postgresem.Prelude.Text.{as_bytes}
use postgresem.Hash.{sha256, is_sha256}
use postgresem.Hash.Laws.{sha256-is_sha256}

-- A digest of 32 bytes.
abbrev pub constant_digest : List ℕ → List ℕ
constant_digest _ =
    0 ∷ 1 ∷ 2 ∷ 3 ∷ 4 ∷ 5 ∷ 6 ∷ 7 ∷ 8 ∷ 9 ∷ 10 ∷ 11 ∷ 12 ∷ 13 ∷ 14 ∷ 255 ∷ 0 ∷ 1 ∷ 2 ∷ 3 ∷ 4 ∷ 5 ∷ 6
    ∷ 7 ∷ 8 ∷ 9 ∷ 10 ∷ 11 ∷ 12 ∷ 13 ∷ 14 ∷ 255 ∷ []

sha256-is_sha256_example : is_sha256 (sha256 constant_digest (as_bytes "abc")) ≡ true
sha256-is_sha256_example = sha256-is_sha256 constant_digest (as_bytes "abc") refl (ground arith)

not_a_hash : is_sha256 "sha256:00" ≡ false
unfolding is_sha256 as_bytes
not_a_hash = refl
