-- ===== src/Auth/Integers.antt =====
-- The `i64` of crates/postgresem/src/mcp_http_auth.rs: integers, with the saturating operations.
use postgresem.Prelude.{ℕ, suc, ◌+◌, ◌-◌, ◌≤◌, ◌<◌, Bool, leb, ltb, if◌then◌else◌}
use postgresem.Lsq.{ℤ, pos, negsuc}

-- `i64::MAX`
abbrev pub max_i64 : ℕ
max_i64 = 9_223_372_036_854_775_807

abbrev pub pos_part : ℤ → ℕ
pos_part (pos n) = n
pos_part (negsuc n) = 0

abbrev pub neg_part : ℤ → ℕ
neg_part (pos n) = 0
neg_part (negsuc n) = suc n

infix 50 ◌<ℤ◌ ◌≤ℤ◌
abbrev pub ◌≤ℤ◌ : ℤ → ℤ → Type 0
a ≤ℤ b = pos_part a + neg_part b ≤ pos_part b + neg_part a

abbrev pub ◌<ℤ◌ : ℤ → ℤ → Type 0
a <ℤ b = pos_part a + neg_part b < pos_part b + neg_part a

abbrev pub ltb_ℤ : ℤ → ℤ → Bool
ltb_ℤ a b = ltb (pos_part a + neg_part b) (pos_part b + neg_part a)

infixl 65 ◌+ℤ◌
-- the exact sum
abbrev pub ◌+ℤ◌ : ℤ → ℤ → ℤ
a +ℤ b =
    let p = pos_part a + pos_part b in
    let n = neg_part a + neg_part b in if leb n p then pos (p - n) else negsuc (n - p - 1)

-- `p - n` within `i64`
abbrev pub saturate : ℕ → ℕ → ℤ
saturate p n =
    if leb n p
    then if leb (p - n) max_i64 then pos (p - n) else pos max_i64
    else if leb (n - p - 1) max_i64
    then negsuc (n - p - 1)
    else negsuc max_i64

-- `i64::saturating_add`
unfoldable pub saturating_add : ℤ → ℤ → ℤ
saturating_add a b = saturate (pos_part a + pos_part b) (neg_part a + neg_part b)

-- `i64::saturating_sub`
unfoldable pub saturating_sub : ℤ → ℤ → ℤ
saturating_sub a b = saturate (pos_part a + neg_part b) (neg_part a + pos_part b)
