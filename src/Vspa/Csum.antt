-- ===== src/Vspa/Csum.antt =====
-- `rfnm_vspa_wordsum` of kernel_driver/la9310shiva/la9310_vspa_registry.c, over the bytes that it
-- is given. A byte is a number below 256, and the sum is a `u32`.
pub mod Detect
use la9310_driver.Base.{ℕ, ◌+◌, ◌*◌, ◌%◌, ◌^◌, List, [], ◌∷◌}

-- The little-endian word of four bytes.
abbrev pub word : ℕ → ℕ → ℕ → ℕ → ℕ
word a b c e = a + 0x100 * b + 0x10000 * c + 0x1000000 * e

unfoldable pub wordsum_from : ℕ → List ℕ → ℕ
wordsum_from csum (a ∷ b ∷ c ∷ e ∷ d) = wordsum_from ((csum + word a b c e) % 2 ^ 32) d
wordsum_from csum (a ∷ d) = wordsum_from ((csum + a) % 2 ^ 32) d
wordsum_from csum [] = csum

unfoldable pub wordsum : List ℕ → ℕ
wordsum d = wordsum_from 0 d
