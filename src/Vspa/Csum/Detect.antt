-- ===== src/Vspa/Csum/Detect.antt =====
-- What the checksum detects (kernel_driver/la9310shiva/la9310_vspa_registry.c).
use la9310_driver.Base.{ℕ, ◌+◌, ◌*◌, ◌%◌, ◌^◌, ◌<◌, ◌≡◌, ◌⊎◌, inl, inr, List, [], ◌∷◌, ◌++◌, arith}
use la9310_driver.Vspa.Csum.{word, wordsum_from, wordsum}

-- The sum without the wrap-around.
total : List ℕ → ℕ
total (a ∷ b ∷ c ∷ e ∷ d) = word a b c e + total d
total (a ∷ d) = a + total d
total [] = 0

wordsum_from-total :
    (csum : ℕ) (d : List ℕ) → csum < 2 ^ 32 → wordsum_from csum d ≡ (csum + total d) % 2 ^ 32
unfolding wordsum_from total
wordsum_from-total csum (a ∷ b ∷ c ∷ e ∷ d) h =
    omega (arith, wordsum_from-total ((csum + word a b c e) % 2 ^ 32) d (omega arith))
wordsum_from-total csum (a ∷ d) h =
    omega (arith, wordsum_from-total ((csum + a) % 2 ^ 32) d (omega arith))
wordsum_from-total csum [] h = omega arith

-- `u + p * b ≡ v + p * a` for a place value `p` of a byte in a word.
abbrev Shifted : ℕ → ℕ → ℕ → ℕ → Type 0
Shifted u v a b =
    (u + b ≡ v + a)
    ⊎ (u + 0x100 * b ≡ v + 0x100 * a)
    ⊎ (u + 0x10000 * b ≡ v + 0x10000 * a)
    ⊎ (u + 0x1000000 * b ≡ v + 0x1000000 * a)

total-Shifted :
    (xs : List ℕ) (a b : ℕ) (ys : List ℕ)
    → Shifted (total (xs ++ a ∷ ys)) (total (xs ++ b ∷ ys)) a b
unfolding total
total-Shifted (x ∷ y ∷ z ∷ w ∷ xs) a b ys = ground (arith, total-Shifted xs a b ys)
total-Shifted [] a b (x ∷ y ∷ z ∷ ys) = inl (omega arith)
total-Shifted [] a b (x ∷ y ∷ []) = inl (omega arith)
total-Shifted [] a b (x ∷ []) = inl (omega arith)
total-Shifted [] a b [] = inl (omega arith)
total-Shifted (u ∷ []) a b (x ∷ y ∷ ys) = inr (inl (omega arith))
total-Shifted (u ∷ []) a b (x ∷ []) = inl (omega arith)
total-Shifted (u ∷ []) a b [] = inl (omega arith)
total-Shifted (u ∷ v ∷ []) a b (x ∷ ys) = inr (inr (inl (omega arith)))
total-Shifted (u ∷ v ∷ []) a b [] = inl (omega arith)
total-Shifted (u ∷ v ∷ w ∷ []) a b ys = inr (inr (inr (omega arith)))

-- Two payloads that differ in a single byte have different checksums, whatever the wrap-around.
pub wordsum_one_byte :
    (xs : List ℕ) (a b : ℕ) (ys : List ℕ)
    → a < 0x100
    → b < 0x100
    → wordsum (xs ++ a ∷ ys) ≡ wordsum (xs ++ b ∷ ys)
    → a ≡ b
unfolding wordsum
wordsum_one_byte xs a b ys ha hb e = omega (
  arith,
  wordsum_from-total 0 (xs ++ a ∷ ys) (omega arith),
  wordsum_from-total 0 (xs ++ b ∷ ys) (omega arith),
  total-Shifted xs a b ys,
)
