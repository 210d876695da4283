-- ===== src/IrqMux/Raised.antt =====
-- Which interrupts the handler raises (`la9310_irq_handler` of
-- kernel_driver/la9310shiva/la9310_irq_mux.c).
use mathlib.Core.Path.{subst}
use la9310_driver.Base.{
  ℕ, zero, suc, ◌+◌, ◌*◌, ◌≤◌, ◌<◌, ◌≡◌, ◌↔◌, inl, inr, refl, sym, ◌∙◌, Bool, true, false, ◌&&◌,
  ◌||◌, Bool-cases, List, [], ◌∷◌, ◌++◌, ◌==◌, arith,
}
use la9310_driver.IrqMux.{has_bit, word_irqs, sts_bits, irqs_from, irq_handler}

abbrev pub elem : ℕ → List ℕ → Bool
elem x [] = false
elem x (y ∷ l) = (x == y) || elem x l

elem-append : (x : ℕ) (a b : List ℕ) → elem x (a ++ b) ≡ (elem x a || elem x b)
elem-append x [] b = refl
elem-append x (y ∷ a) b = let ih = elem-append x a b in ground arith

-- Bit `i` of a word is set in both registers.
abbrev pub IsOn : ℕ → ℕ → ℕ → Type 0
IsOn sts en i = (has_bit sts i ≡ true) × (has_bit en i ≡ true)

-- An interrupt of one word: the bit `k`, from `i` up.
abbrev pub InWord : ℕ → ℕ → ℕ → ℕ → ℕ → ℕ → Type 0
InWord sts en base n i x = (k : ℕ) × (i ≤ k) × (k < i + n) × IsOn sts en k × (x ≡ base + k)

word-InWord :
    (sts en base n i x : ℕ) → elem x (word_irqs sts en base n i) ≡ true → InWord sts en base n i x
unfolding word_irqs
word-InWord sts en base zero i x h = absurd (cc)
word-InWord sts en base (suc n) i x h = elim (Bool-cases (has_bit sts i && has_bit en i)) [
  | inl on ↦ elim (Bool-cases (x == base + i)) [
    | inl e ↦ (i, omega arith, omega arith, (ground arith, ground arith), ground arith)
    | inr ne ↦ later (word-InWord sts en base n (i + 1) x (ground arith))
  ]
  | inr off ↦ later (word-InWord sts en base n (i + 1) x (ground arith))
]
  where
    later : InWord sts en base n (i + 1) x → InWord sts en base (suc n) i x
    later (k, lo, hi, s, e) = (k, omega arith, omega arith, s, e)

elem-word :
    (sts en base n i k : ℕ)
    → i ≤ k
    → k < i + n
    → IsOn sts en k
    → elem (base + k) (word_irqs sts en base n i) ≡ true
unfolding word_irqs
elem-word sts en base zero i k lo hi s = absurd (omega arith)
elem-word sts en base (suc n) i k lo hi (s, e) = elim (Bool-cases (k == i)) [
  | inl top ↦
      let same : k ≡ i = ground arith in
      let si = subst (λ (x : ℕ). has_bit sts x ≡ true) same s in
      let ei = subst (λ (x : ℕ). has_bit en x ≡ true) same e in ground arith
  | inr ne ↦
      let rest = elem-word sts en base n (i + 1) k (ground arith) (omega arith) (s, e) in
      ground arith
]

module _ (per_word num_irq irq_base : ℕ) (sts en : ℕ → ℕ) where
  -- Bit `k` of word `j`, of `n` words from `first` up, is interrupt `x`.
  abbrev pub InWords : ℕ → ℕ → ℕ → Type 0
  InWords n first x =
      (j : ℕ) × (first ≤ j)
      × (j < first + n)
      × InWord (sts j) (en j) (irq_base + j * per_word) (sts_bits per_word num_irq) 0 x

  irqs-InWords :
      (n first x : ℕ)
      → elem x (irqs_from per_word num_irq irq_base sts en n first) ≡ true
      → InWords n first x
  unfolding irqs_from
  irqs-InWords zero first x h = absurd (cc)
  irqs-InWords (suc n) first x h =
      let word =
        word_irqs (sts first) (en first) (irq_base + first * per_word) (sts_bits per_word num_irq)
          0 in
      let rest = irqs_from per_word num_irq irq_base sts en n (first + 1) in
      let either : (elem x word || elem x rest) ≡ true = sym (elem-append x word rest) ∙ h in
      elim (Bool-cases (elem x word)) [
        | inl e ↦ (first, omega arith, omega arith, word-InWord _ _ _ _ 0 x e)
        | inr e ↦
            let (j, lo, hi, w) = irqs-InWords n (first + 1) x (ground arith) in
            (j, omega arith, omega arith, w)
      ]

  elem-irqs :
      (n first x : ℕ)
      → InWords n first x
      → elem x (irqs_from per_word num_irq irq_base sts en n first) ≡ true
  unfolding irqs_from
  elem-irqs zero first x (j, lo, hi, w) = absurd (omega arith)
  elem-irqs (suc n) first x (j, lo, hi, w) =
      let word =
        word_irqs (sts first) (en first) (irq_base + first * per_word) (sts_bits per_word num_irq)
          0 in
      let rest = irqs_from per_word num_irq irq_base sts en n (first + 1) in
      elem-append x word rest ∙ elim (Bool-cases (j == first)) [
        | inl top ↦
            let same : j ≡ first = ground arith in
            let (k, low, high, set, e) =
              subst
                (λ (i : ℕ).
                  InWord (sts i) (en i) (irq_base + i * per_word) (sts_bits per_word num_irq) 0 x)
                same w in
            let found =
              elem-word (sts first) (en first) (irq_base + first * per_word)
                (sts_bits per_word num_irq) 0 k low high set in
            let hit : elem x word ≡ true = subst (λ (y : ℕ). elem y word ≡ true) (sym e) found in
            ground arith
        | inr ne ↦
            let hit = elem-irqs n (first + 1) x (j, ground arith, omega arith, w) in ground arith
      ]

  -- While the link is up, the handler raises an interrupt exactly if it is that of a bit, among the bits
  -- that are looked at, of one of the words that the modem announces, which is set in the status and
  -- in the enable register.
  pub irq_handler_lem :
      (num_words x : ℕ)
      → (elem x (irq_handler per_word false num_words num_irq irq_base sts en) ≡ true)
        ↔ InWords num_words 0 x
  unfolding irq_handler
  irq_handler_lem num_words x = (irqs-InWords num_words 0 x, elem-irqs num_words 0 x)
