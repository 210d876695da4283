-- ===== src/IrqMux.antt =====
-- The interrupt multiplexer (kernel_driver/la9310shiva/la9310_irq_mux.c): which virtual interrupts
-- the handler raises, and what a request for the interrupts holds. How many
-- interrupts a word holds is of a header outside the repository: it and the outcomes of the kernel's
-- calls are parameters.
pub mod Raised
pub mod Request
mod Tests
use la9310_driver.Base.{
  ℕ, zero, suc, ◌+◌, ◌-◌, ◌*◌, ◌/◌, ◌%◌, ◌^◌, Bool, true, false, not, ◌&&◌, ◌||◌, List, [], ◌∷◌,
  ◌++◌, ltb, ◌==◌, if◌then◌else◌, ℤ, neg, is_neg, is_zero,
}

-- BIT(i) of a word
abbrev pub has_bit : ℕ → ℕ → Bool
has_bit w i = not (w / 2 ^ i % 2 == 0)

-- The interrupts of one word from bit `i` up, `n` bits, whose status and enable bits are set.
unfoldable pub word_irqs : ℕ → ℕ → ℕ → ℕ → ℕ → List ℕ
word_irqs sts en irq_base zero i = []
word_irqs sts en irq_base (suc n) i =
    let rest = word_irqs sts en irq_base n (i + 1) in
    if has_bit sts i && has_bit en i then (irq_base + i) ∷ rest else rest

-- How many bits of a word are looked at.
abbrev pub sts_bits : ℕ → ℕ → ℕ
sts_bits per_word num_irq = if ltb num_irq per_word then num_irq else per_word

-- The interrupts that la9310_irq_handler raises and clears, in order: `n` words from word `j` up.
unfoldable pub irqs_from : ℕ → ℕ → ℕ → (ℕ → ℕ) → (ℕ → ℕ) → ℕ → ℕ → List ℕ
irqs_from per_word num_irq irq_base sts en zero j = []
irqs_from per_word num_irq irq_base sts en (suc n) j =
    word_irqs (sts j) (en j) (irq_base + j * per_word) (sts_bits per_word num_irq) 0
    ++ irqs_from per_word num_irq irq_base sts en n (j + 1)

unfoldable pub irq_handler : ℕ → Bool → ℕ → ℕ → ℕ → (ℕ → ℕ) → (ℕ → ℕ) → List ℕ
irq_handler per_word fenced num_words num_irq irq_base sts en =
    if fenced then [] else irqs_from per_word num_irq irq_base sts en num_words 0

-- la9310_set_imask on the word of an interrupt.
unfoldable pub set_imask : ℕ → ℕ → ℕ → Bool → (ℕ → ℕ) → ℕ → ℕ
set_imask per_word irq_base irq set_flg en j =
    let irq_bit = irq - irq_base in
    let i = irq_bit % per_word in
    if not (j == irq_bit / per_word)
    then en j
    else if set_flg
    then (if has_bit (en j) i then en j else en j + 2 ^ i)
    else (if has_bit (en j) i then en j - 2 ^ i else en j)

-- `la9310_irq_priv`: NULL, the block, or a block that was freed.
pub data Priv : Type 0 where
  null held freed : Priv

-- What the driver holds: the block, the map of virtual interrupts, their descriptors and the handler.
-- `double_free` tells that a freed block was freed again.
pub record Irqs : Type 0 where
  pub priv : Priv
  pub virq_map : Bool
  pub descs : Bool
  pub handler : Bool
  pub double_free : Bool

abbrev pub none_held : Irqs
none_held = record {
  priv = null;
  virq_map = false;
  descs = false;
  handler = false;
  double_free = false;
}

-- The number of interrupts that the modem announces, and the outcomes of the calls.
pub record Calls : Type 0 where
  pub num_irq : ℕ
  pub alloc_priv : Bool
  pub alloc_map : Bool
  pub alloc_descs : ℤ
  pub add_stats : ℤ
  pub request : ℤ

abbrev pub kfree_priv : Irqs → Irqs
kfree_priv s = record s {
  double_free = elim (s.priv) [ freed ↦ true | _ ↦ s.double_free ];
  priv = elim (s.priv) [ null ↦ null | _ ↦ freed ];
}

-- The label err2.
abbrev pub probe_undo : Irqs → Irqs
probe_undo s = kfree_priv (record s { virq_map = false })

unfoldable pub probe_irq_mux : Calls → Irqs → ℤ × Irqs
probe_irq_mux c s =
    if not c.alloc_priv
    then (neg 12, s)
    else if not c.alloc_map
    then (neg 12, s)
    else (let s₁ = record s { priv = held; virq_map = true } in
        let s₂ = record s₁ { descs = true } in
        if is_neg c.alloc_descs
        then (c.alloc_descs, probe_undo s₁)
        else if is_neg c.add_stats
        then (c.add_stats, probe_undo s₂)
        else (c.add_stats, s₂))

unfoldable pub request_irq : Calls → Irqs → ℤ × Irqs
request_irq c s =
    if c.num_irq == 0
    then (neg 22, s)
    else (let (err, s₁) = probe_irq_mux c s in
        if not (is_zero err)
        then (err, s₁)
        else if is_zero c.request
        then (c.request, record s₁ { handler = true })
        else (c.request, record (kfree_priv (record s₁ { descs = false })) { priv = null }))

unfoldable pub clean_request_irq : Calls → Irqs → Irqs
clean_request_irq c s = elim (s.priv) [
  | null ↦ s
  | _ ↦ kfree_priv (record s {
    descs = if (c.num_irq == 0) || is_zero c.alloc_descs then s.descs else false;
    virq_map = false;
  })
]
