-- ===== src/Vspa/Dma/Zeroise.antt =====
-- The zeroing of the VSPA memories, `vspa_mem_initialization`
-- (kernel_driver/la9310shiva/la9310_main_vspa.c).

use la9310_driver.Base.{
  ℕ, zero, suc, ◌+◌, ◌-◌, ◌%◌, ◌^◌, ◌<◌, ◌≡◌, refl, ap, inl, inr, ◌∙◌, Bool, true, false, not,
  Bool-cases, ◌||◌, ◌==◌, if◌then◌else◌, ℤ, pos, is_neg, arith,
}
use la9310_driver.Vspa.Bus.{Bus, Dev, Sys, M, ◌>>=◌, return, get_dev, alloc}
use la9310_driver.Vspa.Bus.Rules.{alloc-Keeps}
use la9310_driver.Vspa.Registry.{enomem}
use la9310_driver.Vspa.Dma.{
  pram_mem_size, ecomm, section_bytes, zero_section, mem_loop, mem_initialization, eaddrnotavail,
}

module _ {b : Bus} where
  -- The specification of the zeroing loop: the data memory, the program memory, and the IPPU's
  -- memory if there is one, each by one transfer, up to the first that fails.
  pub zero_then : Dev → ℕ → M b ℤ → M b ℤ
  zero_then dev count next = do
    rc ← zero_section dev count
    if is_neg rc then return ecomm else next

  pub zero_all : Dev → M b ℤ
  zero_all dev = zero_then dev 0 (
      zero_then dev 2
        (if dev.ippu_bytes == 0 then return (pos 0) else zero_then dev 3 (return (pos 0))))

  -- A round that zeroes a memory, and the round that finds none to zero.
  mem_loop_round :
      (dev : Dev) (rounds count m left : ℕ)
      → (count == 0 || count == 2 || count == 3) ≡ true
      → (m == 0) ≡ false
      → (m + 2 ^ 32 - section_bytes dev count) % 2 ^ 32 ≡ left
      → mem_loop {b = b} dev (suc rounds) count m
        ≡ zero_then dev count (mem_loop dev rounds (count + 1) left)
  unfolding mem_loop zero_then
  mem_loop_round dev rounds count m left here some_left e = rw (some_left, here, e)

  mem_loop_skip :
      (dev : Dev) (rounds m : ℕ)
      → (m == 0) ≡ false
      → mem_loop {b = b} dev (suc rounds) 1 m ≡ mem_loop dev rounds 2 m
  unfolding mem_loop
  mem_loop_skip dev rounds m some_left = rw some_left

  mem_loop_done :
      (dev : Dev) (rounds count : ℕ) → mem_loop {b = b} dev rounds count 0 ≡ return (pos 0)
  unfolding mem_loop
  mem_loop_done dev zero count = refl
  mem_loop_done dev (suc rounds) count = refl

  mem_loop_ippu :
      (dev : Dev)
      → dev.ippu_bytes < 2 ^ 32
      → mem_loop {b = b} dev 4 3 dev.ippu_bytes
        ≡ (if dev.ippu_bytes == 0 then return (pos 0) else zero_then dev 3 (return (pos 0)))
  unfolding section_bytes
  mem_loop_ippu dev h = elim (Bool-cases (dev.ippu_bytes == 0)) [
    | inl z ↦
        let none_left : dev.ippu_bytes ≡ 0 = ground arith in
        rw z (ap (mem_loop {b = b} dev 4 3) none_left ∙ mem_loop_done dev 4 3)
    | inr z ↦ rw z (
        mem_loop_round dev 3 3 dev.ippu_bytes 0 refl z (omega arith)
        ∙ ap (zero_then dev 3) (mem_loop_done dev 3 4))
  ]

  mem_loop-zero_all :
      (dev : Dev) (m : ℕ)
      → m ≡ dev.dmem_bytes + dev.ippu_bytes + pram_mem_size
      → m < 2 ^ 32
      → mem_loop {b = b} dev 7 0 m ≡ zero_all dev
  unfolding zero_all section_bytes
  mem_loop-zero_all dev m e h =
      let after = dev.ippu_bytes + pram_mem_size in
      mem_loop_round dev 6 0 m after refl (ground arith) (omega arith)
      ∙ ap (zero_then dev 0) (
          mem_loop_skip dev 5 after (ground arith)
          ∙ mem_loop_round dev 4 2 after dev.ippu_bytes refl (ground arith) (omega arith)
          ∙ ap (zero_then dev 2) (mem_loop_ippu dev (omega arith)))

  branches :
      (c d : Bool) (x y : ℤ) (z : M b ℤ) (s : Sys b)
      → (if c then return x else if d then return y else z) s
        ≡ (if c then (x, s) else if d then (y, s) else z s)
  unfolding return
  branches true d x y z s = refl
  branches false true x y z s = refl
  branches false false x y z s = refl

  -- If the sizes add up within 32 bits, the loop is the zeroing of the three memories, each by one
  -- transfer, up to the first that fails: it leaves none out, repeats none, and stops.
  pub mem_initialization_lem :
      (s : Sys b)
      → s.dev.dmem_bytes + s.dev.ippu_bytes + pram_mem_size < 2 ^ 32
      → mem_initialization s ≡ (
          let (got, s') = alloc s in
          if not got
          then (enomem, s')
          else if not s.dev.dma_region
          then (eaddrnotavail, s')
          else zero_all s.dev s')
  unfolding mem_initialization ◌>>=◌ get_dev
  mem_initialization_lem s h = rw ((alloc-Keeps {b = b}).keeps s).dev_kept (
      rw
        (mem_loop-zero_all s.dev ((s.dev.dmem_bytes + s.dev.ippu_bytes + pram_mem_size) % 2 ^ 32)
          (omega arith) (omega arith))
        (branches (not (alloc s).0) (not s.dev.dma_region) enomem eaddrnotavail (zero_all s.dev)
          (alloc s).1))
