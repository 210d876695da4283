-- ===== src/Vspa/Dma/Write.antt =====
-- The write of a firmware section, `vspa_fw_dma_write`
-- (kernel_driver/la9310shiva/la9310_main_vspa.c).
use Prim.Native.Nat.{min}
use la9310_driver.Base.{
  ℕ, ◌%◌, ◌≡◌, refl, ap, inl, inr, ◌⊎◌, ◌∙◌, Bool, true, false, not, ◌&&◌, Bool-cases, ltb,
  if◌then◌else◌, ℤ, pos, is_neg, arith,
}
use la9310_driver.Vspa.Bus.{Bus, Sys, M, ◌>>=◌, ◌>>◌, return, get_dev, stage_bytes}
use la9310_driver.Vspa.Dma.{
  DmaParam, max_dma_transfer, bytes_at, ecomm, dma_raw_transmit, dma_chunk, fw_dma_loop,
  fw_dma_write,
}
use la9310_driver.Vspa.Registry.{enomem}

-- The code is an error or 0.
abbrev IsCode : ℤ → Type 0
IsCode rc = (is_neg rc ≡ true) ⊎ (rc ≡ pos 0)

IsCode-of : (x : Bool) → IsCode (if x then ecomm else pos 0)
IsCode-of true = inl refl
IsCode-of false = inr refl

chunk_size : (n : ℕ) → min n max_dma_transfer % 0x10000 ≡ (if ltb n 0x10000 then n else 0)
chunk_size n = ground arith

module _ {b : Bus} where
  dma_chunk-IsCode :
      (mem : ℕ → ℕ) (p : DmaParam) (n : ℕ) (s : Sys b) → IsCode (dma_chunk mem p n s).0
  unfolding dma_chunk ◌>>=◌ ◌>>◌ return get_dev
  dma_chunk-IsCode mem p n s = elim (Bool-cases s.dev.dma_region) [
    | inl e ↦ rw e (IsCode-of _)
    | inr e ↦ rw e (inl refl)
  ]

  -- What the end of a round gives, whatever the size that is left.
  round_end :
      (rc : ℤ) (c : Bool) (next : M b ℤ) (s : Sys b)
      → IsCode rc
      → (if is_neg rc then return rc else if c && false then next else return (pos 0)) s ≡ (rc, s)
  unfolding return
  round_end rc true next s h = ground arith
  round_end rc false next s h = ground arith

  -- The loop stops after its first round: the section is written by the one transfer of its first
  -- 64 KiB at most.
  fw_dma_write-dma_chunk :
      (mem : ℕ → ℕ) (p : DmaParam) (s : Sys b)
      → fw_dma_write mem p s ≡ dma_chunk mem p (min p.size max_dma_transfer) s
  unfolding fw_dma_write fw_dma_loop ◌>>=◌
  fw_dma_write-dma_chunk mem p s =
      round_end (dma_chunk mem p (min p.size max_dma_transfer) s).0 _ _ _
        (dma_chunk-IsCode mem p (min p.size max_dma_transfer) s)

  -- The specification of a section's write: one transfer of `cnt` bytes from the image to the
  -- section's load address.
  pub transfer : (ℕ → ℕ) → DmaParam → ℕ → M b ℤ
  transfer mem p cnt = do
    dev ← get_dev
    if not dev.dma_region then return enomem else do
      stage_bytes (bytes_at mem p.phys cnt)
      rc ← dma_raw_transmit (record {
        dmem_addr = p.offset % 0x40000;
        axi_addr = dev.dma_phys;
        byte_cnt = cnt;
        xfr_ctrl = p.xfr_ctrl;
      })
      return (if is_neg rc then ecomm else pos 0)

  dma_chunk-transfer :
      (mem : ℕ → ℕ) (p : DmaParam) (n : ℕ) (s : Sys b)
      → dma_chunk mem p n s ≡ transfer mem p (n % 0x10000) s
  unfolding dma_chunk transfer
  dma_chunk-transfer mem p n s = refl

  -- A section is written by a single transfer. A section below 64 KiB goes over whole. Of a larger
  -- one the transfer has byte count 0, whatever its size, and no further transfer follows, yet the
  -- code is the same as for a complete write.
  pub fw_dma_write_lem :
      (mem : ℕ → ℕ) (p : DmaParam) (s : Sys b)
      → fw_dma_write mem p s ≡ transfer mem p (if ltb p.size 0x10000 then p.size else 0) s
  fw_dma_write_lem mem p s =
      fw_dma_write-dma_chunk mem p s
      ∙ dma_chunk-transfer mem p (min p.size max_dma_transfer) s
      ∙ ap (λ n. transfer mem p n s) (chunk_size p.size)
