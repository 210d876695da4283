-- ===== src/Vspa/Dma.antt =====
-- The VSPA DMA engine, channel 0, as kernel_driver/la9310shiva/la9310_main_vspa.c drives it: one
-- transfer, the write of a firmware section, and the zeroing of the memories. `x & (2 ^ k - 1)`
-- of the source is `x % 2 ^ k` here.
pub mod Frame
pub mod Write
pub mod Zeroise
use Prim.Native.Nat.{bit_and, min}
use la9310_driver.Base.{
  ℕ, zero, suc, ◌+◌, ◌-◌, ◌*◌, ◌/◌, ◌%◌, ◌^◌, Bool, true, false, not, ◌&&◌, ◌||◌, List, [], ◌∷◌,
  ltb, ◌==◌, if◌then◌else◌, replicate, ℤ, pos, negsuc, neg, is_neg, is_zero,
}
use la9310_driver.Vspa.Bus.{
  Bus, Dev, M, ◌>>=◌, ◌>>◌, return, get_dev, reg_read, reg_write, mmio_fenced, readl_poll_timeout,
  stage_bytes, alloc, dma_dmem_addr_reg, dma_axi_addr_reg, dma_byte_cnt_reg, dma_xfr_ctrl_reg,
  dma_stat_abort_reg, dma_comp_stat_reg, dma_xfrerr_stat_reg, dma_cfgerr_stat_reg,
}
use la9310_driver.Vspa.Registry.{ebusy, enomem}

abbrev pub etimedout : ℤ
etimedout = neg 110

abbrev pub ecomm : ℤ
ecomm = neg 70

abbrev pub eaddrnotavail : ℤ
eaddrnotavail = neg 99

-- MAX_DMA_TRANSFER
abbrev pub max_dma_transfer : ℕ
max_dma_transfer = 65536

-- PRAM_MEM_SIZE
abbrev pub pram_mem_size : ℕ
pram_mem_size = 0x8000

-- The fields of struct vspa_dma_req that a transfer uses.
pub record DmaReq : Type 0 where
  pub dmem_addr : ℕ
  pub axi_addr : ℕ
  pub byte_cnt : ℕ
  pub xfr_ctrl : ℕ

-- struct dma_param; `phys` is the offset of the section in the image.
pub record DmaParam : Type 0 where
  pub xfr_ctrl : ℕ
  pub offset : ℕ
  pub phys : ℕ
  pub size : ℕ

-- `n` bytes of the staged image from an offset.
unfoldable pub bytes_at : (ℕ → ℕ) → ℕ → ℕ → List ℕ
bytes_at mem at zero = []
bytes_at mem at (suc n) = mem at ∷ bytes_at mem (at + 1) n

-- `align(x, a)` on 32 bits.
abbrev pub align : ℕ → ℕ → ℕ
align x a =
    let mask = (a + 2 ^ 32 - 1) % 2 ^ 32 in bit_and ((x + mask) % 2 ^ 32) (2 ^ 32 - 1 - mask)

-- The size of the memory that a round of `vspa_mem_initialization` zeroes.
unfoldable pub section_bytes : Dev → ℕ → ℕ
section_bytes dev count =
    if count == 0 then dev.dmem_bytes else if count == 2 then pram_mem_size else dev.ippu_bytes

module _ {b : Bus} where
  unfoldable pub dma_raw_transmit : DmaReq → M b ℤ
  dma_raw_transmit dr = do
    fenced ← mmio_fenced
    if fenced then return ebusy else do
      reg_write dma_dmem_addr_reg dr.dmem_addr
      reg_write dma_axi_addr_reg (dr.axi_addr % 2 ^ 32)
      reg_write dma_byte_cnt_reg dr.byte_cnt
      reg_read dma_comp_stat_reg
      reg_write dma_xfr_ctrl_reg dr.xfr_ctrl
      done ← readl_poll_timeout dma_comp_stat_reg 1
      if not done then return etimedout else do
        reg_read dma_comp_stat_reg
        reg_read dma_stat_abort_reg
        reg_write dma_comp_stat_reg 1
        reg_read dma_xfrerr_stat_reg
        reg_read dma_cfgerr_stat_reg
        return (pos 0)

  -- A round of `vspa_fw_dma_write`, from the copy to the staging region on.
  unfoldable pub dma_chunk : (ℕ → ℕ) → DmaParam → ℕ → M b ℤ
  dma_chunk mem p n = do
    dev ← get_dev
    if not dev.dma_region then return enomem else do
      stage_bytes (bytes_at mem p.phys (n % 0x10000))
      rc ← dma_raw_transmit (record {
        dmem_addr = p.offset % 0x40000;
        axi_addr = dev.dma_phys;
        byte_cnt = n % 0x10000;
        xfr_ctrl = p.xfr_ctrl;
      })
      return (if is_neg rc then ecomm else pos 0)

  -- The loop of `vspa_fw_dma_write` with at most `fuel` rounds; `err` is its local variable.
  unfoldable pub fw_dma_loop : (ℕ → ℕ) → Bool → ℤ → ℕ → DmaParam → M b ℤ
  fw_dma_loop mem overlay err zero p = return (pos 0)
  fw_dma_loop mem overlay err (suc fuel) p = do
    let n = min p.size max_dma_transfer
    let q = record p {
      phys = p.phys + n;
      size = p.size - n;
      offset = if overlay then p.offset else (p.offset + n) % 2 ^ 32;
    }
    rc ← dma_chunk mem p n
    if is_neg rc
        then return rc
        else if not (q.size == 0) && is_zero err
        then fw_dma_loop mem overlay err fuel q
        else return (pos 0)

  -- vspa_fw_dma_write; `err` is -LIBVSPA_ERR_EAGAIN from its declaration on.
  unfoldable pub fw_dma_write : (ℕ → ℕ) → DmaParam → M b ℤ
  fw_dma_write mem p = fw_dma_loop mem false (neg 11) (suc p.size) p

  -- One transfer of zeros.
  unfoldable pub zero_section : Dev → ℕ → M b ℤ
  zero_section dev count = do
    let n = align (section_bytes dev count) (dev.axi_data_width / 8)
    stage_bytes (replicate n 0)
    dma_raw_transmit
        (record { dmem_addr = 0; axi_addr = dev.dma_phys; byte_cnt = n; xfr_ctrl = count * 256 })

  -- The loop of `vspa_mem_initialization`: `rounds` is 7 - count.
  unfoldable pub mem_loop : Dev → ℕ → ℕ → ℕ → M b ℤ
  mem_loop dev zero count mem_size = return (pos 0)
  mem_loop dev (suc rounds) count mem_size =
      if mem_size == 0
      then return (pos 0)
      else if count == 0 || count == 2 || count == 3
      then (do
        rc ← zero_section dev count
        if is_neg rc
            then return ecomm
            else mem_loop dev rounds (count + 1)
                ((mem_size + 2 ^ 32 - section_bytes dev count) % 2 ^ 32))
      else mem_loop dev rounds (count + 1) mem_size

  unfoldable pub mem_initialization : M b ℤ
  mem_initialization = do
    got ← alloc
    dev ← get_dev
    if not got
        then return enomem
        else if not dev.dma_region
        then return eaddrnotavail
        else mem_loop dev 7 0 ((dev.dmem_bytes + dev.ippu_bytes + pram_mem_size) % 2 ^ 32)
