-- ===== src/Vspa/Dma/Frame.antt =====
-- The DMA transfers leave the driver's own fields alone
-- (kernel_driver/la9310shiva/la9310_main_vspa.c).
use la9310_driver.Base.{ℕ, zero, suc, Bool, not, ◌&&◌, ℤ, is_neg, is_zero, false}
use la9310_driver.Vspa.Bus.{Bus}
use la9310_driver.Vspa.Bus.Rules.{
  Keeps, Keeps-bind, Keeps-then, Keeps-if, Keeps-return, reg_read-Keeps, reg_write-Keeps,
  mmio_fenced-Keeps, readl_poll_timeout-Keeps, stage_bytes-Keeps, get_dev-Keeps,
}
use la9310_driver.Vspa.Dma.{
  DmaReq, DmaParam, dma_raw_transmit, dma_chunk, fw_dma_loop, fw_dma_write,
}

module _ {b : Bus} where
  pub dma_raw_transmit-Keeps : (dr : DmaReq) → Keeps (dma_raw_transmit {b = b} dr)
  unfolding dma_raw_transmit
  dma_raw_transmit-Keeps dr = Keeps-bind _ _ mmio_fenced-Keeps λ fenced.
      Keeps-if fenced _ _ (Keeps-return _) (
        Keeps-then _ _ (reg_write-Keeps _ _) (
          Keeps-then _ _ (reg_write-Keeps _ _) (
            Keeps-then _ _ (reg_write-Keeps _ _) (
              Keeps-then _ _ (reg_read-Keeps _) (
                Keeps-then _ _ (reg_write-Keeps _ _) (
                  Keeps-bind _ _ (readl_poll_timeout-Keeps _ _) λ done.
                    Keeps-if (not done) _ _ (Keeps-return _) (
                      Keeps-then _ _ (reg_read-Keeps _) (
                        Keeps-then _ _ (reg_read-Keeps _) (
                          Keeps-then _ _ (reg_write-Keeps _ _) (
                            Keeps-then _ _ (reg_read-Keeps _)
                              (Keeps-then _ _ (reg_read-Keeps _) (Keeps-return _))))))))))))

  dma_chunk-Keeps : (mem : ℕ → ℕ) (p : DmaParam) (n : ℕ) → Keeps (dma_chunk {b = b} mem p n)
  unfolding dma_chunk
  dma_chunk-Keeps mem p n = Keeps-bind _ _ get_dev-Keeps λ dev.
      Keeps-if (not dev.dma_region) _ _ (Keeps-return _) (
        Keeps-then _ _ (stage_bytes-Keeps _)
          (Keeps-bind _ _ (dma_raw_transmit-Keeps _) λ rc. Keeps-return _))

  fw_dma_loop-Keeps :
      (mem : ℕ → ℕ) (overlay : Bool) (err : ℤ) (fuel : ℕ) (p : DmaParam)
      → Keeps (fw_dma_loop {b = b} mem overlay err fuel p)
  unfolding fw_dma_loop
  fw_dma_loop-Keeps mem overlay err zero p = Keeps-return _
  fw_dma_loop-Keeps mem overlay err (suc fuel) p = Keeps-bind _ _ (dma_chunk-Keeps mem p _) λ rc.
      Keeps-if (is_neg rc) _ _ (Keeps-return _) (
        Keeps-if (_ && is_zero err) _ _ (fw_dma_loop-Keeps mem overlay err fuel _) (Keeps-return _))

  pub fw_dma_write-Keeps : (mem : ℕ → ℕ) (p : DmaParam) → Keeps (fw_dma_write {b = b} mem p)
  unfolding fw_dma_write
  fw_dma_write-Keeps mem p = fw_dma_loop-Keeps mem false _ _ p
