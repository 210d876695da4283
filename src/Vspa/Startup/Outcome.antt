-- ===== src/Vspa/Startup/Outcome.antt =====
-- The outcomes of `startup` (kernel_driver/la9310shiva/la9310_main_vspa.c).
use la9310_driver.Base.{
  ℕ, zero, suc, ◌<◌, ◌≡◌, refl, ◌∙◌, ◌⊎◌, inl, inr, true, false, not, ◌==◌, Bool-cases, ℤ, pos,
  arith,
}
use la9310_driver.Vspa.Bus.{
  Bus, Dev, Sys, reg_read, has_bits, running_idle, startup_err, host_in_64_msb_reg, irqen_reg,
}
use la9310_driver.Vspa.Bus.Rules.{
  After, After-if, After-return, After-keep, After-keep_then, After-modify, After-get_dev,
  SameFields-refl, Keeps, Keeps-bind, Keeps-then, Keeps-if, Keeps-return, reg_read-Keeps,
  reg_write-Keeps, usleep-Keeps,
}
use la9310_driver.Vspa.Registry.{Registry}
use la9310_driver.Vspa.Startup.{
  all_ones, boot_complete, spm_ack, eio, mbox_status_in_64, wait_msg, startup_fail, set_channels,
  spm_handshake, startup,
}

-- At some point a read of the mailbox gave the message.
abbrev pub Received : Bus → ℕ → Type 0
Received b msg = (s : Sys b) × ((reg_read host_in_64_msb_reg s).0 ≡ msg)

-- The state that a failed start leaves.
pub record IsFailed (d : Dev) : Type 0 where
  pub state_err : d.state ≡ startup_err
  pub no_vspa_version : d.vspa_sw_version ≡ all_ones
  pub no_ippu_version : d.ippu_sw_version ≡ all_ones

-- The state that a successful start leaves: the DMA channels are bytes.
pub record IsRunning (d : Dev) : Type 0 where
  pub state_running : d.state ≡ running_idle
  pub spm_byte : d.spm_dma_chan < 256
  pub bulk_byte : d.bulk_dma_chan < 256
  pub reply_byte : d.reply_dma_chan < 256

channels-IsRunning :
    (channels : ℕ) (d : Dev) (v w : ℕ)
    → IsRunning (record (set_channels channels d) {
      vspa_sw_version = v;
      ippu_sw_version = w;
      state = running_idle;
    })
unfolding set_channels
channels-IsRunning channels d v w = elim (Bool-cases (channels == 0)) [
  | inl e ↦ rw e (record {
    state_running = refl;
    spm_byte = omega arith;
    bulk_byte = omega arith;
    reply_byte = omega arith;
  })
  | inr e ↦ rw e (record {
    state_running = refl;
    spm_byte = omega arith;
    bulk_byte = omega arith;
    reply_byte = omega arith;
  })
]

not_eq : (x y : ℕ) → not (x == y) ≡ false → x ≡ y
not_eq x y h = ground arith

module _ {b : Bus} where
  -- What a start does: the registry stays, and the device runs and some state has the boot message
  -- in its mailbox, and some state the acknowledgement; or the code is -EIO and the device is marked
  -- as failed.
  abbrev pub Outcome : Registry → ℤ → Sys b → Type 0
  Outcome r rc s =
      (s.reg ≡ r)
      × (((rc ≡ pos 0) × IsRunning s.dev × Received b boot_complete × Received b spm_ack)
          ⊎ ((rc ≡ eio) × IsFailed s.dev))

  wait_msg-Keeps : (msg ctr : ℕ) → Keeps (wait_msg {b = b} msg ctr)
  unfolding wait_msg
  wait_msg-Keeps msg zero = Keeps-return false
  wait_msg-Keeps msg (suc ctr) = Keeps-bind _ _ (reg_read-Keeps _) λ status.
      Keeps-if (has_bits status mbox_status_in_64) _ _ (Keeps-return true) (
        Keeps-bind _ _ (reg_read-Keeps _) λ msb.
          Keeps-if (msb == msg) _ _ (Keeps-return true)
            (Keeps-then _ _ (usleep-Keeps _) (wait_msg-Keeps msg ctr)))

  startup_fail-Outcome : (r : Registry) (s : Sys b) → s.reg ≡ r → After (Outcome r) startup_fail s
  unfolding startup_fail
  startup_fail-Outcome r s h = After-modify (Outcome r) _ _ s (
      After-keep_then _ (Outcome r) _ _ _ (reg_write-Keeps irqen_reg 0) (SameFields-refl _) λ s' k.
        After-return (Outcome r) _ s' (
          k.reg_kept ∙ h,
          inr (
            refl,
            rw k.dev_kept
                (record { state_err = refl; no_vspa_version = refl; no_ippu_version = refl }),
          ),
        ))

  spm_handshake-Outcome :
      (r : Registry) (channels : ℕ) (s : Sys b)
      → s.reg ≡ r
      → Received b boot_complete
      → After (Outcome r) (spm_handshake channels) s
  unfolding spm_handshake
  spm_handshake-Outcome r channels s e booted =
      let P = Outcome r in
      After-get_dev P _ s (
        After-keep_then _ P _ s s (reg_read-Keeps _) (SameFields-refl s) λ s₁ h₁.
          After-keep_then _ P _ s s₁ (reg_read-Keeps _) h₁ λ s₂ h₂.
            After-keep_then _ P _ s s₂ (reg_write-Keeps _ _) h₂ λ s₃ h₃.
              After-keep_then _ P _ s s₃ (reg_write-Keeps _ _) h₃ λ s₄ h₄.
                After-keep _ P _ s s₄ (reg_read-Keeps _) h₄ λ v s₅ _ h₅.
                  After-keep _ P _ s s₅ (reg_read-Keeps _) h₅ λ w s₆ _ h₆.
                    After-keep _ P _ s s₆ (wait_msg-Keeps _ _) h₆ λ seen s₇ _ h₇.
                      After-if P (not seen) _ _ s₇
                        (λ _. startup_fail-Outcome r s₇ (h₇.reg_kept ∙ e))
                        λ _. After-keep _ P _ s s₇ (reg_read-Keeps _) h₇ λ msb s₈ got h₈.
                          After-keep_then _ P _ s s₈ (reg_read-Keeps _) h₈ λ s₉ h₉.
                            After-if P (not (msb == spm_ack)) _ _ s₉
                              (λ _. startup_fail-Outcome r s₉ (h₉.reg_kept ∙ e))
                              λ same. After-keep_then _ P _ s s₉ (reg_read-Keeps _) h₉ λ s' h.
                                After-modify P _ _ s' (
                                  After-modify P _ _ _ (
                                    After-return P _ _ (
                                      h.reg_kept ∙ e,
                                      inl (
                                        refl,
                                        channels-IsRunning channels s'.dev v w,
                                        booted,
                                        (s₇, got ∙ not_eq _ _ same),
                                      ),
                                    ))))

  -- A start leaves the registry as it is and ends in one of two ways. With code 0 the device is
  -- marked as running, and the boot message and the acknowledgement are what a read of the mailbox
  -- gives in some states of the hardware. Otherwise the code is -EIO and the device is marked as
  -- failed, with no version.
  pub startup_lem : (s : Sys b) → Outcome s.reg (startup s).0 (startup s).1
  unfolding startup
  startup_lem s = After.holds (go s)
    where
      go : (s : Sys b) → After (Outcome s.reg) startup s
      go s =
          let P = Outcome s.reg in
          After-keep _ P _ s s (reg_read-Keeps _) (SameFields-refl s) λ val s₁ _ h₁.
            After-keep_then _ P _ s s₁ (reg_write-Keeps _ _) h₁ λ s₂ h₂. After-modify P _ _ s₂ (
              After-keep_then _ P _ _ _ (reg_read-Keeps _) (SameFields-refl _) λ s₃ h₃.
                After-keep_then _ P _ _ s₃ (reg_read-Keeps _) h₃ λ s₄ h₄.
                  After-keep _ P _ _ s₄ (wait_msg-Keeps _ _) h₄ λ seen s₅ _ h₅.
                    After-if P (not seen) _ _ s₅
                      (λ _. startup_fail-Outcome s.reg s₅ (h₅.reg_kept ∙ h₂.reg_kept))
                      λ _. After-keep _ P _ _ s₅ (reg_read-Keeps _) h₅ λ msb s₆ got h₆.
                        After-keep _ P _ _ s₆ (reg_read-Keeps _) h₆ λ lsb s₇ _ h₇.
                          After-if P (not (msb == boot_complete)) _ _ s₇
                            (λ _. startup_fail-Outcome s.reg s₇ (h₇.reg_kept ∙ h₂.reg_kept))
                            λ same.
                              spm_handshake-Outcome s.reg lsb s₇ (h₇.reg_kept ∙ h₂.reg_kept)
                                (s₅, got ∙ not_eq _ _ same))
