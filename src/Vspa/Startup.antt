-- ===== src/Vspa/Startup.antt =====
-- `startup` of kernel_driver/la9310shiva/la9310_main_vspa.c: the GO strobe and the two mailbox
-- messages that follow it.
pub mod Outcome
use Prim.Native.Nat.{bit_and, bit_or}
use la9310_driver.Base.{
  ℕ, zero, suc, ◌+◌, ◌-◌, ◌*◌, ◌/◌, ◌%◌, ◌^◌, Bool, true, false, not, ◌==◌, if◌then◌else◌, ℤ, pos,
  neg,
}
use la9310_driver.Vspa.Bus.{
  Bus, Dev, M, ◌>>=◌, ◌>>◌, return, modify, get_dev, reg_read, reg_write, usleep, has_bits,
  startup_err, running_idle, control_reg, swversion_reg, ippu_swversion_reg, host_mbox_status_reg,
  host_in_64_msb_reg, host_in_64_lsb_reg, host_out_64_msb_reg, host_out_64_lsb_reg, irqen_reg,
}

-- VSPA_STARTUP_TIMEOUT
abbrev pub startup_timeout : ℕ
startup_timeout = 100000

-- `~0` in a uint32_t
abbrev pub all_ones : ℕ
all_ones = 2 ^ 32 - 1

-- CONTROL_REG_MASK
abbrev pub control_reg_mask : ℕ
control_reg_mask = 0xfffeff00

-- MBOX_STATUS_IN_64_BIT
abbrev pub mbox_status_in_64 : ℕ
mbox_status_in_64 = 4

-- The two messages of the VSPA.
abbrev pub boot_complete : ℕ
boot_complete = 0xf1000000

abbrev pub spm_ack : ℕ
spm_ack = 0xf0700000

abbrev pub eio : ℤ
eio = neg 5

-- VSPA_DMA_CHANNELS
abbrev pub vspa_dma_channels : ℕ
vspa_dma_channels = 32

-- The DMA channels that the boot message names, or the legacy ones.
unfoldable pub set_channels : ℕ → Dev → Dev
set_channels channels d =
    if channels == 0
    then record d {
      spm_dma_chan = vspa_dma_channels;
      bulk_dma_chan = 0xff;
      reply_dma_chan = 0xff;
      cmd_dma_chan = d.legacy_cmd_dma_chan;
    }
    else record d {
      spm_dma_chan = channels / 2 ^ 24 % 256;
      bulk_dma_chan = channels / 2 ^ 16 % 256;
      reply_dma_chan = channels / 2 ^ 8 % 256;
      cmd_dma_chan = channels % 256;
    }

module _ {b : Bus} where
  -- The wait for a message: `false` when `ctr` rounds are over.
  unfoldable pub wait_msg : ℕ → ℕ → M b Bool
  wait_msg msg zero = return false
  wait_msg msg (suc ctr) = do
    status ← reg_read host_mbox_status_reg
    if has_bits status mbox_status_in_64 then return true else do
      msb ← reg_read host_in_64_msb_reg
      if msb == msg then return true else do usleep 20; wait_msg msg ctr

  unfoldable pub startup_fail : M b ℤ
  startup_fail = do
    modify (λ d. record d {
      vspa_sw_version = all_ones;
      ippu_sw_version = all_ones;
      state = startup_err;
    })
    reg_write irqen_reg 0
    return eio

  -- From the SPM message on.
  unfoldable pub spm_handshake : ℕ → M b ℤ
  spm_handshake channels = do
    dev ← get_dev
    reg_read swversion_reg
    reg_read ippu_swversion_reg
    reg_write host_out_64_msb_reg (bit_or 0x70000000 dev.spm_buf_bytes)
    reg_write host_out_64_lsb_reg (dev.spm_buf_paddr % 2 ^ 32)
    vspa_version ← reg_read swversion_reg
    ippu_version ← reg_read ippu_swversion_reg
    seen ← wait_msg spm_ack startup_timeout
    if not seen then startup_fail else do
      msb ← reg_read host_in_64_msb_reg
      reg_read host_in_64_lsb_reg
      if not (msb == spm_ack) then startup_fail else do
        reg_read control_reg
        modify (set_channels channels)
        modify (λ d. record d {
          vspa_sw_version = vspa_version;
          ippu_sw_version = ippu_version;
          state = running_idle;
        })
        return (pos 0)

  unfoldable pub startup : M b ℤ
  startup = do
    val ← reg_read control_reg
    reg_write control_reg (bit_or (bit_and val control_reg_mask) 1)
    modify (λ d. record d { loading_count = (d.loading_count + 1) % 2 ^ 32 })
    reg_read swversion_reg
    reg_read ippu_swversion_reg
    seen ← wait_msg boot_complete startup_timeout
    if not seen then startup_fail else do
      msb ← reg_read host_in_64_msb_reg
      lsb ← reg_read host_in_64_lsb_reg
      if not (msb == boot_complete) then startup_fail else spm_handshake lsb
