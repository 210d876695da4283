-- ===== src/Vspa/Bus.antt =====
-- The VSPA device as the driver sees it (kernel_driver/la9310shiva/la9310_vspa.h and
-- la9310_main_vspa.c). The hardware is a parameter: any type of states, with what a register
-- read, a register write, a delay, a copy to the staging region and the kernel's polling macro
-- do to it. The driver's own state stands beside it.
pub mod Rules
use Prim.Native.Nat.{bit_and, bit_or}
use la9310_driver.Base.{ℕ, ◌+◌, ◌^◌, Bool, true, false, not, Option, List, ◌==◌, if◌then◌else◌, ℤ}
use la9310_driver.Vspa.Registry.{Registry}

-- The hardware, and the kernel calls that touch it.
pub record Bus : Type 1 where
  pub Hw : Type 0
  -- `rfnm_la9310_mmio_fenced()`: the PCIe link is down.
  pub fenced : Hw → Bool
  -- `ioread32` and `iowrite32` at a register of the VSPA, by its word offset.
  pub ioread : ℕ → Hw → ℕ × Hw
  pub iowrite : ℕ → ℕ → Hw → Hw
  -- `readl_poll_timeout` on a register: did a bit of the mask come up in time?
  pub poll : ℕ → ℕ → Hw → Bool × Hw
  -- `usleep_range`, by its upper bound.
  pub sleep : ℕ → Hw → Hw
  -- `memcpy` of bytes to the DMA region.
  pub stage : List ℕ → Hw → Hw
  -- `readl` and `writel` of the word `host_ready` of the host interface.
  pub read_host_ready : Hw → ℕ × Hw
  pub write_host_ready : ℕ → Hw → Hw
  -- LA9310_HIF_STATUS_VSPA_READY, of the header that the driver shares with the firmware
  pub vspa_ready : ℕ
  -- the bytes of the overlay window, from the staging address on
  pub window : Hw → ℕ → ℕ
  -- the outcome of `kzalloc`
  pub kzalloc : Hw → Bool × Hw

-- enum vspa_state
pub data DevState : Type 0 where
  unknown power_down startup_err unprogrammed_idle unprogrammed_busy loading running_idle : DevState
  running_busy : DevState

-- An entry of `overlay_sec`: its name and its struct dma_param, where `phys` is the offset of the
-- section in the image.
pub record Overlay : Type 0 where
  pub name : Option (List ℕ)
  pub xfr_ctrl : ℕ
  pub offset : ℕ
  pub phys : ℕ
  pub size : ℕ

-- The fields of struct vspa_device that the operations here read or write.
pub record Dev : Type 0 where
  pub state : DevState
  pub loading_count : ℕ
  pub vspa_sw_version : ℕ
  pub ippu_sw_version : ℕ
  pub spm_buf_bytes : ℕ
  pub spm_buf_paddr : ℕ
  pub spm_dma_chan : ℕ
  pub bulk_dma_chan : ℕ
  pub reply_dma_chan : ℕ
  pub cmd_dma_chan : ℕ
  pub legacy_cmd_dma_chan : ℕ
  pub eld_filename : List ℕ
  pub stats_ready : Bool
  pub axi_data_width : ℕ
  pub dmem_bytes : ℕ
  pub ippu_bytes : ℕ
  -- Is the region there that `la9310_get_dma_region` gives for the firmware, for the overlays?
  pub dma_region : Bool
  pub overlay_region : Bool
  -- its bus address
  pub dma_phys : ℕ
  pub overlay_sec : List Overlay
  pub overlay_sec_loaded : Option (List ℕ)

-- The hardware and the driver's state.
pub record Sys (b : Bus) : Type 0 where
  pub hw : b.Hw
  pub dev : Dev
  pub reg : Registry

-- A piece of the driver: it returns a value and the new state.
abbrev pub M : Bus → Type 0 → Type 0
M b A = Sys b → A × Sys b

infixl 5 ◌>>=◌ ◌>>◌
unfoldable pub ◌>>=◌ : {b : Bus} {A B : Type 0} → M b A → (A → M b B) → M b B
◌>>=◌ m f s = let (a, s') = m s in f a s'

unfoldable pub ◌>>◌ : {b : Bus} {A B : Type 0} → M b A → M b B → M b B
◌>>◌ m k s = let (a, s') = m s in k s'

unfoldable pub return : {b : Bus} {A : Type 0} → A → M b A
return a s = (a, s)

-- A change of the driver's own fields.
unfoldable pub modify : {b : Bus} → (Dev → Dev) → M b (Unit {0})
modify f s = (tt, record s { dev = f s.dev })

-- A change of the registry's variables.
unfoldable pub modify_reg : {b : Bus} → (Registry → Registry) → M b (Unit {0})
modify_reg f s = (tt, record s { reg = f s.reg })

unfoldable pub get_dev : {b : Bus} → M b Dev
get_dev s = (s.dev, s)

-- Register offsets, in words.
abbrev pub swversion_reg : ℕ
swversion_reg = 0x1

abbrev pub control_reg : ℕ
control_reg = 0x2

abbrev pub irqen_reg : ℕ
irqen_reg = 0x3

abbrev pub status_reg : ℕ
status_reg = 0x4

abbrev pub host_flags0_reg : ℕ
host_flags0_reg = 0x5

abbrev pub host_flags1_reg : ℕ
host_flags1_reg = 0x6

abbrev pub dma_dmem_addr_reg : ℕ
dma_dmem_addr_reg = 0x2c

abbrev pub dma_axi_addr_reg : ℕ
dma_axi_addr_reg = 0x2d

abbrev pub dma_byte_cnt_reg : ℕ
dma_byte_cnt_reg = 0x2e

abbrev pub dma_xfr_ctrl_reg : ℕ
dma_xfr_ctrl_reg = 0x2f

abbrev pub dma_stat_abort_reg : ℕ
dma_stat_abort_reg = 0x30

abbrev pub dma_comp_stat_reg : ℕ
dma_comp_stat_reg = 0x32

abbrev pub dma_xfrerr_stat_reg : ℕ
dma_xfrerr_stat_reg = 0x33

abbrev pub dma_cfgerr_stat_reg : ℕ
dma_cfgerr_stat_reg = 0x34

abbrev pub host_out_64_msb_reg : ℕ
host_out_64_msb_reg = 0x1a0

abbrev pub host_out_64_lsb_reg : ℕ
host_out_64_lsb_reg = 0x1a1

abbrev pub host_in_64_msb_reg : ℕ
host_in_64_msb_reg = 0x1a4

abbrev pub host_in_64_lsb_reg : ℕ
host_in_64_lsb_reg = 0x1a5

abbrev pub host_mbox_status_reg : ℕ
host_mbox_status_reg = 0x1a8

abbrev pub ippu_swversion_reg : ℕ
ippu_swversion_reg = 0x1c5

-- `x & mask` is not zero.
abbrev pub has_bits : ℕ → ℕ → Bool
has_bits x mask = not (bit_and x mask == 0)

module _ {b : Bus} where
  -- vspa_reg_read: 0 while the link is down.
  unfoldable pub reg_read : ℕ → M b ℕ
  reg_read at s =
      let (v, hw) = b.ioread at s.hw in if b.fenced s.hw then (0, s) else (v, record s { hw = hw })

  -- vspa_reg_write: dropped while the link is down.
  unfoldable pub reg_write : ℕ → ℕ → M b (Unit {0})
  reg_write at v s = (tt, if b.fenced s.hw then s else record s { hw = b.iowrite at v s.hw })

  unfoldable pub usleep : ℕ → M b (Unit {0})
  usleep us s = (tt, record s { hw = b.sleep us s.hw })

  unfoldable pub mmio_fenced : M b Bool
  mmio_fenced s = (b.fenced s.hw, s)

  unfoldable pub readl_poll_timeout : ℕ → ℕ → M b Bool
  readl_poll_timeout at mask s = let (up, hw) = b.poll at mask s.hw in (up, record s { hw = hw })

  unfoldable pub stage_bytes : List ℕ → M b (Unit {0})
  stage_bytes d s = (tt, record s { hw = b.stage d s.hw })

  -- la9310_set_host_ready
  unfoldable pub set_host_ready : ℕ → M b (Unit {0})
  set_host_ready bit s =
      let (v, hw) = b.read_host_ready s.hw in
      (tt, record s { hw = b.write_host_ready (bit_or v bit) hw })

  unfoldable pub alloc : M b Bool
  alloc s = let (got, hw) = b.kzalloc s.hw in (got, record s { hw = hw })
