-- ===== src/Vspa/Boot.antt =====
-- The boot of a cached image (kernel_driver/la9310shiva/la9310_vspa_registry.c). Register reads
-- that are made for a log line are made too, in the order in which they are written; the reads of
-- the firmware's memory and the messages are left out. `none` is a copy from a NULL blob.
pub mod Outcome
pub mod Probe
pub mod Done
use la9310_driver.Base.{
  ℕ, zero, suc, ◌+◌, ◌%◌, ◌^◌, Bool, true, false, not, ◌&&◌, ◌||◌, Option, none, some, List, [],
  ◌∷◌, ltb, leb, ◌==◌, if◌then◌else◌, get_or, take, ℤ, pos, negsuc, is_neg, is_zero,
}
use la9310_driver.Vspa.Bus.{
  Bus, Sys, M, ◌>>=◌, ◌>>◌, return, modify, modify_reg, get_dev, reg_read, reg_write, usleep,
  set_host_ready, alloc, has_bits, loading, status_reg, host_flags0_reg, host_flags1_reg,
  dma_comp_stat_reg, dma_xfrerr_stat_reg, dma_cfgerr_stat_reg, control_reg, host_mbox_status_reg,
  host_in_64_msb_reg, host_in_64_lsb_reg,
}
use la9310_driver.Vspa.Registry.{
  Registry, Entry, entry, provides, enoent, ebusy, enodev, weight, cap_streaming_base,
}
use la9310_driver.Vspa.Startup.{startup, mbox_status_in_64}
use la9310_driver.Vspa.Loader.{load_vspa_image}

-- The busy bit of STATUS.
abbrev pub status_busy : ℕ
status_busy = 0x100

-- The rounds of the wait for the core to park.
abbrev pub park_tries : ℕ
park_tries = 250

-- The characters before the NUL.
unfoldable pub until_nul : List ℕ → List ℕ
until_nul [] = []
until_nul (c ∷ s) = let rest = until_nul s in if c == 0 then [] else c ∷ rest

-- The registers that are read for log lines alone.
abbrev pub ext_go_status_reg : ℕ
ext_go_status_reg = 0xb

abbrev pub dma_go_stat_reg : ℕ
dma_go_stat_reg = 0x36

abbrev pub ippu_status_reg : ℕ
ippu_status_reg = 0x1c1

abbrev pub dbg_gdben_reg : ℕ
dbg_gdben_reg = 0x200

abbrev pub dbg_rcstatus_reg : ℕ
dbg_rcstatus_reg = 0x202

abbrev pub dbg_dvr_reg : ℕ
dbg_dvr_reg = 0x21f

-- What the staging window holds after the copy of an image to it.
unfoldable pub staged : List ℕ → (ℕ → ℕ) → ℕ → ℕ
staged d before i = get_or d i (before i)

module _ {b : Bus} where
  -- The wait for the busy bit to fall.
  unfoldable pub park : ℕ → M b (Unit {0})
  park zero = return tt
  park (suc tries) = do
    status ← reg_read status_reg
    if not (has_bits status status_busy) then return tt else do usleep 3000; park tries

  unfoldable pub wait_parked : M b Bool
  wait_parked = do
    park park_tries
    status ← reg_read status_reg
    return (not (has_bits status status_busy))

  -- From the claim of the DMA engine to the LOADING state.
  unfoldable pub claim : M b (Unit {0})
  claim = do
    modify_reg (λ r. record r { loader_busy = true })
    usleep 5000
    reg_write dma_comp_stat_reg 0xffffffff
    reg_write dma_xfrerr_stat_reg 0xffffffff
    reg_write dma_cfgerr_stat_reg 0xffffffff
    modify (λ d. record d { state = loading })

  -- rfnm_vspa_boot_tail
  unfoldable pub boot_tail : M b (Unit {0})
  boot_tail = do
    dev ← get_dev
    if dev.stats_ready
        then return tt
        else do got ← alloc; modify (λ d. record d { stats_ready = got })
    reg_write host_flags0_reg 0xffffffff
    reg_write host_flags1_reg 0xffffffff
    reg_write status_reg 0xf000
    set_host_ready b.vspa_ready

  -- The reads of a log line.
  unfoldable pub read_all : List ℕ → M b (Unit {0})
  read_all [] = return tt
  read_all (at ∷ ats) = do reg_read at; read_all ats

  -- rfnm_vspa_swap_forensics: a message that came late is taken from the mailbox.
  unfoldable pub swap_forensics : M b (Unit {0})
  swap_forensics = do
    read_all (
        control_reg ∷ status_reg ∷ host_mbox_status_reg ∷ ext_go_status_reg ∷ ippu_status_reg
        ∷ dma_go_stat_reg ∷ dbg_rcstatus_reg ∷ [])
    usleep 500000
    mbox ← reg_read host_mbox_status_reg
    if has_bits mbox mbox_status_in_64
        then read_all (host_in_64_msb_reg ∷ host_in_64_lsb_reg ∷ [])
        else return tt
    read_all (dbg_rcstatus_reg ∷ status_reg ∷ [])

  -- The label `fail`.
  unfoldable pub boot_fail : ℤ → M b ℤ
  boot_fail rc = do
    modify_reg (λ r. record r { running = negsuc 0; loader_busy = false })
    read_all (
        dma_xfrerr_stat_reg ∷ dma_cfgerr_stat_reg ∷ control_reg ∷ status_reg ∷ host_mbox_status_reg
        ∷ [])
    return rc

  -- The end of a boot that succeeded.
  unfoldable pub mark_booted : ℕ → Entry → M b ℤ
  mark_booted idx e = do
    modify (λ d. record d { eld_filename = until_nul e.id.name })
    boot_tail
    modify_reg (λ r. record r {
      running = pos idx;
      boot_gen = (r.boot_gen + 1) % 2 ^ 32;
      loader_busy = false;
    })
    return (pos 0)

  -- The start of the loaded image.
  unfoldable pub start_loaded : ℕ → Entry → M b ℤ
  start_loaded idx e = do
    read_all (
        control_reg ∷ status_reg ∷ host_mbox_status_reg ∷ dbg_rcstatus_reg ∷ dbg_gdben_reg
        ∷ dbg_dvr_reg ∷ ext_go_status_reg ∷ [])
    rc ← startup
    if not (is_zero rc) then swap_forensics >> boot_fail rc else mark_booted idx e

  -- From the load of the staged image on.
  unfoldable pub load_and_start : ℕ → Entry → (ℕ → ℕ) → M b ℤ
  load_and_start idx e mem = do
    rc ← load_vspa_image mem e.size
    if is_neg rc then boot_fail rc else start_loaded idx e

  -- After the claim: the copy to the staging window, where there is one.
  unfoldable pub stage_and_load : ℕ → Entry → Option (List ℕ) → Sys b → Option (ℤ × Sys b)
  stage_and_load idx e none s = if s.dev.overlay_region then none else some (boot_fail enodev s)
  stage_and_load idx e (some d) s = some (
      if s.dev.overlay_region
      then load_and_start idx e (staged (take e.size d) (b.window s.hw)) s
      else boot_fail enodev s)

  -- rfnm_vspa_boot_image_locked
  unfoldable pub boot_image_locked : ℕ → Sys b → Option (ℤ × Sys b)
  boot_image_locked idx s =
      let (is_parked, s₁) = wait_parked s in
      let e = entry s.reg idx in
      if is_parked
      then stage_and_load idx e e.blob (claim s₁).1
      else some (ebusy, (reg_read status_reg s₁).1)

  -- The boot of an index that may be -1.
  unfoldable pub boot_index : ℤ → Sys b → Option (ℤ × Sys b)
  boot_index (negsuc n) s = some (enoent, s)
  boot_index (pos i) s = boot_image_locked i s

  -- rfnm_vspa_boot_selected; `dev` tells whether the device exists and is probed.
  unfoldable pub boot_selected : Bool → Sys b → Option (ℤ × Sys b)
  boot_selected dev s = if dev then boot_index s.reg.selected s else some (enodev, s)

-- The running index is reset where there is an image to boot.
unfoldable pub probe_reset : ℤ → Registry → Registry
probe_reset (negsuc n) r = r
probe_reset (pos i) r = record r { running = negsuc 0 }

module _ (hweight32 : ℕ → ℕ) where
  -- Is image `i` to replace the best one so far in rfnm_vspa_probe_boot?
  unfoldable pub is_lighter : Registry → ℕ → ℤ → Bool
  is_lighter r i (negsuc n) = true
  is_lighter r i (pos j) = ltb (weight hweight32 r i) (weight hweight32 r j)

  -- The loop of rfnm_vspa_probe_boot from image `i`, `k` left.
  unfoldable pub lightest_from : Registry → ℕ → ℕ → ℤ → ℤ
  lightest_from r zero i best = best
  lightest_from r (suc k) i best =
      lightest_from r k (i + 1)
        (if provides r (pos i) cap_streaming_base && is_lighter r i best then pos i else best)

  -- The selection that a probe boots: the present one if it is in range.
  unfoldable pub keep_selection : Registry → ℤ → ℤ
  keep_selection r (negsuc n) = lightest_from r r.cnt 0 (negsuc 0)
  keep_selection r (pos i) = if leb r.cnt i then lightest_from r r.cnt 0 (negsuc 0) else pos i

  unfoldable pub probe_boot : {b : Bus} → Sys b → Option (ℤ × Sys b)
  probe_boot s =
      let chosen = keep_selection s.reg s.reg.selected in
      boot_index chosen
        (record s { reg = probe_reset chosen (record (s.reg) { selected = chosen }) })
