-- ===== src/Vspa/Tests/Boots.antt =====
-- The properties of a boot at concrete images and hardware.
use la9310_driver.Base.{ℕ, zero, suc, ◌≡◌, ◌≢◌, refl, false, some, [], ◌∷◌, arith, ℤ, pos, get_or}
use la9310_driver.Vspa.Bus.{Sys, reg_read, usleep, ◌>>=◌, ◌>>◌, return}
use la9310_driver.Vspa.Registry.{ebusy}
use la9310_driver.Vspa.Dma.{DmaParam, fw_dma_write}
use la9310_driver.Vspa.Dma.Write.{fw_dma_write_lem, transfer}
use la9310_driver.Vspa.Loader.{
  Section, load_section, load_typed, section_type, u32_at, type_from, prefix_at, vspa_sec_info,
}
use la9310_driver.Vspa.Loader.Outcome.{NoLma, load_section_missing_lma}
use la9310_driver.Vspa.Boot.{boot_image_locked, wait_parked, park}
use la9310_driver.Vspa.Boot.Outcome.{boot_image_locked_lem, boot_image_locked_busy, Outcome}
use la9310_driver.Vspa.Tests.Data.{good_bus, busy_bus, device}
use la9310_driver.Vspa.Tests.Images.{stored, stored-IsValid}

abbrev good_system : Sys good_bus
good_system = record { hw = 0; dev = device; reg = stored }

abbrev busy_system : Sys busy_bus
busy_system = record { hw = 0; dev = device; reg = stored }

boot_image_locked_lem_example :
    (t : ℤ × Sys good_bus) × (boot_image_locked 0 good_system ≡ some t) × Outcome 0 good_system t
boot_image_locked_lem_example = boot_image_locked_lem 0 good_system stored-IsValid (omega arith)

never_parked : (wait_parked busy_system).0 ≡ false
unfolding wait_parked park reg_read usleep ◌>>=◌ ◌>>◌ return
never_parked = refl

-- No register has been written.
abbrev Unwritten : ℕ → Type 0
Unwritten writes = writes ≡ 0

boot_image_locked_busy_example :
    (s' : Sys busy_bus) × (boot_image_locked 0 busy_system ≡ some (ebusy, s')) × Unwritten s'.hw
boot_image_locked_busy_example =
    boot_image_locked_busy Unwritten (λ at hw h. h) (λ us hw h. h) 0 busy_system never_parked refl

abbrev zeros : ℕ → ℕ
zeros i = 0

abbrev large_section : DmaParam
large_section = record { xfr_ctrl = 0x200; offset = 0; phys = 0x100; size = 0x10001 }

fw_dma_write_lem_example :
    fw_dma_write zeros large_section good_system ≡ transfer zeros large_section 0 good_system
fw_dma_write_lem_example = fw_dma_write_lem zeros large_section good_system

-- An image whose string table starts with the name `.vpram`.
abbrev named_vpram : ℕ → ℕ
named_vpram i = get_or (b'.' ∷ b'v' ∷ b'p' ∷ b'r' ∷ b'a' ∷ b'm' ∷ []) i 0

abbrev vpram_section : Section
vpram_section = record { name_at = 0; vma = 0x100; offset = 0x400; size = 64 }

is_vpram : section_type named_vpram 0 ≡ pos 0
unfolding section_type type_from prefix_at
is_vpram = refl

-- One program header, for the address 0.
no_header : NoLma named_vpram 64 1 0x100
no_header zero h e = absurd (zero_ne e)
  where
    zero_ne : u32_at named_vpram 72 ≢ 0x100
    zero_ne e = omega arith
no_header (suc i) h e = absurd (omega arith)

load_section_missing_lma_example :
    load_section {b = good_bus} named_vpram 4096 64 1 vpram_section 1 16
    ≡ load_typed named_vpram 4096 0 (get_or vspa_sec_info 0 (0, [])).0 (pos 0, 0) vpram_section 1 16
load_section_missing_lma_example =
    load_section_missing_lma {b = good_bus} named_vpram 4096 64 1 0 vpram_section 1 16 no_header
      is_vpram
