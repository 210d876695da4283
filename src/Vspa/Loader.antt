-- ===== src/Vspa/Loader.antt =====
-- The ELF loader of kernel_driver/la9310shiva/la9310_main_vspa.c: `get_lma`, the section names,
-- `fw_read_and_load_sections` and `la9310_load_vspa_image`. The staged image is a function from
-- offsets to bytes: what lies past the image is what the staging window holds there.
pub mod Outcome
use Prim.Native.Nat.{bit_and}
use la9310_driver.Base.{
  ℕ, zero, suc, ◌+◌, ◌-◌, ◌*◌, ◌/◌, ◌%◌, ◌^◌, Bool, true, false, not, ◌&&◌, ◌||◌, Option, none,
  some, List, [], ◌∷◌, ltb, ◌==◌, if◌then◌else◌, get_or, set, take, length, ℤ, pos, negsuc, neg,
  is_neg, is_zero,
}
use la9310_driver.Vspa.Bus.{Bus, Dev, Overlay, M, ◌>>=◌, ◌>>◌, return, modify, get_dev}
use la9310_driver.Vspa.Dma.{DmaParam, align, fw_dma_write}
use la9310_driver.Vspa.Startup.{eio}

abbrev pub enoexec : ℤ
enoexec = neg 8

-- -LIBVSPA_ERR_INVALID_FILE, -LIBVSPA_ERR_ENOMEM, -LIBVSPA_ERR_EINVOFFSET
abbrev pub invalid_file : ℤ
invalid_file = neg 18

abbrev pub vspa_enomem : ℤ
vspa_enomem = neg 12

abbrev pub einvoffset : ℤ
einvoffset = neg 17

-- GCC_MACH_CODE and ISCAPE_MACH_CODE
abbrev pub gcc_mach_code : ℕ
gcc_mach_code = 0xbe

abbrev pub iscape_mach_code : ℕ
iscape_mach_code = 0x40c8

-- `rc > LIBVSPA_ERR_OK`
abbrev pub is_positive : ℤ → Bool
is_positive (pos n) = not (n == 0)
is_positive (negsuc n) = false

-- The bytes of `s` follow at the offset: `!_strncmp(mem + at, s, strlen(s))`.
unfoldable pub prefix_at : (ℕ → ℕ) → ℕ → List ℕ → Bool
prefix_at mem at [] = true
prefix_at mem at (c ∷ s) = mem at == c && prefix_at mem (at + 1) s

abbrev pub u16_at : (ℕ → ℕ) → ℕ → ℕ
u16_at mem i = mem i + 0x100 * mem (i + 1)

abbrev pub u32_at : (ℕ → ℕ) → ℕ → ℕ
u32_at mem i = u16_at mem i + 0x10000 * u16_at mem (i + 2)

-- The names of `vspa_sec_info` and of `overlay_sec_info`, without their NUL.
abbrev pub vpram_name : List ℕ
vpram_name = b'.' ∷ b'v' ∷ b'p' ∷ b'r' ∷ b'a' ∷ b'm' ∷ []

abbrev pub vdram_name : List ℕ
vdram_name = b'.' ∷ b'v' ∷ b'd' ∷ b'r' ∷ b'a' ∷ b'm' ∷ []

abbrev pub dmem_cmdbuf_name : List ℕ
dmem_cmdbuf_name =
    b'.' ∷ b'd' ∷ b'm' ∷ b'e' ∷ b'm' ∷ b'_' ∷ b'c' ∷ b'm' ∷ b'd' ∷ b'b' ∷ b'u' ∷ b'f' ∷ []

abbrev pub ipram_name : List ℕ
ipram_name = b'.' ∷ b'i' ∷ b'p' ∷ b'r' ∷ b'a' ∷ b'm' ∷ []

abbrev pub idram_name : List ℕ
idram_name = b'.' ∷ b'i' ∷ b'd' ∷ b'r' ∷ b'a' ∷ b'm' ∷ []

abbrev pub ocram_vspa_name : List ℕ
ocram_vspa_name = b'.' ∷ b'o' ∷ b'c' ∷ b'r' ∷ b'a' ∷ b'm' ∷ b'_' ∷ b'v' ∷ b's' ∷ b'p' ∷ b'a' ∷ []

abbrev pub vpram_overlay_name : List ℕ
vpram_overlay_name =
    b'.' ∷ b'v' ∷ b'p' ∷ b'r' ∷ b'a' ∷ b'm' ∷ b'_' ∷ b'o' ∷ b'v' ∷ b'e' ∷ b'r' ∷ b'l' ∷ b'a' ∷ b'y'
    ∷ []

abbrev pub iq_data_name : List ℕ
iq_data_name =
    b'.' ∷ b'I' ∷ b'Q' ∷ b'_' ∷ b'd' ∷ b'a' ∷ b't' ∷ b'a' ∷ b'_' ∷ b'o' ∷ b'v' ∷ b'l' ∷ b'_' ∷ b'd'
    ∷ b'd' ∷ b'r' ∷ []

abbrev pub cal_name : List ℕ
cal_name = b'.' ∷ b'C' ∷ b'A' ∷ b'L' ∷ b'_' ∷ b'o' ∷ b'v' ∷ b'l' ∷ b'_' ∷ b'd' ∷ b'd' ∷ b'r' ∷ []

-- vspa_sec_info: the transfer mode and the name of each section type.
abbrev pub vspa_sec_info : List (ℕ × List ℕ)
vspa_sec_info =
    (0x200, vpram_name)
    ∷ (0, vdram_name)
    ∷ (0xffffffff, dmem_cmdbuf_name)
    ∷ (0x300, ipram_name)
    ∷ (0, idram_name)
    ∷ (0xffffffff, ocram_vspa_name)
    ∷ []

abbrev pub overlay_sec_info : List (List ℕ)
overlay_sec_info = vpram_overlay_name ∷ iq_data_name ∷ cal_name ∷ []

-- getsectiontype: only the first six characters count, the length of the first name.
unfoldable pub type_from : (ℕ → ℕ) → ℕ → ℕ → List (ℕ × List ℕ) → ℤ
type_from mem at i [] = negsuc 0
type_from mem at i ((mode, name) ∷ rest) =
    if prefix_at mem at (take (length vpram_name) name)
    then pos i
    else type_from mem at (i + 1) rest

unfoldable pub section_type : (ℕ → ℕ) → ℕ → ℤ
section_type mem at = type_from mem at 0 vspa_sec_info

-- get_overlay_section
unfoldable pub overlay_from : (ℕ → ℕ) → ℕ → List (List ℕ) → Option (List ℕ)
overlay_from mem at [] = none
overlay_from mem at (name ∷ rest) =
    if prefix_at mem at name then some name else overlay_from mem at rest

unfoldable pub overlay_section : (ℕ → ℕ) → ℕ → Option (List ℕ)
overlay_section mem at = overlay_from mem at overlay_sec_info

-- The loop of get_lma, from program header `i`, `k` left. The second part is `*lma`, which the
-- callers set to 0.
unfoldable pub lma_from : (ℕ → ℕ) → ℕ → ℕ → ℕ → ℕ → ℤ × ℕ
lma_from mem phoff vma zero i = (invalid_file, 0)
lma_from mem phoff vma (suc k) i =
    let rest = lma_from mem phoff vma k (i + 1) in
    if u32_at mem (phoff + i * 32 + 8) == vma
    then (pos 0, bit_and (u32_at mem (phoff + i * 32 + 12)) 0xf0ffffff)
    else rest

unfoldable pub get_lma : (ℕ → ℕ) → ℕ → ℕ → ℕ → ℤ × ℕ
get_lma mem phoff phnum vma = lma_from mem phoff vma phnum 0

-- The fields of a section header that the loader reads.
pub record Section : Type 0 where
  pub name_at : ℕ
  pub vma : ℕ
  pub offset : ℕ
  pub size : ℕ

-- The end of a round: the function returns, or goes on with its local variables
-- `overlay_link_add` and `axi_align`.
pub data Next : Type 0 where
  stop : ℤ → Next
  go : ℕ → ℕ → Next

-- `overlay_sec[i]`; a write past its three entries is not modelled.
unfoldable pub set_overlay : ℕ → Overlay → Dev → Dev
set_overlay i o d = record d { overlay_sec = set d.overlay_sec i o }

abbrev pub empty_overlay : Overlay
empty_overlay = record { name = none; xfr_ctrl = 0; offset = 0; phys = 0; size = 0 }

-- The entry with a new name, and the entry with the place and the size of a section.
unfoldable pub name_overlay : ℕ → List ℕ → Dev → Dev
unfolding set_overlay
name_overlay i name d =
    set_overlay i (record (get_or d.overlay_sec i empty_overlay) { name = some name }) d

unfoldable pub place_overlay : ℕ → ℕ → ℕ → Dev → Dev
unfolding set_overlay
place_overlay i phys size d =
    set_overlay i (record (get_or d.overlay_sec i empty_overlay) { phys = phys; size = size }) d

-- The default overlay, which goes to entry 0 and is the loaded one.
unfoldable pub default_overlay : DmaParam → Dev → Dev
unfolding set_overlay
default_overlay p d =
    record (set_overlay 0
      (record {
        name = some vpram_overlay_name;
        xfr_ctrl = p.xfr_ctrl;
        offset = p.offset;
        phys = p.phys;
        size = p.size;
      })
      d) { overlay_sec_loaded = some vpram_overlay_name }

-- Section header `i`, its name resolved in the string table at `str`.
abbrev pub section_at : (ℕ → ℕ) → ℕ → ℕ → ℕ → Section
section_at mem shoff str i = record {
  name_at = str + u32_at mem (shoff + i * 40);
  vma = u32_at mem (shoff + i * 40 + 12);
  offset = u32_at mem (shoff + i * 40 + 16);
  size = u32_at mem (shoff + i * 40 + 20);
}

-- A round that ends the function, or that goes on to the next one.
unfoldable pub after_section : {b : Bus} → Next → (ℕ → ℕ → M b ℤ) → M b ℤ
after_section (stop rc) rest = return rc
after_section (go link axi_align) rest = rest link axi_align

module _ {b : Bus} (mem : ℕ → ℕ) (fw_size : ℕ) where
  -- What follows the search of the name among those of the overlays.
  unfoldable pub note_named : ℤ × ℕ → Section → ℕ → ℕ → Option (List ℕ) → M b Next
  note_named found sec link axi_align none = return (go link axi_align)
  note_named found sec link axi_align (some name) = do
    let (rc, lma) = found
    modify (name_overlay link name)
    if is_positive rc then return (stop invalid_file) else do
      modify (place_overlay link sec.offset (align sec.size axi_align))
      return (go (link + 1) axi_align)

  -- The write of a section at its load address, the default overlay noted.
  unfoldable pub write_section : ℕ → ℕ → ℕ → Section → ℕ → ℕ → M b Next
  write_section mode lma size sec link axi_align = do
    let p : DmaParam = record { xfr_ctrl = mode; offset = lma; phys = sec.offset; size = size }
    modify (λ d. if prefix_at mem sec.name_at vpram_overlay_name then default_overlay p d else d)
    rc ← fw_dma_write mem p
    return (if is_neg rc then stop rc else go link axi_align)

  -- A section of type `t`, with what `get_lma` gave for it.
  unfoldable pub load_typed : ℕ → ℕ → ℤ × ℕ → Section → ℕ → ℕ → M b Next
  load_typed t mode found sec link axi_align =
      let (rc, lma) = found in
      if is_positive rc
      then return (stop invalid_file)
      else if sec.size == 0 || t == 2
      then return (go link axi_align)
      else if ltb fw_size sec.size
      then return (stop vspa_enomem)
      else (do
        dev ← get_dev
        let a = dev.axi_data_width / 8
        if not (bit_and lma ((a + 2 ^ 32 - 1) % 2 ^ 32) == 0)
            then return (stop einvoffset)
            else if t == 5
            then return (go link a)
            else write_section mode lma (align sec.size a) sec link a)

  -- A section by its type, -1 for none that can be loaded: that one is noted if its name is that
  -- of an overlay.
  unfoldable pub load_by_type : ℤ → ℤ × ℕ → Section → ℕ → ℕ → M b Next
  load_by_type (negsuc n) found sec link axi_align =
      note_named found sec link axi_align (overlay_section mem sec.name_at)
  load_by_type (pos t) found sec link axi_align =
      load_typed t (get_or vspa_sec_info t (0, [])).0 found sec link axi_align

  -- A round of the loop of `fw_read_and_load_sections`.
  unfoldable pub load_section : ℕ → ℕ → Section → ℕ → ℕ → M b Next
  load_section phoff phnum sec link axi_align =
      load_by_type (section_type mem sec.name_at) (get_lma mem phoff phnum sec.vma) sec link
        axi_align

  -- The loop, from section `i`, `k` left.
  unfoldable pub load_sections : ℕ → ℕ → ℕ → ℕ → ℕ → ℕ → ℕ → ℕ → M b ℤ
  load_sections phoff phnum shoff str zero i link axi_align = return (pos 0)
  load_sections phoff phnum shoff str (suc k) i link axi_align = do
    next ← load_section phoff phnum (section_at mem shoff str i) link axi_align
    after_section next
        λ link' axi_align'. load_sections phoff phnum shoff str k (i + 1) link' axi_align'

  unfoldable pub load_vspa_image : M b ℤ
  load_vspa_image =
      let machine = u16_at mem 0x12 in
      let phoff = u32_at mem 0x1c in
      let shoff = u32_at mem 0x20 in
      let phnum = u16_at mem 0x2c in
      let shnum = u16_at mem 0x30 in
      let shstrndx = u16_at mem 0x32 in
      if not (machine == gcc_mach_code) && not (machine == iscape_mach_code)
      then return enoexec
      else (do
        rc ← load_sections phoff phnum shoff (u32_at mem (shoff + shstrndx * 40 + 16)) shnum 0 1 0
        return (if is_zero rc then pos 0 else eio))
