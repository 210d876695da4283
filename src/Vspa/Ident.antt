-- ===== src/Vspa/Ident.antt =====
-- `rfnm_vspa_find_ident` of kernel_driver/la9310shiva/la9310_vspa_registry.c: the walk over the
-- section table of an ELF32 image for the `.rfnm_ident` section. Each read of the image is
-- checked by the model, and `none` is a read outside it.
pub mod Bounds
pub mod Found
use la9310_driver.Base.{
  ℕ, zero, suc, ◌+◌, ◌-◌, ◌*◌, Bool, true, false, not, ◌&&◌, ◌||◌, Option, none, some, List, [],
  ◌∷◌, ltb, leb, ◌==◌, if◌then◌else◌, get_elem?,
}
use la9310_driver.Base.Fault.{◌>>=◌, le16, le32}

-- sizeof(struct rfnm_vspa_ident)
abbrev pub ident_size : ℕ
ident_size = 104

-- RFNM_VSPA_IDENT_SECTION, with the NUL that ends it.
abbrev pub ident_section : List ℕ
ident_section = b'.' ∷ b'r' ∷ b'f' ∷ b'n' ∷ b'm' ∷ b'_' ∷ b'i' ∷ b'd' ∷ b'e' ∷ b'n' ∷ b't' ∷ 0 ∷ []

-- `strncmp(d + at, s, n) == 0`, where `s` ends in its NUL.
unfoldable pub strncmp_eq : List ℕ → ℕ → List ℕ → ℕ → Option Bool
strncmp_eq d at s zero = some true
strncmp_eq d at [] (suc n) = some true
strncmp_eq d at (c ∷ s) (suc n) = do
  b ← get_elem? d at
  if b == c then (if c == 0 then some true else strncmp_eq d (at + 1) s n) else some false

-- The test of the first six bytes: ELF, 32 bits, little-endian.
unfoldable pub is_elf32_le : List ℕ → Option Bool
is_elf32_le d = do
  m0 ← get_elem? d 0
  m1 ← get_elem? d 1
  m2 ← get_elem? d 2
  m3 ← get_elem? d 3
  class ← get_elem? d 4
  encoding ← get_elem? d 5
  some (m0 == 0x7f && m1 == b'E' && m2 == b'L' && m3 == b'F' && class == 1 && encoding == 1)

-- What the walk knows of the section table and of the string table.
pub record Table : Type 0 where
  pub shoff : ℕ
  pub shentsz : ℕ
  pub shnum : ℕ
  pub stroff : ℕ
  pub strsz : ℕ

-- The section headers from the `i`-th, `k` of them left. The result is an offset or NULL.
unfoldable pub scan : List ℕ → ℕ → Table → ℕ → ℕ → Option (Option ℕ)
scan d size t zero i = some none
scan d size t (suc k) i = do
  nameoff ← le32 d (t.shoff + i * t.shentsz)
  off ← le32 d (t.shoff + i * t.shentsz + 0x10)
  sz ← le32 d (t.shoff + i * t.shentsz + 0x14)
  let next = scan d size t k (i + 1)
  if leb t.strsz nameoff then next else do
    same ← strncmp_eq d (t.stroff + nameoff) ident_section (t.strsz - nameoff)
    if not same
        then next
        else if ltb sz ident_size || ltb size (off + sz)
        then some none
        else some (some off)

-- The header fields, checked, and then the string table's bounds.
unfoldable pub find_in_table : List ℕ → ℕ → Option (Option ℕ)
find_in_table d size = do
  shoff ← le32 d 0x20
  shentsz ← le16 d 0x2e
  shnum ← le16 d 0x30
  shstrndx ← le16 d 0x32
  if shoff == 0 || ltb shentsz 0x28 || shnum == 0 || leb shnum shstrndx
      then some none
      else if ltb size (shoff + shnum * shentsz)
      then some none
      else do
        stroff ← le32 d (shoff + shstrndx * shentsz + 0x10)
        strsz ← le32 d (shoff + shstrndx * shentsz + 0x14)
        if ltb size (stroff + strsz)
            then some none
            else scan d size
                (record {
                  shoff = shoff;
                  shentsz = shentsz;
                  shnum = shnum;
                  stroff = stroff;
                  strsz = strsz;
                })
                shnum 0

-- The offset of the identity section, or NULL.
unfoldable pub find_ident : List ℕ → ℕ → Option (Option ℕ)
find_ident d size =
    if ltb size 0x34
    then some none
    else do elf ← is_elf32_le d; if not elf then some none else find_in_table d size
