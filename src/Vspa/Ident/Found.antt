-- ===== src/Vspa/Ident/Found.antt =====
-- What the walk finds (kernel_driver/la9310shiva/la9310_vspa_registry.c).
use la9310_driver.Base.{
  ℕ, zero, suc, ◌+◌, ◌-◌, ◌*◌, ◌≤◌, ◌<◌, ◌≡◌, refl, Bool, true, false, not, ◌||◌, Option, none,
  some, List, arith, ltb, leb, ◌==◌, bool_tests,
}
use mathlib.Core.Option.{some-injective}
use la9310_driver.Base.Fault.{Ensures, Ensures-some, Ensures-bind, Ensures-if, le16, le32}
use la9310_driver.Vspa.Ident.{
  Table, ident_size, ident_section, strncmp_eq, is_elf32_le, scan, find_in_table, find_ident,
}

-- The header of section `i`.
abbrev pub header : Table → ℕ → ℕ
header t i = t.shoff + i * t.shentsz

-- Section `i` is an identity section at `off`, with room for the structure inside the image.
pub record IsIdentSection (d : List ℕ) (size : ℕ) (t : Table) (i off : ℕ) : Type 0 where
  pub nameoff : ℕ
  pub name_at : le32 d (header t i) ≡ some nameoff
  pub name_inside : nameoff < t.strsz
  pub named : strncmp_eq d (t.stroff + nameoff) ident_section (t.strsz - nameoff) ≡ some true
  pub offset_at : le32 d (header t i + 0x10) ≡ some off
  pub room : off + ident_size ≤ size

abbrev Found : List ℕ → ℕ → Table → ℕ → Option ℕ → Type 0
Found d size t n r = (off : ℕ) → r ≡ some off → (i : ℕ) × (i < n) × IsIdentSection d size t i off

room_lem :
    (sz off size : ℕ) → (ltb sz ident_size || ltb size (off + sz)) ≡ false → off + ident_size ≤ size
room_lem sz off size h = ground arith

not-false : (b : Bool) → not b ≡ false → b ≡ true
not-false b h = ground arith

scan-Found :
    (d : List ℕ) (size : ℕ) (t : Table) (k i : ℕ)
    → i + k ≡ t.shnum
    → Ensures (Found d size t t.shnum) (scan d size t k i)
unfolding scan
scan-Found d size t zero i e = Ensures-some _ none (λ off h. cc)
scan-Found d size t (suc k) i e =
    let P = Found d size t t.shnum in
    let next = scan-Found d size t k (i + 1) (omega arith) in
    Ensures-bind P (le32 d (header t i)) _ λ nameoff name_at.
      Ensures-bind P (le32 d (header t i + 0x10)) _ λ off offset_at.
        Ensures-bind P (le32 d (header t i + 0x14)) _ λ sz _.
          Ensures-if P (leb t.strsz nameoff) _ _ (λ _. next)
            λ inside.
              Ensures-bind P (strncmp_eq d (t.stroff + nameoff) ident_section (t.strsz - nameoff)) _
                λ same named.
                  Ensures-if P (not same) _ _ (λ _. next)
                    λ is_same.
                      Ensures-if P (ltb sz ident_size || ltb size (off + sz)) _ _
                        (λ _. Ensures-some P none (λ _ h. cc))
                        λ ok. Ensures-some P (some off) λ off' h. (
                          i,
                          omega arith,
                          record {
                            nameoff = nameoff;
                            name_at = name_at;
                            name_inside = omega bool_tests;
                            named = cc (named, not-false same is_same);
                            offset_at = cc;
                            room = rw (← some-injective off off' h) (room_lem sz off size ok);
                          },
                        )

-- What the walk takes for the table of the image's sections.
pub record IsTable (d : List ℕ) (size : ℕ) (t : Table) : Type 0 where
  pub shoff_at : le32 d 0x20 ≡ some t.shoff
  pub shentsz_at : le16 d 0x2e ≡ some t.shentsz
  pub shnum_at : le16 d 0x30 ≡ some t.shnum
  pub headers : t.shoff + t.shnum * t.shentsz ≤ size
  pub strings : t.stroff + t.strsz ≤ size

abbrev FoundInTable : List ℕ → ℕ → Option ℕ → Type 0
FoundInTable d size r =
    (off : ℕ)
    → r ≡ some off
    → (t : Table) × IsTable d size t × (i : ℕ) × (i < t.shnum) × IsIdentSection d size t i off

find_in_table-Found : (d : List ℕ) (size : ℕ) → Ensures (FoundInTable d size) (find_in_table d size)
unfolding find_in_table
find_in_table-Found d size =
    let P = FoundInTable d size in
    Ensures-bind P (le32 d 0x20) _ λ shoff shoff_at.
      Ensures-bind P (le16 d 0x2e) _ λ shentsz shentsz_at.
        Ensures-bind P (le16 d 0x30) _ λ shnum shnum_at.
          Ensures-bind P (le16 d 0x32) _ λ shstrndx _.
            Ensures-if P (shoff == 0 || ltb shentsz 0x28 || shnum == 0 || leb shnum shstrndx) _ _
              (λ _. Ensures-some P none (λ _ h. cc))
              λ _.
                Ensures-if P (ltb size (shoff + shnum * shentsz)) _ _
                  (λ _. Ensures-some P none (λ _ h. cc))
                  λ headers.
                    Ensures-bind P (le32 d (shoff + shstrndx * shentsz + 0x10)) _ λ stroff _.
                      Ensures-bind P (le32 d (shoff + shstrndx * shentsz + 0x14)) _ λ strsz _.
                        Ensures-if P (ltb size (stroff + strsz)) _ _
                          (λ _. Ensures-some P none (λ _ h. cc))
                          λ strings r e off h.
                            let t : Table = record {
                              shoff = shoff;
                              shentsz = shentsz;
                              shnum = shnum;
                              stroff = stroff;
                              strsz = strsz;
                            } in
                            let (i, lt, found) =
                              scan-Found d size t shnum 0 (omega arith) r e off h in
                            (
                              t,
                              record {
                                shoff_at = shoff_at;
                                shentsz_at = shentsz_at;
                                shnum_at = shnum_at;
                                headers = omega bool_tests;
                                strings = omega bool_tests;
                              },
                              i,
                              lt,
                              found,
                            )

-- An offset that the walk gives is that of a section of the image's table whose name is
-- `.rfnm_ident`, and the whole identity structure lies inside the image there.
pub find_ident-Found :
    (d : List ℕ) (size off : ℕ)
    → find_ident d size ≡ some (some off)
    → (t : Table) × IsTable d size t × (i : ℕ) × (i < t.shnum) × IsIdentSection d size t i off
unfolding find_ident
find_ident-Found d size off e = go (some off) e off refl
  where
    go : Ensures (FoundInTable d size) (find_ident d size)
    go =
        Ensures-if (FoundInTable d size) (ltb size 0x34) _ _
          (λ _. Ensures-some (FoundInTable d size) none (λ _ h. cc))
          λ _. Ensures-bind (FoundInTable d size) (is_elf32_le d) _ λ elf _.
            Ensures-if (FoundInTable d size) (not elf) _ _
              (λ _. Ensures-some (FoundInTable d size) none (λ _ h. cc))
              λ _. find_in_table-Found d size
