-- ===== src/Vspa/Ident/Bounds.antt =====
-- The walk over an image reads inside it (kernel_driver/la9310shiva/la9310_vspa_registry.c).
use la9310_driver.Base.{
  ℕ, zero, suc, ◌+◌, ◌-◌, ◌*◌, ◌≤◌, ◌<◌, ◌≡◌, refl, true, false, not, ◌||◌, none, some, List, [],
  ◌∷◌, arith, ltb, leb, ◌==◌, length, bool_tests,
}
use la9310_driver.Base.Fault.{Safe, Safe-bind, Safe-if, byte-Safe, le16-Safe, le32-Safe}
use la9310_driver.Vspa.Ident.{
  Table, ident_size, ident_section, strncmp_eq, is_elf32_le, scan, find_in_table, find_ident,
}

strncmp_eq-Safe :
    (d : List ℕ) (at : ℕ) (s : List ℕ) (n : ℕ) → at + n ≤ length d → Safe (strncmp_eq d at s n)
unfolding strncmp_eq
strncmp_eq-Safe d at s zero h = (true, refl)
strncmp_eq-Safe d at [] (suc n) h = (true, refl)
strncmp_eq-Safe d at (c ∷ s) (suc n) h = Safe-bind _ _ (byte-Safe d at (omega arith)) λ b _.
    Safe-if (b == c) _ _
      (λ _.
        Safe-if (c == 0) _ _ (λ _. (true, refl))
          (λ _. strncmp_eq-Safe d (at + 1) s n (omega arith)))
      (λ _. (false, refl))

-- The tables lie inside the image.
pub record Fits (size : ℕ) (t : Table) : Type 0 where
  pub headers : t.shoff + t.shnum * t.shentsz ≤ size
  pub header_size : 0x28 ≤ t.shentsz
  pub strings : t.stroff + t.strsz ≤ size

row-lt : (i n e : ℕ) → i < n → i * e + e ≤ n * e
row-lt i n e h = grind arith

scan-Safe :
    (d : List ℕ) (size : ℕ) (t : Table) (k i : ℕ)
    → size ≤ length d
    → Fits size t
    → i + k ≡ t.shnum
    → Safe (scan d size t k i)
unfolding scan
scan-Safe d size t zero i b f e = (none, refl)
scan-Safe d size t (suc k) i b f e =
    let r : i * t.shentsz + t.shentsz ≤ t.shnum * t.shentsz =
      row-lt i t.shnum t.shentsz (omega arith) in
    let next = scan-Safe d size t k (i + 1) b f (omega arith) in
    Safe-bind _ _ (le32-Safe d _ (omega arith)) λ nameoff _.
      Safe-bind _ _ (le32-Safe d _ (omega arith)) λ off _.
        Safe-bind _ _ (le32-Safe d _ (omega arith)) λ sz _.
          Safe-if (leb t.strsz nameoff) _ _ (λ _. next)
            (λ inside.
              Safe-bind _ _
                (strncmp_eq-Safe d (t.stroff + nameoff) ident_section (t.strsz - nameoff)
                  (omega bool_tests))
                λ same _.
                  Safe-if (not same) _ _ (λ _. next)
                    (λ _.
                      Safe-if (ltb sz ident_size || ltb size (off + sz)) _ _ (λ _. (none, refl))
                        (λ _. (some off, refl))))

-- The three tests that the header has to pass, as facts.
header_tests :
    (shoff shentsz shnum shstrndx : ℕ)
    → (shoff == 0 || ltb shentsz 0x28 || shnum == 0 || leb shnum shstrndx) ≡ false
    → (0x28 ≤ shentsz) × (shstrndx < shnum)
header_tests shoff shentsz shnum shstrndx h = ground arith

find_in_table-Safe :
    (d : List ℕ) (size : ℕ) → 0x34 ≤ size → size ≤ length d → Safe (find_in_table d size)
unfolding find_in_table
find_in_table-Safe d size h b = Safe-bind _ _ (le32-Safe d _ (omega arith)) λ shoff _.
    Safe-bind _ _ (le16-Safe d _ (omega arith)) λ shentsz _.
      Safe-bind _ _ (le16-Safe d _ (omega arith)) λ shnum _.
        Safe-bind _ _ (le16-Safe d _ (omega arith)) λ shstrndx _.
          Safe-if (shoff == 0 || ltb shentsz 0x28 || shnum == 0 || leb shnum shstrndx) _ _
            (λ _. (none, refl))
            λ ok.
              Safe-if (ltb size (shoff + shnum * shentsz)) _ _ (λ _. (none, refl))
                λ fits.
                  let (wide, named) = header_tests shoff shentsz shnum shstrndx ok in
                  let r : shstrndx * shentsz + shentsz ≤ shnum * shentsz =
                    row-lt shstrndx shnum shentsz named in
                  Safe-bind _ _ (le32-Safe d _ (omega bool_tests)) λ stroff _.
                    Safe-bind _ _ (le32-Safe d _ (omega bool_tests)) λ strsz _.
                      Safe-if (ltb size (stroff + strsz)) _ _ (λ _. (none, refl))
                        λ inside. scan-Safe d size _ shnum 0 b (omega bool_tests) (omega arith)

is_elf32_le-Safe : (d : List ℕ) → 6 ≤ length d → Safe (is_elf32_le d)
unfolding is_elf32_le
is_elf32_le-Safe d h = Safe-bind _ _ (byte-Safe d 0 (omega arith)) λ _ _.
    Safe-bind _ _ (byte-Safe d 1 (omega arith)) λ _ _.
      Safe-bind _ _ (byte-Safe d 2 (omega arith)) λ _ _.
        Safe-bind _ _ (byte-Safe d 3 (omega arith)) λ _ _.
          Safe-bind _ _ (byte-Safe d 4 (omega arith))
            λ _ _. Safe-bind _ _ (byte-Safe d 5 (omega arith)) λ _ _. (_, refl)

-- However the image is built, and whatever its headers say, the walk reads no byte outside the
-- image: it ends with an offset or NULL if the size it is given does not exceed the image's.
pub find_ident-Safe : (d : List ℕ) (size : ℕ) → size ≤ length d → Safe (find_ident d size)
unfolding find_ident
find_ident-Safe d size b =
    Safe-if (ltb size 0x34) _ _ (λ _. (none, refl))
      λ large. Safe-bind _ _ (is_elf32_le-Safe d (omega bool_tests)) λ elf _.
        Safe-if (not elf) _ _ (λ _. (none, refl))
          λ _. find_in_table-Safe d size (omega bool_tests) b
