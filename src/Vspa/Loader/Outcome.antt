-- ===== src/Vspa/Loader/Outcome.antt =====
-- The outcomes of the ELF loader (kernel_driver/la9310shiva/la9310_main_vspa.c).

use la9310_driver.Base.{
  ℕ, zero, suc, ◌+◌, ◌*◌, ◌<◌, ◌≡◌, ◌≢◌, refl, false, not, ◌||◌, Option, none, some, List, [],
  arith, ltb, ◌==◌, get_or, ℤ, pos, negsuc,
}
use la9310_driver.Vspa.Bus.{Bus, M}
use la9310_driver.Vspa.Bus.Rules.{
  KeepsReg, KeepsReg-of_Keeps, KeepsReg-bind, KeepsReg-then, KeepsReg-if, KeepsReg-return,
  modify-KeepsReg, get_dev-Keeps,
}
use la9310_driver.Vspa.Dma.Frame.{fw_dma_write-Keeps}
use la9310_driver.Vspa.Loader.{
  Section, Next, stop, go, invalid_file, is_positive, u32_at, lma_from, get_lma, section_type,
  vspa_sec_info, note_named, load_by_type, write_section, load_typed, load_section, after_section,
  load_sections, load_vspa_image,
}

-- The program headers give no load address for a section at `vma`.
abbrev pub NoLma : (ℕ → ℕ) → ℕ → ℕ → ℕ → Type 0
NoLma mem phoff phnum vma = (i : ℕ) → i < phnum → u32_at mem (phoff + i * 32 + 8) ≢ vma

lma_from_missing :
    (mem : ℕ → ℕ) (phoff vma k i n : ℕ)
    → NoLma mem phoff n vma
    → i + k ≡ n
    → lma_from mem phoff vma k i ≡ (invalid_file, 0)
unfolding lma_from
lma_from_missing mem phoff vma zero i n h e = refl
lma_from_missing mem phoff vma (suc k) i n h e =
    let ne : (u32_at mem (phoff + i * 32 + 8) == vma) ≡ false = ground (arith, h i (omega arith)) in
    rw ne (lma_from_missing mem phoff vma k (i + 1) n h (omega arith))

after_section-KeepsReg :
    {b : Bus} (next : Next) (rest : ℕ → ℕ → M b ℤ)
    → ((link a : ℕ) → KeepsReg (rest link a))
    → KeepsReg (after_section next rest)
unfolding after_section
after_section-KeepsReg (stop rc) rest h = KeepsReg-return rc
after_section-KeepsReg (go link a) rest h = h link a

module _ {b : Bus} (mem : ℕ → ℕ) (fw_size : ℕ) where
  note_named-KeepsReg :
      (found : ℤ × ℕ) (sec : Section) (link a : ℕ) (name : Option (List ℕ))
      → KeepsReg (note_named {b = b} mem fw_size found sec link a name)
  unfolding note_named
  note_named-KeepsReg found sec link a none = KeepsReg-return _
  note_named-KeepsReg found sec link a (some name) = KeepsReg-then _ _ (modify-KeepsReg _) (
      KeepsReg-if (is_positive found.0) _ _ (KeepsReg-return _)
        (KeepsReg-then _ _ (modify-KeepsReg _) (KeepsReg-return _)))

  write_section-KeepsReg :
      (mode lma size : ℕ) (sec : Section) (link a : ℕ)
      → KeepsReg (write_section {b = b} mem fw_size mode lma size sec link a)
  unfolding write_section
  write_section-KeepsReg mode lma size sec link a =
      KeepsReg-then _ _ (modify-KeepsReg _)
        (KeepsReg-bind _ _ (KeepsReg-of_Keeps _ (fw_dma_write-Keeps mem _)) λ rc. KeepsReg-return _)

  load_typed-KeepsReg :
      (t mode : ℕ) (found : ℤ × ℕ) (sec : Section) (link a : ℕ)
      → KeepsReg (load_typed {b = b} mem fw_size t mode found sec link a)
  unfolding load_typed
  load_typed-KeepsReg t mode found sec link a =
      KeepsReg-if (is_positive found.0) _ _ (KeepsReg-return _) (
        KeepsReg-if (sec.size == 0 || t == 2) _ _ (KeepsReg-return _) (
          KeepsReg-if (ltb fw_size sec.size) _ _ (KeepsReg-return _) (
            KeepsReg-bind _ _ (KeepsReg-of_Keeps _ get_dev-Keeps) λ dev.
              KeepsReg-if (not (_ == 0)) _ _ (KeepsReg-return _) (
                KeepsReg-if (t == 5) _ _ (KeepsReg-return _)
                  (write_section-KeepsReg _ _ _ _ _ _)))))

  load_by_type-KeepsReg :
      (t : ℤ) (found : ℤ × ℕ) (sec : Section) (link a : ℕ)
      → KeepsReg (load_by_type {b = b} mem fw_size t found sec link a)
  unfolding load_by_type
  load_by_type-KeepsReg (negsuc n) found sec link a = note_named-KeepsReg found sec link a _
  load_by_type-KeepsReg (pos t) found sec link a = load_typed-KeepsReg t _ found sec link a

  load_sections-KeepsReg :
      (phoff phnum shoff str k i link a : ℕ)
      → KeepsReg (load_sections {b = b} mem fw_size phoff phnum shoff str k i link a)
  unfolding load_sections load_section
  load_sections-KeepsReg phoff phnum shoff str zero i link a = KeepsReg-return _
  load_sections-KeepsReg phoff phnum shoff str (suc k) i link a =
      KeepsReg-bind _ _ (load_by_type-KeepsReg _ _ _ _ _) λ next.
        after_section-KeepsReg next _
          λ link' a'. load_sections-KeepsReg phoff phnum shoff str k (i + 1) link' a'

  pub load_vspa_image-KeepsReg : KeepsReg (load_vspa_image {b = b} mem fw_size)
  unfolding load_vspa_image
  load_vspa_image-KeepsReg =
      KeepsReg-if _ _ _ (KeepsReg-return _)
        (KeepsReg-bind _ _ (load_sections-KeepsReg _ _ _ _ _ _ _ _) λ rc. KeepsReg-return _)

  -- A section of a loadable type for which the program headers give no load address is loaded all
  -- the same: every such section is treated as if its load address were 0.
  pub load_section_missing_lma :
      (phoff phnum t : ℕ) (sec : Section) (link a : ℕ)
      → NoLma mem phoff phnum sec.vma
      → section_type mem sec.name_at ≡ pos t
      → load_section {b = b} mem fw_size phoff phnum sec link a
        ≡ load_typed mem fw_size t (get_or vspa_sec_info t (0, [])).0 (pos 0, 0) sec link a
  unfolding load_section load_by_type get_lma load_typed
  load_section_missing_lma phoff phnum t sec link a missing typed =
      rw (typed, lma_from_missing mem phoff sec.vma phnum 0 phnum missing (omega arith))
