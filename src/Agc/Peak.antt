-- ===== src/Agc/Peak.antt =====
-- What a slot measurement makes of the peak
-- (`agc_slot_stats` of kernel_driver/la9310rfnm/rfnm_agc.c).
use la9310_driver.Base.{
  ℕ, zero, suc, ◌+◌, ◌*◌, ◌/◌, ◌%◌, ◌≤◌, ◌<◌, ◌≡◌, refl, inl, inr, ◌⊎◌, ◌||◌, Bool-cases, arith,
  Option, none, some, ltb, ◌==◌, if◌then◌else◌,
}
use la9310_driver.Agc.{
  Agc, Layer, Format, cs16, packed12, other_format, is_cs16, magnitude16, magnitude12, raise,
  peak_cs16, peak_packed, count_samples, measure, slot_stats, max_slot_samples, payload_off,
}

-- A peak after a measurement: no lower than before, and no more than 2048 counts.
abbrev pub Within : ℕ → ℕ → Type 0
Within before after = (before ≤ after) × (after ≤ 2048)

magnitude16-small : (u : ℕ) → magnitude16 u ≤ 2048
magnitude16-small u = ground arith

magnitude12-small : (u : ℕ) → magnitude12 u ≤ 2048
magnitude12-small u = ground arith

raise-Within : (p v : ℕ) → p ≤ 2048 → v ≤ 2048 → Within p (raise p v)
raise-Within p v h k = (ground arith, ground arith)

-- The value that was raised to is covered.
raise-covers : (p v : ℕ) → v ≤ raise p v
raise-covers p v = ground arith

raised : (p v w : ℕ) → p ≤ 2048 → v ≤ 2048 → w ≤ 2048 → Within p (raise (raise p v) w)
raised p v w a b c =
    let (x, y) = raise-Within p v a b in
    let (z, t) = raise-Within (raise p v) w y c in (omega arith, t)

-- The values of the i-th sample from byte `at` on, in each of the two layouts.
abbrev pub in_phase16 : (ℕ → ℕ) → ℕ → ℕ → ℕ
in_phase16 slot at i = magnitude16 (slot (at + 4 * i) + 256 * slot (at + 4 * i + 1))

abbrev pub quadrature16 : (ℕ → ℕ) → ℕ → ℕ → ℕ
quadrature16 slot at i = magnitude16 (slot (at + 4 * i + 2) + 256 * slot (at + 4 * i + 3))

abbrev pub group : (ℕ → ℕ) → ℕ → ℕ → ℕ
group slot at i = slot (at + 3 * i) + 256 * slot (at + 3 * i + 1) + 65536 * slot (at + 3 * i + 2)

-- A peak that covers the values of `n` samples and adds nothing else.
abbrev pub Measures : (ℕ → ℕ) → (ℕ → ℕ) → ℕ → ℕ → ℕ → Type 0
Measures inp quad n before after =
    Within before after × ((i : ℕ) → i < n → (inp i ≤ after) × (quad i ≤ after))

abbrev pub in_phase12 : (ℕ → ℕ) → ℕ → ℕ → ℕ
in_phase12 slot at i = magnitude12 (group slot at i / 4096 % 4096)

abbrev pub quadrature12 : (ℕ → ℕ) → ℕ → ℕ → ℕ
quadrature12 slot at i = magnitude12 (group slot at i % 4096)

module _ (slot : ℕ → ℕ) where
  -- The i-th sample after the first, and the first.
  later : (w at i : ℕ) → at + w + w * i ≡ at + w * suc i
  later w at i = grind arith

  first : (w at : ℕ) → at ≡ at + w * 0
  first w at = omega arith

  peak_cs16-Measures :
      (n at p : ℕ)
      → p ≤ 2048
      → Measures (in_phase16 slot at) (quadrature16 slot at) n p (peak_cs16 slot n at p)
  unfolding peak_cs16
  peak_cs16-Measures zero at p h = ((omega arith, h), λ i lt. absurd (omega arith))
  peak_cs16-Measures (suc n) at p h =
      let x = magnitude16 (slot at + 256 * slot (at + 1)) in
      let y = magnitude16 (slot (at + 2) + 256 * slot (at + 3)) in
      let (up, small) = raised p x y h (magnitude16-small _) (magnitude16-small _) in
      let ((more, most), all) = peak_cs16-Measures n (at + 4) (raise (raise p x) y) small in
      let last = peak_cs16 slot n (at + 4) (raise (raise p x) y) in
      (
        (omega (arith, up, more), most),
        λ i lt.
            at_sample last i lt
              (
                omega (arith, more, covers_first p x y),
                omega (arith, more, raise-covers (raise p x) y),
              )
              all,
      )
    where
      covers_first : (p x y : ℕ) → x ≤ raise (raise p x) y
      covers_first p x y = ground arith

      at_sample :
          (last i : ℕ)
          → i < suc n
          → (magnitude16 (slot at + 256 * slot (at + 1)) ≤ last)
            × (magnitude16 (slot (at + 2) + 256 * slot (at + 3)) ≤ last)
          → ((j : ℕ)
              → j < n
              → (in_phase16 slot (at + 4) j ≤ last) × (quadrature16 slot (at + 4) j ≤ last))
          → (in_phase16 slot at i ≤ last) × (quadrature16 slot at i ≤ last)
      at_sample last zero lt here all = rw (← first 4 at) here
      at_sample last (suc j) lt here all = rw (← later 4 at j) (all j (omega arith))

  peak_packed-Measures :
      (n at p : ℕ)
      → p ≤ 2048
      → Measures (in_phase12 slot at) (quadrature12 slot at) n p (peak_packed slot n at p)
  unfolding peak_packed
  peak_packed-Measures zero at p h = ((omega arith, h), λ i lt. absurd (omega arith))
  peak_packed-Measures (suc n) at p h =
      let lp = slot at + 256 * slot (at + 1) + 65536 * slot (at + 2) in
      let x = magnitude12 (lp / 4096 % 4096) in
      let y = magnitude12 (lp % 4096) in
      let (up, small) =
        raised p x y h (magnitude12-small (lp / 4096 % 4096)) (magnitude12-small (lp % 4096)) in
      let ((more, most), all) = peak_packed-Measures n (at + 3) (raise (raise p x) y) small in
      let last = peak_packed slot n (at + 3) (raise (raise p x) y) in
      (
        (omega (arith, up, more), most),
        λ i lt.
            at_group last i lt
              (
                omega (arith, more, covers_first p x y),
                omega (arith, more, raise-covers (raise p x) y),
              )
              all,
      )
    where
      covers_first : (p x y : ℕ) → x ≤ raise (raise p x) y
      covers_first p x y = ground arith

      at_group :
          (last i : ℕ)
          → i < suc n
          → (magnitude12 ((slot at + 256 * slot (at + 1) + 65536 * slot (at + 2)) / 4096 % 4096)
              ≤ last)
            × (magnitude12 ((slot at + 256 * slot (at + 1) + 65536 * slot (at + 2)) % 4096) ≤ last)
          → ((j : ℕ)
              → j < n
              → (in_phase12 slot (at + 3) j ≤ last) × (quadrature12 slot (at + 3) j ≤ last))
          → (in_phase12 slot at i ≤ last) × (quadrature12 slot at i ≤ last)
      at_group last zero lt here all = rw (← first 3 at) here
      at_group last (suc j) lt here all = rw (← later 3 at j) (all j (omega arith))

-- What a measured slot is to cover: the samples of a 16-bit slot, the groups of a packed one.
abbrev pub Covers : Format → (ℕ → ℕ) → ℕ → ℕ → ℕ → Type 0
Covers cs16 slot nsamp before after =
    Measures (in_phase16 slot payload_off) (quadrature16 slot payload_off) nsamp before after
Covers packed12 slot nsamp before after =
    Measures (in_phase12 slot payload_off) (quadrature12 slot payload_off) (nsamp / 2) before after
Covers other_format slot nsamp before after =
    Measures (in_phase12 slot payload_off) (quadrature12 slot payload_off) (nsamp / 2) before after

peak-Covers :
    (format : Format) (slot : ℕ → ℕ) (nsamp before : ℕ)
    → before ≤ 2048
    → Covers format slot nsamp before (
        if is_cs16 format
        then peak_cs16 slot nsamp payload_off before
        else peak_packed slot (nsamp / 2) payload_off before)
peak-Covers cs16 slot nsamp before h = peak_cs16-Measures slot nsamp payload_off before h
peak-Covers packed12 slot nsamp before h =
    peak_packed-Measures slot (nsamp / 2) payload_off before h
peak-Covers other_format slot nsamp before h =
    peak_packed-Measures slot (nsamp / 2) payload_off before h

-- What a measurement gives for a slot with the sample count `found`.
abbrev pub Outcome : Format → (ℕ → ℕ) → Option ℕ → Agc → ℕ × Agc → Type 0
Outcome format slot none st t = t ≡ (0, st)
Outcome format slot (some nsamp) st t =
    ((t ≡ (0, st)) × ((nsamp ≡ 0) ⊎ (max_slot_samples < nsamp)))
    ⊎ ((t.0 ≡ 1) × (nsamp ≤ max_slot_samples) × Covers format slot nsamp st.peak t.1.peak)

-- A slot whose descriptors are refused, or that has no samples or more than 960, changes nothing.
-- Any other slot raises the peak to cover the magnitude of both values of every sample of a 16-bit
-- slot, and of every three-byte group among the first nsamp/2 of a packed one. The peak never
-- falls and stays within 2048 counts.
pub slot_stats_lem :
    (layer : Layer) (format : Format) (slot : ℕ → ℕ) (st : Agc)
    → st.peak ≤ 2048
    → Outcome format slot
        (count_samples layer slot layer.sub_cnt 0 0)
        st
        (slot_stats layer format slot st)
unfolding slot_stats measure
slot_stats_lem layer format slot st h = go (count_samples layer slot layer.sub_cnt 0 0)
  where
    go : (found : Option ℕ) → Outcome format slot found st (measure format slot found st)
    go none = refl
    go (some nsamp) = elim (Bool-cases (nsamp == 0 || ltb max_slot_samples nsamp)) [
      | inl e ↦ rw e (inl (refl, ground (arith, e)))
      | inr e ↦ rw e (inr (refl, ground (arith, e), peak-Covers format slot nsamp st.peak h))
    ]
