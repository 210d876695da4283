-- ===== src/Vspa/Boot/Probe.antt =====
-- The boots of `rfnm_vspa_boot_selected` and `rfnm_vspa_probe_boot`
-- (kernel_driver/la9310shiva/la9310_vspa_registry.c).
use la9310_driver.Base.{
  ℕ, zero, suc, ◌+◌, ◌<◌, ◌≤◌, ◌≡◌, refl, ◌⊎◌, inl, inr, Bool, true, false, ◌&&◌, Bool-cases, some,
  arith, ltb, leb, ℤ, pos, negsuc, is_neg,
}
use la9310_driver.Vspa.Bus.{Bus, Dev, Sys}
use la9310_driver.Vspa.Registry.{Registry, enoent, provides, weight, cap_streaming_base}
use la9310_driver.Vspa.Registry.Reselect.{IsValid-select}
use la9310_driver.Vspa.Registry.Register.{IsValid, InRange}
use la9310_driver.Vspa.Boot.{
  boot_index, boot_selected, is_lighter, lightest_from, keep_selection, probe_reset, probe_boot,
}
use la9310_driver.Vspa.Boot.Outcome.{boot_image_locked_lem, Outcome}

-- Only the fields that a boot writes differ.
IsValid-run :
    (r : Registry) (running : ℤ) (gen : ℕ) (busy : Bool)
    → InRange r.cnt running
    → IsValid r
    → IsValid (record r { running = running; boot_gen = gen; loader_busy = busy })
IsValid-run r running gen busy h v = record {
  slots = v.slots;
  few = v.few;
  cached = v.cached;
  distinct = v.distinct;
  selected_in = v.selected_in;
  running_in = h;
}

module _ {b : Bus} where
  Outcome-IsValid :
      (idx : ℕ) (s : Sys b) (t : ℤ × Sys b)
      → IsValid s.reg
      → idx < s.reg.cnt
      → Outcome idx s t
      → IsValid t.1.reg
  Outcome-IsValid idx s t v inside (inl (_, _, same)) = rw same.reg_kept v
  Outcome-IsValid idx s t v inside (inr (_, inl (_, e, _))) =
      rw e (IsValid-run s.reg _ _ _ inside v)
  Outcome-IsValid idx s t v inside (inr (_, inr (_, e))) = rw e (IsValid-run s.reg _ _ _ refl v)

  -- How a boot of an index ends: -ENOENT for none, or else as the boot of that image.
  abbrev pub BootsIndex : ℤ → Sys b → ℤ × Sys b → Type 0
  BootsIndex (negsuc n) s t = t ≡ (enoent, s)
  BootsIndex (pos i) s t = Outcome i s t

  boot_index_lem :
      (z : ℤ) (s : Sys b)
      → IsValid s.reg
      → InRange s.reg.cnt z
      → (t : ℤ × Sys b) × (boot_index z s ≡ some t) × BootsIndex z s t × IsValid t.1.reg
  unfolding boot_index
  boot_index_lem (negsuc n) s v h = ((enoent, s), refl, refl, v)
  boot_index_lem (pos i) s v h =
      let (t, e, done) = boot_image_locked_lem i s v h in
      (t, e, done, Outcome-IsValid i s t v h done)

  -- A boot of the selected image keeps the invariant of the registry and never copies from a NULL
  -- blob. It gives -ENOENT where no image is selected, and else ends as the boot of that image.
  pub boot_selected_lem :
      (s : Sys b)
      → IsValid s.reg
      → (t : ℤ × Sys b) × (boot_selected true s ≡ some t)
        × BootsIndex s.reg.selected s t
        × IsValid t.1.reg
  unfolding boot_selected
  boot_selected_lem s v = boot_index_lem s.reg.selected s v v.selected_in

-- The index is the lightest provider of the streaming base among the first `n` images, the
-- earliest of those, or -1 if none provides it.
abbrev pub IsLightest : (ℕ → ℕ) → Registry → ℕ → ℤ → Type 0
IsLightest hweight32 r n (negsuc m) =
    (m ≡ 0) × ((j : ℕ) → j < n → provides r (pos j) cap_streaming_base ≡ false)
IsLightest hweight32 r n (pos i) =
    (i < n)
    × (provides r (pos i) cap_streaming_base ≡ true)
    × ((j : ℕ)
        → j < n
        → provides r (pos j) cap_streaming_base ≡ true
        → (weight hweight32 r i < weight hweight32 r j)
          ⊎ ((weight hweight32 r i ≡ weight hweight32 r j) × (i ≤ j)))

IsLightest-InRange :
    (hweight32 : ℕ → ℕ) (r : Registry) (n : ℕ) (z : ℤ) → IsLightest hweight32 r n z → InRange n z
IsLightest-InRange hweight32 r n (negsuc m) h = h.0
IsLightest-InRange hweight32 r n (pos i) h = h.0

below_suc : (j i : ℕ) → j < i + 1 → (j < i) ⊎ (j ≡ i)
below_suc j i h = omega arith

module _ (hweight32 : ℕ → ℕ) (r : Registry) where
  -- An image that is no provider, or not lighter than the best so far, is passed over.
  IsLightest-pass :
      (i : ℕ) (z : ℤ)
      → (provides r (pos i) cap_streaming_base && is_lighter hweight32 r i z) ≡ false
      → IsLightest hweight32 r i z
      → IsLightest hweight32 r (i + 1) z
  unfolding is_lighter
  IsLightest-pass i (negsuc m) e (z, none_before) = (
    z,
    λ j lt. elim (below_suc j i lt) [ inl l ↦ none_before j l | inr p ↦ rw p (ground (arith, e)) ],
  )
  IsLightest-pass i (pos k) e (lt, p, best) = (
    omega arith,
    p,
    λ j ltj q. elim (below_suc j i ltj) [
      | inl l ↦ best j l q
      | inr same ↦
          let heavier : ltb (weight hweight32 r i) (weight hweight32 r k) ≡ false =
            rest _ _ (rw (← same) q) e in
          rw same (ground (arith, heavier, lt))
    ],
  )
    where
      rest : (a b : Bool) → a ≡ true → (a && b) ≡ false → b ≡ false
      rest a b h k = ground (arith, h, k)

  -- A provider that is lighter than the best so far takes its place.
  IsLightest-take :
      (i : ℕ) (z : ℤ)
      → (provides r (pos i) cap_streaming_base && is_lighter hweight32 r i z) ≡ true
      → IsLightest hweight32 r i z
      → IsLightest hweight32 r (i + 1) (pos i)
  unfolding is_lighter
  IsLightest-take i (negsuc m) e (z, none_before) = (
    omega arith,
    ground (arith, e),
    λ j lt q. elim (below_suc j i lt) [
      | inl l ↦ absurd (cc (none_before j l, q))
      | inr p ↦ inr (rw p refl, omega arith)
    ],
  )
  IsLightest-take i (pos k) e (lt, p, best) =
      let (provider, lighter) = both _ _ e in
      (
        omega arith,
        provider,
        λ j ltj q. elim (below_suc j i ltj) [
          | inl l ↦ inl (ground (arith, best j l q, lighter))
          | inr same ↦ inr (rw same refl, omega arith)
        ],
      )
    where
      both : (a b : Bool) → (a && b) ≡ true → (a ≡ true) × (b ≡ true)
      both a b h = ground (arith, h)

  lightest_from-IsLightest :
      (k i n : ℕ) (z : ℤ)
      → i + k ≡ n
      → IsLightest hweight32 r i z
      → IsLightest hweight32 r n (lightest_from hweight32 r k i z)
  unfolding lightest_from
  lightest_from-IsLightest zero i n z e h = rw⁻¹ (all_done i n e) h
    where
      all_done : (i n : ℕ) → i + 0 ≡ n → i ≡ n
      all_done i n e = omega arith
  lightest_from-IsLightest (suc k) i n z e h =
      elim (Bool-cases (provides r (pos i) cap_streaming_base && is_lighter hweight32 r i z)) [
        | inl t ↦
            rw t
              (lightest_from-IsLightest k (i + 1) n (pos i) (omega arith) (IsLightest-take i z t h))
        | inr t ↦
            rw t (lightest_from-IsLightest k (i + 1) n z (omega arith) (IsLightest-pass i z t h))
      ]

  -- A selection survives a probe. Without one, a probe selects the lightest image that provides
  -- the streaming base, the earliest of those, and none only if no registered image provides it.
  pub keep_selection_lem :
      IsValid r
      → ((i : ℕ) → r.selected ≡ pos i → keep_selection hweight32 r r.selected ≡ pos i)
        × (is_neg r.selected ≡ true
            → IsLightest hweight32 r r.cnt (keep_selection hweight32 r r.selected))
        × InRange r.cnt (keep_selection hweight32 r r.selected)
  unfolding keep_selection
  keep_selection_lem v = go r.selected v.selected_in
    where
      go :
          (z : ℤ)
          → InRange r.cnt z
          → ((i : ℕ) → z ≡ pos i → keep_selection hweight32 r z ≡ pos i)
            × (is_neg z ≡ true → IsLightest hweight32 r r.cnt (keep_selection hweight32 r z))
            × InRange r.cnt (keep_selection hweight32 r z)
      go (negsuc n) h =
          let c =
            lightest_from-IsLightest r.cnt 0 r.cnt (negsuc 0) (omega arith)
              (refl, λ j lt. absurd (omega arith)) in
          (λ i e. absurd (cc e), λ _. c, IsLightest-InRange hweight32 r r.cnt _ c)
      go (pos i) h =
          let inside : leb r.cnt i ≡ false = ground (arith, h) in
          rw inside (λ j e. e, λ e. absurd (cc e), h)

  -- A probe keeps the invariant of the registry and never copies from a NULL blob. It gives
  -- -ENOENT where the selection it makes is none, and else ends as the boot of that image, from
  -- the state in which no image is running.
  pub probe_boot_lem :
      {b : Bus} (hw : b.Hw) (dev : Dev)
      → IsValid r
      → let z = keep_selection hweight32 r r.selected in
        let s : Sys b = record {
          hw = hw;
          dev = dev;
          reg = probe_reset z (record r { selected = z });
        } in
        (t : ℤ × Sys b) × (probe_boot hweight32 (record { hw = hw; dev = dev; reg = r }) ≡ some t)
        × BootsIndex z s t
        × IsValid t.1.reg
  unfolding probe_boot probe_reset
  probe_boot_lem {b = b} hw dev v =
      let (_, _, inside) = keep_selection_lem v in go (keep_selection hweight32 r r.selected) inside
    where
      go :
          (z : ℤ)
          → InRange r.cnt z
          → (t : ℤ × Sys b) × (boot_index z
                (record { hw = hw; dev = dev; reg = probe_reset z (record r { selected = z }) })
              ≡ some t)
            × BootsIndex z
                (record { hw = hw; dev = dev; reg = probe_reset z (record r { selected = z }) })
                t
            × IsValid t.1.reg
      go (negsuc n) h = boot_index_lem (negsuc n) _ (IsValid-select r _ h v) h
      go (pos i) h =
          boot_index_lem (pos i) _
            (IsValid-run (record r { selected = pos i }) _ _ _ refl (IsValid-select r _ h v)) h
