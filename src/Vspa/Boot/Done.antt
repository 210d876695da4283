-- ===== src/Vspa/Boot/Done.antt =====
-- What a boot with code 0 leaves in the registry, for whatever registry it starts from
-- (kernel_driver/la9310shiva/la9310_vspa_registry.c).
use la9310_driver.Base.{
  ℕ, ◌<◌, ◌≡◌, refl, sym, ap, ◌∙◌, inl, inr, true, false, if-intro, Option, none, some, List, leb,
  ℤ, pos, negsuc, arith,
}
use la9310_driver.Vspa.Bus.{Bus, Sys, reg_read, status_reg}
use la9310_driver.Vspa.Registry.{Registry, entry, enodev, ebusy}
use la9310_driver.Vspa.Boot.{
  wait_parked, claim, boot_fail, stage_and_load, boot_image_locked, boot_index, boot_selected,
  keep_selection, probe_reset, probe_boot,
}
use la9310_driver.Vspa.Bus.Rules.{After}
use la9310_driver.Vspa.Boot.Outcome.{
  boot_fail-Claimed, failed_reg, Claimed, booted_reg, claimed_reg, wait_parked-Keeps, claim-reg,
  stage_and_load-Claimed,
}

module _ {b : Bus} where
  -- With code 0 the image `idx` was booted from the registry `r`.
  abbrev Booted : ℕ → Registry → Option (ℤ × Sys b) → Type 0
  Booted idx r res = (t : Sys b) → res ≡ some (pos 0, t) → t.reg ≡ booted_reg idx r

  Claimed-Booted :
      (idx : ℕ) (r : Registry) (u : ℤ × Sys b) → Claimed idx r u.0 u.1 → Booted idx r (some u)
  Claimed-Booted idx r u (inl (_, h, _)) t e = cc (ap (λ (x : ℤ × Sys b). x.1.reg) (same u t e), h)
    where
      same : (u : ℤ × Sys b) (t : Sys b) → some u ≡ some (pos 0, t) → u ≡ (pos 0, t)
      same u t e = cc
  Claimed-Booted idx r u (inr (bad, _)) t e = absurd (bad (code u t e))
    where
      code : (u : ℤ × Sys b) (t : Sys b) → some u ≡ some (pos 0, t) → u.0 ≡ pos 0
      code u t e = cc

  stage_and_load-Booted :
      (idx : ℕ) (blob : Option (List ℕ)) (r : Registry) (s : Sys b)
      → s.reg ≡ claimed_reg r
      → Booted idx r (stage_and_load idx (entry r idx) blob s)
  unfolding stage_and_load
  stage_and_load-Booted idx none r s h =
      if-intro (Booted idx r) s.dev.overlay_region none (some (boot_fail enodev s))
        (λ _ t e. absurd (cc e))
        λ _.
          Claimed-Booted idx r (boot_fail enodev s)
            (After.holds (boot_fail-Claimed idx r enodev s (λ q. cc) (ap failed_reg h)))
  stage_and_load-Booted idx (some d) r s h = λ t e.
      let (u, q, done) = stage_and_load-Claimed idx (entry r idx) d r s h in
      Claimed-Booted idx r u done t (cc (q, e))

  boot_image_locked-Booted : (idx : ℕ) (s : Sys b) → Booted idx s.reg (boot_image_locked idx s)
  unfolding boot_image_locked
  boot_image_locked-Booted idx s =
      let s₁ = (wait_parked s).1 in
      let kept = wait_parked-Keeps.keeps s in
      if-intro (Booted idx s.reg) (wait_parked s).0 _ (some (ebusy, (reg_read status_reg s₁).1))
        (λ _.
          stage_and_load-Booted idx (entry s.reg idx).blob s.reg (claim s₁).1
            (claim-reg s₁ ∙ ap claimed_reg kept.reg_kept))
        λ _ t e. absurd (cc e)

  -- A boot of the selected image with code 0 has booted an image, the selected one.
  pub boot_selected_done :
      (s t : Sys b)
      → boot_selected true s ≡ some (pos 0, t)
      → (i : ℕ) × (s.reg.selected ≡ pos i) × (t.reg ≡ booted_reg i s.reg)
  unfolding boot_selected boot_index
  boot_selected_done s t e = go s.reg.selected e
    where
      go :
          (z : ℤ)
          → boot_index z s ≡ some (pos 0, t)
          → (i : ℕ) × (z ≡ pos i) × (t.reg ≡ booted_reg i s.reg)
      go (negsuc n) e = absurd (cc e)
      go (pos i) e = (i, refl, boot_image_locked-Booted i s t e)

  -- A probe with code 0 has booted the selected image, where the selection is the index of one.
  pub probe_boot_done :
      (hweight32 : ℕ → ℕ) (s t : Sys b) (i : ℕ)
      → s.reg.selected ≡ pos i
      → i < s.reg.cnt
      → probe_boot hweight32 s ≡ some (pos 0, t)
      → t.reg ≡ booted_reg i (record (s.reg) { running = negsuc 0; selected = pos i })
  unfolding probe_boot keep_selection probe_reset boot_index
  probe_boot_done hweight32 s t i h lt e =
      let inside : leb s.reg.cnt i ≡ false = ground (arith, lt) in
      let s' : Sys b = record s { reg = record (s.reg) { running = negsuc 0; selected = pos i } } in
      let chosen : probe_boot hweight32 s ≡ boot_image_locked i s' = rw (h, inside) refl in
      boot_image_locked-Booted i s' t (sym chosen ∙ e)
