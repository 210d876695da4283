-- ===== src/Vspa/Boot/Outcome.antt =====
-- The outcomes of `rfnm_vspa_boot_image_locked`
-- (kernel_driver/la9310shiva/la9310_vspa_registry.c).
use la9310_driver.Base.{
  ℕ, zero, suc, ◌+◌, ◌%◌, ◌^◌, ◌<◌, ◌≡◌, ◌≢◌, refl, ◌∙◌, ap, ◌⊎◌, inl, inr, Bool, [], ◌∷◌, true,
  false, not, Bool-cases, some, List, if◌then◌else◌, ℤ, pos, negsuc, is_neg, is_zero,
}
use la9310_driver.Vspa.Bus.{◌>>=◌, ◌>>◌, reg_read, status_reg, Bus, Dev, Sys, running_idle}
use la9310_driver.Vspa.Bus.Rules.{
  SameFields, SameFields-trans, SameFields-refl, After, After-bind, After-then, After-if,
  After-return, After-keep_then, After-modify, After-modify_reg, Keeps, Keeps-bind, Keeps-then,
  Keeps-if, Keeps-return, reg_read-Keeps, reg_write-Keeps, usleep-Keeps, alloc-Keeps,
  set_host_ready-Keeps, get_dev-Keeps, modify-KeepsReg, Preserves, Preserves-bind, Preserves-then,
  Preserves-if, Preserves-return, Preserves-of_Keeps, modify-Preserves, reg_read-Preserves,
  usleep-Preserves,
}
use la9310_driver.Vspa.Registry.{Registry, Entry, entry, ebusy, enodev}
use la9310_driver.Vspa.Registry.Register.{IsValid}
use la9310_driver.Vspa.Startup.{startup}
use la9310_driver.Vspa.Startup.Outcome.{startup_lem}
use la9310_driver.Vspa.Loader.{load_vspa_image}
use la9310_driver.Vspa.Loader.Outcome.{load_vspa_image-KeepsReg}
use la9310_driver.Vspa.Boot.{
  park, wait_parked, claim, read_all, swap_forensics, boot_tail, boot_fail, mark_booted,
  start_loaded, load_and_start, stage_and_load, boot_image_locked, park_tries,
}

-- The registry after a boot of `idx` that succeeded, and after one that failed.
abbrev pub booted_reg : ℕ → Registry → Registry
booted_reg idx r = record r {
  running = pos idx;
  boot_gen = (r.boot_gen + 1) % 2 ^ 32;
  loader_busy = false;
}

abbrev pub failed_reg : Registry → Registry
failed_reg r = record r { running = negsuc 0; loader_busy = false }

abbrev pub claimed_reg : Registry → Registry
claimed_reg r = record r { loader_busy = true }

-- What a boot does once it has claimed the core.
abbrev pub Claimed : {b : Bus} → ℕ → Registry → ℤ → Sys b → Type 0
Claimed idx r rc s =
    ((rc ≡ pos 0) × (s.reg ≡ booted_reg idx r) × (s.dev.state ≡ running_idle))
    ⊎ ((rc ≢ pos 0) × (s.reg ≡ failed_reg r))

-- The device runs, and the registry is `r`.
abbrev Runs : Registry → Dev → Registry → Type 0
Runs r d r' = (r' ≡ r) × (d.state ≡ running_idle)

neg-nonzero : (rc : ℤ) → is_neg rc ≡ true → rc ≢ pos 0
neg-nonzero rc h e = cc

not_zero-nonzero : (rc : ℤ) → not (is_zero rc) ≡ true → rc ≢ pos 0
not_zero-nonzero rc h e = cc

Claimed-choose :
    {b : Bus} (idx : ℕ) (r : Registry) (c : Bool) (x y : ℤ × Sys b)
    → Claimed idx r x.0 x.1
    → Claimed idx r y.0 y.1
    → Claimed idx r (if c then x else y).0 (if c then x else y).1
Claimed-choose idx r true x y hx hy = hx
Claimed-choose idx r false x y hx hy = hy

module _ {b : Bus} where
  boot_tail-Preserves : (r : Registry) → Preserves (λ (s : Sys b). Runs r s.dev s.reg) boot_tail
  unfolding boot_tail
  boot_tail-Preserves r =
      let I : Sys b → Type 0 = λ s. Runs r s.dev s.reg in
      Preserves-bind I _ _ (Preserves-of_Keeps (Runs r) _ get_dev-Keeps) λ dev.
        Preserves-then I _ _
          (Preserves-if I dev.stats_ready _ _ (Preserves-return I tt) (
            Preserves-bind I _ _ (Preserves-of_Keeps (Runs r) _ alloc-Keeps)
              λ got. modify-Preserves (Runs r) _ λ d r' i. i))
          (Preserves-then I _ _ (Preserves-of_Keeps (Runs r) _ (reg_write-Keeps _ _)) (
            Preserves-then I _ _ (Preserves-of_Keeps (Runs r) _ (reg_write-Keeps _ _)) (
              Preserves-then I _ _ (Preserves-of_Keeps (Runs r) _ (reg_write-Keeps _ _))
                (Preserves-of_Keeps (Runs r) _ (set_host_ready-Keeps _)))))

  read_all-Keeps : (ats : List ℕ) → Keeps (read_all {b = b} ats)
  unfolding read_all
  read_all-Keeps [] = Keeps-return tt
  read_all-Keeps (at ∷ ats) = Keeps-then _ _ (reg_read-Keeps _) (read_all-Keeps ats)

  swap_forensics-Keeps : Keeps (swap_forensics {b = b})
  unfolding swap_forensics
  swap_forensics-Keeps = Keeps-then _ _ (read_all-Keeps _) (
      Keeps-then _ _ (usleep-Keeps _) (
        Keeps-bind _ _ (reg_read-Keeps _) λ mbox.
          Keeps-then _ _ (Keeps-if _ _ _ (read_all-Keeps _) (Keeps-return tt)) (read_all-Keeps _)))

  pub boot_fail-Claimed :
      (idx : ℕ) (r : Registry) (rc : ℤ) (s : Sys b)
      → rc ≢ pos 0
      → failed_reg s.reg ≡ failed_reg r
      → After (Claimed idx r) (boot_fail rc) s
  unfolding boot_fail
  boot_fail-Claimed idx r rc s ne e = After-modify_reg (Claimed idx r) _ _ s (
      After-keep_then _ (Claimed idx r) _ _ _ (read_all-Keeps _) (SameFields-refl _)
        λ s' h. After-return (Claimed idx r) rc s' (inr (ne, h.reg_kept ∙ e)))

  mark_booted-Claimed :
      (idx : ℕ) (e : Entry) (r : Registry) (s : Sys b)
      → booted_reg idx s.reg ≡ booted_reg idx r
      → s.dev.state ≡ running_idle
      → After (Claimed idx r) (mark_booted idx e) s
  unfolding mark_booted
  mark_booted-Claimed idx e r s hb run =
      let P = Claimed {b = b} idx r in
      After-modify P _ _ s (
        After-then boot_tail P _ _ (
          let (same, state) = (boot_tail-Preserves s.reg).preserves _ (refl, run) in
          After-modify_reg P _ _ _
            (After-return P _ _ (inl (refl, ap (booted_reg idx) same ∙ hb, state)))))

  start_loaded-Claimed :
      (idx : ℕ) (e : Entry) (r : Registry) (s : Sys b)
      → failed_reg s.reg ≡ failed_reg r
      → booted_reg idx s.reg ≡ booted_reg idx r
      → After (Claimed idx r) (start_loaded idx e) s
  unfolding start_loaded
  start_loaded-Claimed idx e r s hf hb =
      let P = Claimed {b = b} idx r in
      After-keep_then _ P _ s s (read_all-Keeps _) (SameFields-refl s)
        λ s' h. started s' (ap failed_reg h.reg_kept ∙ hf) (ap (booted_reg idx) h.reg_kept ∙ hb)
    where
      started :
          (s : Sys b)
          → failed_reg s.reg ≡ failed_reg r
          → booted_reg idx s.reg ≡ booted_reg idx r
          → After
              (Claimed idx r)
              (startup >>= λ rc.
                if not (is_zero rc) then swap_forensics >> boot_fail rc else mark_booted idx e)
              s
      started s hf hb =
          let P = Claimed {b = b} idx r in
          let s₁ = (startup s).1 in
          let rc = (startup s).0 in
          let (same, ends) = startup_lem s in
          After-bind startup P _ s (
            After-if P (not (is_zero rc)) _ _ s₁
              (λ h. After-keep_then _ P _ s₁ s₁ swap_forensics-Keeps (SameFields-refl s₁) λ s₂ k.
                boot_fail-Claimed idx r rc s₂ (not_zero-nonzero rc h)
                  (ap failed_reg (k.reg_kept ∙ same) ∙ hf))
              λ h. mark_booted-Claimed idx e r s₁ (ap (booted_reg idx) same ∙ hb) (elim ends [
                | inl (_, runs, _, _) ↦ runs.state_running
                | inr (code, _) ↦ absurd (cc (ap is_zero code, h))
              ]))

  load_and_start-Claimed :
      (idx : ℕ) (e : Entry) (mem : ℕ → ℕ) (r : Registry) (s : Sys b)
      → failed_reg s.reg ≡ failed_reg r
      → booted_reg idx s.reg ≡ booted_reg idx r
      → After (Claimed idx r) (load_and_start idx e mem) s
  unfolding load_and_start
  load_and_start-Claimed idx e mem r s hf hb =
      let P = Claimed {b = b} idx r in
      let same = (load_vspa_image-KeepsReg mem e.size).keeps_reg s in
      let s₁ = (load_vspa_image mem e.size s).1 in
      let rc = (load_vspa_image mem e.size s).0 in
      After-bind _ P _ s (
        After-if P (is_neg rc) _ _ s₁
          (λ h. boot_fail-Claimed idx r rc s₁ (neg-nonzero rc h) (ap failed_reg same ∙ hf))
          λ _.
            start_loaded-Claimed idx e r s₁ (ap failed_reg same ∙ hf)
              (ap (booted_reg idx) same ∙ hb))

  -- The claim of the core changes nothing in the registry but the busy flag.
  pub claim-reg : (s : Sys b) → (claim s).1.reg ≡ claimed_reg s.reg
  unfolding claim
  claim-reg s = After.holds (go s)
    where
      go : (s : Sys b) → After (λ _ s'. s'.reg ≡ claimed_reg s.reg) claim s
      go s =
          let P : Unit {0} → Sys b → Type 0 = λ _ s'. s'.reg ≡ claimed_reg s.reg in
          After-modify_reg P _ _ s (
            After-keep_then _ P _ _ _ (usleep-Keeps _) (SameFields-refl _) λ s₁ h₁.
              After-keep_then _ P _ _ s₁ (reg_write-Keeps _ _) h₁ λ s₂ h₂.
                After-keep_then _ P _ _ s₂ (reg_write-Keeps _ _) h₂ λ s₃ h₃.
                  After-keep_then _ P _ _ s₃ (reg_write-Keeps _ _) h₃
                    λ s₄ h₄. record { holds = (modify-KeepsReg _).keeps_reg s₄ ∙ h₄.reg_kept })

  pub stage_and_load-Claimed :
      (idx : ℕ) (e : Entry) (d : List ℕ) (r : Registry) (s : Sys b)
      → s.reg ≡ claimed_reg r
      → (t : ℤ × Sys b) × (stage_and_load idx e (some d) s ≡ some t) × Claimed idx r t.0 t.1
  unfolding stage_and_load
  stage_and_load-Claimed idx e d r s h = (
    _,
    refl,
    Claimed-choose idx r s.dev.overlay_region _ _
        (After.holds (load_and_start-Claimed idx e _ r s (ap failed_reg h) (ap (booted_reg idx) h)))
        (After.holds (boot_fail-Claimed idx r enodev s (λ q. cc) (ap failed_reg h))),
  )

  -- The wait for the core to park reads registers and sleeps, and so leaves the driver's fields.
  park-Keeps : (tries : ℕ) → Keeps (park {b = b} tries)
  unfolding park
  park-Keeps zero = Keeps-return tt
  park-Keeps (suc tries) = Keeps-bind _ _ (reg_read-Keeps _) λ status.
      Keeps-if _ _ _ (Keeps-return tt) (Keeps-then _ _ (usleep-Keeps _) (park-Keeps tries))

  pub wait_parked-Keeps : Keeps (wait_parked {b = b})
  unfolding wait_parked
  wait_parked-Keeps =
      Keeps-then _ _ (park-Keeps park_tries)
        (Keeps-bind _ _ (reg_read-Keeps _) λ status. Keeps-return _)

  module _ (J : b.Hw → Type 0) (reads : (at : ℕ) (hw : b.Hw) → J hw → J (b.ioread at hw).1)
      (sleeps : (us : ℕ) (hw : b.Hw) → J hw → J (b.sleep us hw)) where
    park-Preserves : (tries : ℕ) → Preserves (λ (s : Sys b). J s.hw) (park tries)
    unfolding park
    park-Preserves zero = Preserves-return _ tt
    park-Preserves (suc tries) = Preserves-bind _ _ _ (reg_read-Preserves J _ (reads _)) λ status.
        Preserves-if _ _ _ _ (Preserves-return _ tt)
          (Preserves-then _ _ _ (usleep-Preserves J _ (sleeps _)) (park-Preserves tries))

    wait_parked-Preserves : Preserves (λ (s : Sys b). J s.hw) wait_parked
    unfolding wait_parked
    wait_parked-Preserves =
        Preserves-then _ _ _ (park-Preserves park_tries)
          (Preserves-bind _ _ _ (reg_read-Preserves J _ (reads _)) λ status. Preserves-return _ _)

  -- What a boot does: it waits in vain, or the core parks and it claims the core.
  abbrev pub Outcome : ℕ → Sys b → ℤ × Sys b → Type 0
  Outcome idx s t =
      (((wait_parked s).0 ≡ false) × (t.0 ≡ ebusy) × SameFields s t.1)
      ⊎ (((wait_parked s).0 ≡ true) × Claimed idx s.reg t.0 t.1)

  -- A boot of a registered image never copies from a NULL blob and always comes to an end, for
  -- every behaviour of the hardware, in one of three ways. If the core does not park, with
  -- -EBUSY, and the driver's fields and the registry stay. If it parks, either with code 0, and the
  -- image is the running one, the boot count goes up by one (modulo 2^32), the device runs and the
  -- loader is free; or with another code, and no image is running and the loader is free.
  pub boot_image_locked_lem :
      (idx : ℕ) (s : Sys b)
      → IsValid s.reg
      → idx < s.reg.cnt
      → (t : ℤ × Sys b) × (boot_image_locked idx s ≡ some t) × Outcome idx s t
  unfolding boot_image_locked
  boot_image_locked_lem idx s v inside =
      let c = v.cached idx inside in
      let kept = wait_parked-Keeps.keeps s in
      let s₁ = (wait_parked s).1 in
      let (t, e, done) =
        stage_and_load-Claimed idx (entry s.reg idx) c.image s.reg (claim s₁).1
          (claim-reg s₁ ∙ ap claimed_reg kept.reg_kept) in
      elim (Bool-cases (wait_parked s).0) [
        | inl up ↦ rw (up, c.held) (t, e, inr (refl, done))
        | inr down ↦
            let again = (reg_read-Keeps status_reg).keeps s₁ in
            rw down (
              (ebusy, (reg_read status_reg s₁).1),
              refl,
              inl (refl, refl, SameFields-trans kept again),
            )
      ]

  -- If the core does not park in time, the boot gives -EBUSY and leaves the hardware alone: any
  -- property of the hardware that register reads and delays keep still holds afterwards, so no
  -- register was written and the previous image runs on.
  pub boot_image_locked_busy :
      (J : b.Hw → Type 0)
      → ((at : ℕ) (hw : b.Hw) → J hw → J (b.ioread at hw).1)
      → ((us : ℕ) (hw : b.Hw) → J hw → J (b.sleep us hw))
      → (idx : ℕ) (s : Sys b) → (wait_parked s).0 ≡ false
      → J s.hw
      → (s' : Sys b) × (boot_image_locked idx s ≡ some (ebusy, s')) × J s'.hw
  unfolding boot_image_locked
  boot_image_locked_busy J reads sleeps idx s down j =
      let s₁ = (wait_parked s).1 in
      let kept = (wait_parked-Preserves J reads sleeps).preserves s j in
      rw down (
        (reg_read status_reg s₁).1,
        refl,
        (reg_read-Preserves J status_reg (reads status_reg)).preserves s₁ kept,
      )
