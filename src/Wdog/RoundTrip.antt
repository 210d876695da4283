-- ===== src/Wdog/RoundTrip.antt =====
-- What `wdog_init` holds, and what `wdog_exit` gives back
-- (kernel_driver/la9310shiva/la9310_wdog.c).
use la9310_driver.Base.{
  ℕ, zero, suc, ◌+◌, ◌-◌, ◌≡◌, ◌≢◌, refl, ◌∙◌, ◌⊎◌, inl, inr, Bool, true, false, not, Bool-cases,
  arith, Option, none, some, List, [], ◌∷◌, ◌==◌, if◌then◌else◌, ap, ℤ, pos, is_neg, is_zero,
}
use la9310_driver.Wdog.{Priv, Kernel, Calls, Driver, gpio_free, gpio_config}
use la9310_driver.Wdog.Gpio.{uses, SameRest, SameRest-refl, gpio_config_lem}
use la9310_driver.Wdog.Cdevs.{destroy_cdevs}
use la9310_driver.Wdog.Unwind.{IsTested, SameHeld, Added, create_cdevs_lem, destroy-SameHeld}
use la9310_driver.Wdog.Life.{
  free_gpios, release_all, fresh_from, init_found, init_step, init_loop, init_from, init_n,
  exit_from,
}

-- How often the watchdogs hold a GPIO.
total : List Priv → ℕ → ℕ
total [] n = 0
total (p ∷ ps) n = uses p n + total ps n

-- The GPIOs of the watchdogs are held in addition, and no interrupt is.
record Holds (ps : List Priv) (k k' : Kernel) : Type 0 where
  more : (n : ℕ) → k'.gpios n ≡ k.gpios n + total ps n
  rest : SameRest k k'

-- None of the watchdogs has its interrupt.
AllOff : List Priv → Type 0
AllOff [] = Unit {0}
AllOff (p ∷ ps) = (p.irq_status_flag ≡ false) × AllOff ps

SameRest-trans : {k l m : Kernel} → SameRest k l → SameRest l m → SameRest k m
SameRest-trans h g = record {
  irqs_kept = λ n. g.irqs_kept n ∙ h.irqs_kept n;
  cdevs_kept = λ n. g.cdevs_kept n ∙ h.cdevs_kept n;
  devices_kept = λ n. g.devices_kept n ∙ h.devices_kept n;
  regions_kept = g.regions_kept ∙ h.regions_kept;
  classes_kept = g.classes_kept ∙ h.classes_kept;
  blocks_kept = g.blocks_kept ∙ h.blocks_kept;
}

gpios_only : (k : Kernel) (f : ℕ → ℕ) → SameRest k (record k { gpios = f })
gpios_only k f = record {
  irqs_kept = λ n. refl;
  cdevs_kept = λ n. refl;
  devices_kept = λ n. refl;
  regions_kept = refl;
  classes_kept = refl;
  blocks_kept = refl;
}

-- One watchdog less.
freed_one :
    (p : Priv) (g t n : ℕ)
    → (if n == p.gpio_hrst
          then (if n == p.gpio_trst then g - 1 else g) - 1
          else (if n == p.gpio_trst then g - 1 else g))
        - t
      ≡ g - (uses p n + t)
freed_one p g t n = ground arith

free_gpios_lem :
    (ps : List Priv) (k : Kernel)
    → ((n : ℕ) → (free_gpios ps k).gpios n ≡ k.gpios n - total ps n) × SameRest k (free_gpios ps k)
unfolding free_gpios total
free_gpios_lem [] k = (λ n. omega arith, SameRest-refl k)
free_gpios_lem (p ∷ ps) k =
    let (less, rest) = free_gpios_lem ps (gpio_free p.gpio_hrst (gpio_free p.gpio_trst k)) in
    (
      λ n. rw (less n) (freed_one p (k.gpios n) (total ps n) n),
      SameRest-trans (gpios_only k _) rest,
    )

release_off : (ps : List Priv) (k : Kernel) → AllOff ps → release_all ps k ≡ free_gpios ps k
unfolding free_gpios release_all AllOff
release_off [] k h = refl
release_off (p ∷ ps) k (off, h) = rw off (release_off ps _ h)

-- The kernel with one block more, and with one block less.
abbrev malloc : Kernel → Kernel
malloc k = record k { blocks = k.blocks + 1 }

abbrev free : Kernel → Kernel
free k = record k { blocks = k.blocks - 1 }

-- What a watchdog driver holds is given back.
given_back :
    (ps : List Priv) (k k' k'' : Kernel)
    → Holds ps (malloc k) k'
    → SameHeld k' k''
    → SameHeld k (free (free_gpios ps k''))
given_back ps k k' k'' h same =
    let (less, rest) = free_gpios_lem ps k'' in
    let all = SameRest-trans h.rest (SameRest-trans same.rest_kept rest) in
    record {
      gpios_kept = λ n. omega (arith, less n, h.more n, same.gpios_kept n);
      rest_kept = record {
        irqs_kept = all.irqs_kept;
        cdevs_kept = all.cdevs_kept;
        devices_kept = all.devices_kept;
        regions_kept = all.regions_kept;
        classes_kept = all.classes_kept;
        blocks_kept = omega (arith, all.blocks_kept);
      };
    }

-- How a start ends: with the code 0 and a driver whose end gives back all that the start took, or
-- with another code, no driver, and no more held than before.
abbrev pub Started : ℕ → Kernel → ℤ × Driver → Type 0
Started n k t =
    ((t.0 ≡ pos 0)
      × ((d : Driver) × (exit_from n t.1.gdev t.1.kernel ≡ some d) × SameHeld k d.kernel))
    ⊎ ((t.0 ≢ pos 0) × SameHeld k t.1.kernel)

Started-choose :
    (n : ℕ) (k : Kernel) (c : Bool) (x y : ℤ × Driver)
    → (c ≡ true → Started n k x)
    → (c ≡ false → Started n k y)
    → Started n k (if c then x else y)
Started-choose n k true x y hx hy = hx refl
Started-choose n k false x y hx hy = hy refl

SameHeld-refl : (k : Kernel) → SameHeld k k
SameHeld-refl k = record { gpios_kept = λ n. refl; rest_kept = SameRest-refl k }

exit_started :
    (n : ℕ) (ps : List Priv) (k k' k'' : Kernel)
    → Holds ps (malloc k) k'
    → AllOff ps
    → Added n k' k''
    → (d : Driver) × (exit_from n (some ps) k'' ≡ some d) × SameHeld k d.kernel
unfolding exit_from
exit_started n ps k k' k'' h off added =
    rw (release_off ps (destroy_cdevs n k'') off)
      (_, refl, given_back ps k k' _ h (destroy-SameHeld n k' k'' added))

module _ (calls : Calls) (fresh : ℕ → Priv) where
  -- What a round of the loop gives, from the kernel `k`.
  abbrev OneSet : Kernel → Option Priv × Kernel → Type 0
  OneSet k (none, k') = Holds [] k k'
  OneSet k (some p, k') = Holds (p ∷ []) k k' × (p.irq_status_flag ≡ false)

  configured :
      (p : Priv) (k : Kernel)
      → p.irq_status_flag ≡ false
      → OneSet k
          (if is_zero (gpio_config calls p k).0 then some p else none, (gpio_config calls p k).1)
  unfolding total
  configured p k off =
      let (more, rest) = gpio_config_lem calls p k in
      elim (Bool-cases (is_zero (gpio_config calls p k).0)) [
        | inl e ↦ rw e (record { more = λ n. omega (arith, simp e at more n); rest = rest }, off)
        | inr e ↦ rw e (record { more = simp e at more; rest = rest })
      ]

  init_found-OneSet :
      (i : ℕ) (trst hrst : Option ℕ) (k : Kernel) → OneSet k (init_found calls fresh i trst hrst k)
  unfolding init_found total
  init_found-OneSet i none hrst k = record { more = λ n. omega arith; rest = SameRest-refl k }
  init_found-OneSet i (some t) none k = record { more = λ n. omega arith; rest = SameRest-refl k }
  init_found-OneSet i (some t) (some h) k = configured _ k refl

  -- What the loop gives.
  abbrev AllSet : Kernel → List Priv × Bool × Kernel → Type 0
  AllSet k (ps, done, k') = Holds ps k k' × AllOff ps

  init_step-AllSet :
      (k : Kernel) (r : Option Priv × Kernel) (rest : Kernel → List Priv × Bool × Kernel)
      → OneSet k r
      → ((k' : Kernel) → AllSet k' (rest k'))
      → AllSet k (init_step calls fresh r rest)
  unfolding init_step total AllOff
  init_step-AllSet k (none, k') rest h g = (h, tt)
  init_step-AllSet k (some p, k') rest (h, off) g =
      let (all, alloff) = g k' in
      (
        record {
          more = λ n. omega (arith, all.more n, h.more n);
          rest = SameRest-trans h.rest all.rest;
        },
        (off, alloff),
      )

  init_loop-AllSet : (n i : ℕ) (k : Kernel) → AllSet k (init_loop calls fresh n i k)
  unfolding init_loop total AllOff
  init_loop-AllSet zero i k = (record { more = λ n. omega arith; rest = SameRest-refl k }, tt)
  init_loop-AllSet (suc n) i k =
      init_step-AllSet k _ _ (init_found-OneSet i _ _ k) λ k'. init_loop-AllSet n (i + 1) k'

  init_from-Started :
      (n : ℕ) (k : Kernel) (r : List Priv × Bool × Kernel)
      → IsTested calls
      → AllSet (malloc k) r
      → Started n k (init_from calls fresh n r)
  unfolding init_from
  init_from-Started n k (ps, false, k') tested (h, off) =
      inr (λ e. cc e, given_back ps k k' k' h (SameHeld-refl k'))
  init_from-Started n k (ps, true, k') tested (h, off) = elim (create_cdevs_lem calls n k' tested) [
    | inl (rc, added) ↦ rw (ap is_neg rc) (inl (rc, exit_started n ps k k' _ h off added))
    | inr (neg, same) ↦
        rw neg (inr (λ e. absurd (cc (ap is_neg e, neg)), given_back ps k k' _ h same))
  ]

  -- Where the device tree has the node of the watchdog, and the calls that make the class and the
  -- devices give no error pointer, a start either succeeds with code 0, and the end of the driver then
  -- gives back every GPIO, interrupt, device, class, region and block that the start took, or gives
  -- another code and holds no more than before. Every other call may fail.
  pub init_n_lem :
      (n : ℕ) (d : Driver)
      → calls.find_node ≡ true
      → IsTested calls
      → Started n d.kernel (init_n calls fresh n d)
  unfolding init_n
  init_n_lem n d found tested =
      Started-choose n d.kernel (not calls.kmalloc) _ _
        (λ _. inr (λ e. cc e, SameHeld-refl d.kernel))
        λ _.
          Started-choose n d.kernel (not calls.find_node) _ _ (λ h. absurd (cc (found, h)))
            λ _. init_from-Started n d.kernel _ tested (init_loop-AllSet n 0 (malloc d.kernel))

  -- Where the node is missing the code is -ENODEV, but the block stays allocated and `wdog_gdev`
  -- points to it: later calls find a driver that was never set up.
  pub init_n_no_node :
      (n : ℕ) (d : Driver)
      → calls.kmalloc ≡ true
      → calls.find_node ≡ false
      → ((init_n calls fresh n d).1.gdev ≡ some (fresh_from fresh n 0))
        × ((init_n calls fresh n d).1.kernel.blocks ≡ d.kernel.blocks + 1)
  unfolding init_n
  init_n_no_node n d got missing = rw (got, missing) (refl, refl)
