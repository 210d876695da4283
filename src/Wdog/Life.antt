-- ===== src/Wdog/Life.antt =====
-- The start and the end of the watchdog driver (`wdog_init` and `wdog_exit` of
-- kernel_driver/la9310shiva/la9310_wdog.c).
use la9310_driver.Base.{
  ℕ, zero, suc, ◌+◌, ◌-◌, Bool, true, false, not, Option, none, some, List, [], ◌∷◌, if◌then◌else◌,
  ℤ, is_neg, is_zero,
}
use la9310_driver.Wdog.{
  Priv, Kernel, Calls, Driver, drop_one, gpio_free, gpio_config, wdog_id_max, enomem, enodev,
  einval, not_ready, domain_nr_invalid,
}
use la9310_driver.Wdog.Cdevs.{create_cdevs, destroy_cdevs}

-- The loop at the label `err` of wdog_init.
unfoldable pub free_gpios : List Priv → Kernel → Kernel
free_gpios [] k = k
free_gpios (p ∷ ps) k = free_gpios ps (gpio_free p.gpio_hrst (gpio_free p.gpio_trst k))

-- The loop of wdog_exit.
unfoldable pub release_all : List Priv → Kernel → Kernel
release_all [] k = k
release_all (p ∷ ps) k =
    let k' = gpio_free p.gpio_hrst (gpio_free p.gpio_trst k) in
    release_all ps (if p.irq_status_flag then record k' { irqs = drop_one p.irq k'.irqs } else k')

-- The array as kmalloc gave it, from watchdog `i`, `n` left.
unfoldable pub fresh_from : (ℕ → Priv) → ℕ → ℕ → List Priv
fresh_from fresh zero i = []
fresh_from fresh (suc n) i = fresh i ∷ fresh_from fresh n (i + 1)

module _ (calls : Calls) (fresh : ℕ → Priv) where
  -- A round of the loop of wdog_init once its GPIOs are known; `fresh` is what kmalloc gave.
  unfoldable pub init_found : ℕ → Option ℕ → Option ℕ → Kernel → Option Priv × Kernel
  init_found i none hrst k = (none, k)
  init_found i (some trst) none k = (none, k)
  init_found i (some trst) (some hrst) k =
      let p : Priv = record (fresh i) {
        gpio_trst = trst;
        gpio_hrst = hrst;
        irq_status_flag = false;
        wdog_id = i;
        modem_status = not_ready;
        domain_nr = domain_nr_invalid;
      } in
      let (rc, k') = gpio_config calls p k in (if is_zero rc then some p else none, k')

  abbrev pub init_one : ℕ → Kernel → Option Priv × Kernel
  init_one i k = init_found i (calls.named_trst i) (calls.named_hrst i) k

  -- What the loop gives: the watchdogs that were set up, and if it got through.
  unfoldable pub init_step :
      Option Priv × Kernel → (Kernel → List Priv × Bool × Kernel) → List Priv × Bool × Kernel
  init_step (none, k) rest = ([], false, k)
  init_step (some p, k) rest = let (ps, done, k') = rest k in (p ∷ ps, done, k')

  unfoldable pub init_loop : ℕ → ℕ → Kernel → List Priv × Bool × Kernel
  init_loop zero i k = ([], true, k)
  init_loop (suc n) i k = init_step (init_one i k) (init_loop n (i + 1))

  -- The label `err`.
  abbrev pub init_fail : ℤ → List Priv → Kernel → ℤ × Driver
  init_fail rc ps k =
      let k' = free_gpios ps k in
      (rc, record { gdev = none; kernel = record k' { blocks = k'.blocks - 1 } })

  -- From the loop on.
  unfoldable pub init_from : ℕ → List Priv × Bool × Kernel → ℤ × Driver
  init_from n (ps, false, k) = init_fail einval ps k
  init_from n (ps, true, k) =
      let (rc, k') = create_cdevs calls n k in
      if is_neg rc then init_fail rc ps k' else (rc, record { gdev = some ps; kernel = k' })

  -- wdog_init, for `n` watchdogs.
  unfoldable pub init_n : ℕ → Driver → ℤ × Driver
  init_n n d =
      let k : Kernel = record (d.kernel) { blocks = d.kernel.blocks + 1 } in
      if not calls.kmalloc
      then (enomem, d)
      else if not calls.find_node
      then (enodev, record { gdev = some (fresh_from fresh n 0); kernel = k })
      else init_from n (init_loop n 0 k)

  abbrev pub wdog_init : Driver → ℤ × Driver
  wdog_init = init_n wdog_id_max

-- wdog_exit, for `n` watchdogs; `none` is a NULL `wdog_gdev`.
unfoldable pub exit_from : ℕ → Option (List Priv) → Kernel → Option Driver
exit_from n none k = none
exit_from n (some ps) k =
    let k' = release_all ps (destroy_cdevs n k) in
    some (record { gdev = some ps; kernel = record k' { blocks = k'.blocks - 1 } })

abbrev pub wdog_exit : Driver → Option Driver
wdog_exit d = exit_from wdog_id_max d.gdev d.kernel
