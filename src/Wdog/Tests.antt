-- ===== src/Wdog/Tests.antt =====
-- The properties of the watchdog at a concrete kernel.
use la9310_driver.Base.{
  ◌==◌, ℕ, ◌≡◌, refl, true, false, none, some, [], ◌∷◌, arith, pos, negsuc, is_zero, if◌then◌else◌,
}
use la9310_driver.Wdog.Gpio.{one_if}
use la9310_driver.Wdog.{
  null, valid, deregister, note_msi, get_wdog_msi, Priv, Kernel, Calls, Driver, register, dev_ioctl,
  dev_poll,
}
use la9310_driver.Wdog.Events.{interrupt, polled, run, pending, poll-run}
use la9310_driver.Wdog.Irq.{IsHeld, reregister_lem, dev_ioctl-IsHeld}
use la9310_driver.Wdog.Life.{init_n}
use la9310_driver.Wdog.RoundTrip.{Started, init_n_lem}

-- A kernel of which nothing is held.
abbrev idle : Kernel
idle = record {
  gpios = λ n. 0;
  irqs = λ n. 0;
  cdevs = λ n. 0;
  devices = λ n. 0;
  regions = 0;
  classes = 0;
  blocks = 0;
  level = λ n. 0;
  wdog_dev_class = null;
  wdog_msi_irq = 40;
}

-- All calls succeed but the request of the second GPIO.
abbrev failing_calls : Calls
failing_calls = record {
  request_irq = λ irq. pos 0;
  gpio_request = λ n. if is_zero (pos n) then negsuc 15 else pos 0;
  gpio_direction_output = λ n. pos 0;
  kmalloc = true;
  find_node = true;
  named_trst = λ i. some 5;
  named_hrst = λ i. some 0;
  alloc_chrdev_region = pos 0;
  class_create = valid;
  cdev_add = λ i. pos 0;
  device_create = λ i. valid;
}

abbrev good_calls : Calls
good_calls = record failing_calls { named_hrst = λ i. some 6 }

abbrev watchdog : Priv
watchdog = record {
  irq = 0;
  irq_status_flag = false;
  gpio_hrst = 0;
  gpio_trst = 5;
  wdog_id = 0;
  modem_status = pos 1;
  domain_nr = negsuc 0;
  event_status = false;
}

abbrev unloaded : Driver
unloaded = record { gdev = none; kernel = idle }

abbrev garbage : ℕ → Priv
garbage i = watchdog

init_n_lem_example : Started 1 idle (init_n good_calls garbage 1 unloaded)
init_n_lem_example =
    init_n_lem good_calls garbage 1 unloaded refl
      (record { class_tested = λ e. cc e; device_tested = λ i e. cc e })

nothing-IsHeld : IsHeld (λ n. 0) watchdog idle
nothing-IsHeld = record { held = λ n. omega arith; own = λ e. absurd (cc e) }

dev_ioctl-IsHeld_example :
    let (rc, reply, p', k') = dev_ioctl good_calls true true register watchdog idle in
    IsHeld (λ n. 0) p' k'
dev_ioctl-IsHeld_example =
    dev_ioctl-IsHeld good_calls (λ n. 0) true true register watchdog idle nothing-IsHeld

-- The handler is held on the interrupt 40.
abbrev registered : Kernel
registered = record idle { irqs = λ n. one_if (n == 40) }

abbrev registered_watchdog : Priv
registered_watchdog = record watchdog { irq = 40; irq_status_flag = true }

registered-IsHeld : IsHeld (λ n. 0) registered_watchdog registered
unfolding get_wdog_msi
registered-IsHeld = record { held = λ n. omega arith; own = λ e. refl }

reregister_lem_example :
    let (rc, reply, p', k') =
      dev_ioctl good_calls true true register registered_watchdog (note_msi 41 registered) in
    let (rc', reply', p'', k'') = dev_ioctl good_calls true true deregister p' k' in
    (rc ≡ pos 0)
    × (rc' ≡ pos 0)
    × (p''.irq_status_flag ≡ false)
    × (k''.irqs 40 ≡ 1)
    × (k''.irqs 41 ≡ 0)
reregister_lem_example =
    reregister_lem good_calls (λ n. 0) registered_watchdog registered 41 registered-IsHeld refl refl
      (omega arith) (omega arith)

poll-run_example :
    (dev_poll (run good_calls idle (interrupt ∷ polled ∷ interrupt ∷ []) watchdog)).0
    ≡ pending false (interrupt ∷ polled ∷ interrupt ∷ [])
poll-run_example = poll-run good_calls idle (interrupt ∷ polled ∷ interrupt ∷ []) watchdog
