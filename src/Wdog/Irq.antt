-- ===== src/Wdog/Irq.antt =====
-- The interrupt of a watchdog over any sequence of commands
-- (`wdog_dev_ioctl` of kernel_driver/la9310shiva/la9310_wdog.c).
use la9310_driver.Base.{
  ℕ, ◌+◌, ◌-◌, ◌≢◌, pos, ◌≡◌, refl, inl, inr, Bool, true, false, ◌||◌, ◌&&◌, Bool-cases, arith,
  ◌==◌, if◌then◌else◌, ℤ, is_neg,
}
use la9310_driver.Wdog.{
  note_msi, Priv, Kernel, Calls, Command, register, deregister, reset, get_status, get_domain,
  other, Reply, put, drop_one, get_wdog_msi, register_irq, deregister_irq, reset_modem, answer,
  run_command, dev_ioctl, is_other,
}
use la9310_driver.Wdog.Gpio.{one_if}

-- Over what was held before (`base`), the handler of the watchdog's interrupt is held once if the
-- flag is set, and not at all otherwise. An interrupt that is held is the one that the last probe noted.
pub record IsHeld (base : ℕ → ℕ) (p : Priv) (k : Kernel) : Type 0 where
  pub held : (n : ℕ) → k.irqs n ≡ base n + one_if (p.irq_status_flag && n == p.irq)
  pub own : p.irq_status_flag ≡ true → p.irq ≡ get_wdog_msi p.wdog_id k

module _ (calls : Calls) (base : ℕ → ℕ) where
  same_irq :
      (flag : Bool) (x y n : ℕ)
      → (flag ≡ true → x ≡ y)
      → one_if (flag && n == x) ≡ one_if (flag && n == y)
  same_irq true x y n h = rw (h refl) refl
  same_irq false x y n h = refl

  -- The interrupt of the watchdog is looked up anew.
  looked_up :
      (p : Priv) (k : Kernel)
      → IsHeld base p k
      → IsHeld base (record p { event_status = false; irq = get_wdog_msi p.wdog_id k }) k
  looked_up p k h = record {
    held = λ n.
        omega
          (arith, same_irq p.irq_status_flag p.irq (get_wdog_msi p.wdog_id k) n h.own, h.held n);
    own = λ _. refl;
  }

  added :
      (p : Priv) (k : Kernel) (irq : ℕ)
      → IsHeld base p k
      → p.irq_status_flag ≡ false
      → (n : ℕ) → put irq k.irqs n ≡ base n + one_if (n == irq)
  added p k irq h off n =
      let none_held : k.irqs n ≡ base n + one_if (false && n == p.irq) = simp off at h.held n in
      ground (arith, none_held)

  choose :
      (c : Bool) (x y : ℤ × Priv × Kernel)
      → (c ≡ true → IsHeld base x.1 x.2)
      → (c ≡ false → IsHeld base y.1 y.2)
      → IsHeld base (if c then x else y).1 (if c then x else y).2
  choose true x y hx hy = hx refl
  choose false x y hx hy = hy refl

  choose_pair :
      (c : Bool) (x y : Priv × Kernel)
      → (c ≡ true → IsHeld base x.0 x.1)
      → (c ≡ false → IsHeld base y.0 y.1)
      → IsHeld base (if c then x else y).0 (if c then x else y).1
  choose_pair true x y hx hy = hx refl
  choose_pair false x y hx hy = hy refl

  register_irq-IsHeld :
      (p : Priv) (k : Kernel)
      → IsHeld base p k
      → IsHeld base (register_irq calls p k).1 (register_irq calls p k).2
  unfolding register_irq get_wdog_msi
  register_irq-IsHeld p k h =
      let irq = get_wdog_msi p.wdog_id k in
      choose (irq == 0) _ _ (λ _. looked_up p k h)
        λ _.
          choose p.irq_status_flag _ _ (λ _. looked_up p k h)
            λ off.
              choose (is_neg (calls.request_irq irq)) _
                (
                  calls.request_irq irq,
                  record p { event_status = false; irq = irq; irq_status_flag = true },
                  record k { irqs = put irq k.irqs },
                )
                (λ _. looked_up p k h) λ _. record { held = added p k irq h off; own = λ _. refl }

  deregister_irq-IsHeld :
      (p : Priv) (k : Kernel)
      → IsHeld base p k
      → IsHeld base (deregister_irq p k).0 (deregister_irq p k).1
  unfolding deregister_irq
  deregister_irq-IsHeld p k h =
      choose_pair p.irq_status_flag _ _
        (λ on. record { held = released on; own = λ e. absurd (cc e) }) λ off. h
    where
      released : p.irq_status_flag ≡ true → (n : ℕ) → drop_one p.irq k.irqs n ≡ base n + 0
      released on n =
          let before : k.irqs n ≡ base n + one_if (true && n == p.irq) = simp on at h.held n in
          ground (arith, before)

  answer-IsHeld :
      (to_user : Bool) (reply : Reply) (p : Priv) (k : Kernel)
      → IsHeld base p k
      → IsHeld base (answer to_user reply p k).2 (answer to_user reply p k).3
  unfolding answer
  answer-IsHeld true reply p k h = h
  answer-IsHeld false reply p k h = h

  run_command-IsHeld :
      (to_user : Bool) (cmd : Command) (p : Priv) (k : Kernel)
      → IsHeld base p k
      → IsHeld base (run_command calls to_user cmd p k).2 (run_command calls to_user cmd p k).3
  unfolding run_command reset_modem get_wdog_msi
  run_command-IsHeld to_user register p k h = register_irq-IsHeld p k h
  run_command-IsHeld to_user deregister p k h = deregister_irq-IsHeld p k h
  run_command-IsHeld to_user reset p k h = record { held = h.held; own = h.own }
  run_command-IsHeld to_user get_status p k h = answer-IsHeld to_user _ p k h
  run_command-IsHeld to_user get_domain p k h = answer-IsHeld to_user _ p k h
  run_command-IsHeld to_user other p k h = h

  -- While the interrupt that is held is the one that the last probe of the modem noted, every command,
  -- with every outcome of the copies from and to the caller and of the request of the interrupt, keeps
  -- the handler accounted for: it is held once while the flag is set, and not at all otherwise. So a
  -- second registration takes no second handler, and a second deregistration frees none.
  pub dev_ioctl-IsHeld :
      (from_user to_user : Bool) (cmd : Command) (p : Priv) (k : Kernel)
      → IsHeld base p k
      → let (rc, reply, p', k') = dev_ioctl calls from_user to_user cmd p k in IsHeld base p' k'
  unfolding dev_ioctl
  dev_ioctl-IsHeld from_user to_user cmd p k h = elim (Bool-cases (from_user || is_other cmd)) [
    | inl e ↦ rw e (run_command-IsHeld to_user cmd p k h)
    | inr e ↦ rw e h
  ]

  -- With the handler held, a probe of the modem may note another interrupt. Then a registration
  -- answers 0 without a request, and the deregistration after it gives back the other interrupt, which
  -- was not taken: the handler stays on the first one.
  pub reregister_lem :
      (p : Priv) (k : Kernel) (irq : ℕ)
      → IsHeld base p k
      → p.irq_status_flag ≡ true
      → p.wdog_id ≡ 0
      → irq ≢ 0
      → irq ≢ p.irq
      → let (rc, reply, p', k') = dev_ioctl calls true true register p (note_msi irq k) in
        let (rc', reply', p'', k'') = dev_ioctl calls true true deregister p' k' in
        (rc ≡ pos 0)
        × (rc' ≡ pos 0)
        × (p''.irq_status_flag ≡ false)
        × (k''.irqs p.irq ≡ base p.irq + 1)
        × (k''.irqs irq ≡ base irq - 1)
  unfolding dev_ioctl run_command register_irq deregister_irq get_wdog_msi
  reregister_lem p k irq h on first nonzero apart =
      let a : k.irqs p.irq ≡ base p.irq + one_if (true && p.irq == p.irq) =
        simp on at h.held p.irq in
      let b : k.irqs irq ≡ base irq + one_if (true && irq == p.irq) = simp on at h.held irq in
      let live : (irq == 0) ≡ false = ground arith in
      rw (on, first, live) (refl, refl, refl, ground arith, ground arith)
