-- ===== src/Wdog/Events.antt =====
-- The watchdog's event between its interrupt and a poll
-- (kernel_driver/la9310shiva/la9310_wdog.c).
use la9310_driver.Base.{◌≡◌, refl, Bool, true, false, List, [], ◌∷◌, if◌then◌else◌, ℤ, ◌==◌, is_neg}
use la9310_driver.Wdog.{Priv, Kernel, Calls, irq_handler, dev_poll, register_irq}

-- What may happen to a watchdog: its interrupt, a poll, a registration.
pub data Event : Type 0 where
  interrupt polled registered : Event

module _ (calls : Calls) (k : Kernel) where
  abbrev pub after : Event → Priv → Priv
  after interrupt p = irq_handler p
  after polled p = (dev_poll p).1
  after registered p = (register_irq calls p k).1

  abbrev pub run : List Event → Priv → Priv
  run [] p = p
  run (e ∷ es) p = run es (after e p)

-- Has an interrupt come that neither a poll nor a registration has taken back?
abbrev pub pending : Bool → List Event → Bool
pending was [] = was
pending was (interrupt ∷ es) = pending true es
pending was (polled ∷ es) = pending false es
pending was (registered ∷ es) = pending false es

module _ (calls : Calls) (k : Kernel) where
  registered-clears : (p : Priv) → (register_irq calls p k).1.event_status ≡ false
  unfolding register_irq
  registered-clears p =
      choose (_ == 0) _ _ refl (choose p.irq_status_flag _ _ refl (choose (is_neg _) _ _ refl refl))
    where
      choose :
          (c : Bool) (x y : ℤ × Priv × Kernel)
          → x.1.event_status ≡ false
          → y.1.event_status ≡ false
          → (if c then x else y).1.event_status ≡ false
      choose true x y hx hy = hx
      choose false x y hx hy = hy

  -- After any sequence of interrupts, polls and registrations, a poll reports an event exactly if
  -- an interrupt came after the last poll and the last registration: no event is lost between
  -- them, and none is reported twice.
  pub poll-run :
      (es : List Event) (p : Priv) → (dev_poll (run calls k es p)).0 ≡ pending p.event_status es
  unfolding irq_handler dev_poll
  poll-run [] p = refl
  poll-run (interrupt ∷ es) p = poll-run es _
  poll-run (polled ∷ es) p = poll-run es _
  poll-run (registered ∷ es) p = rw (← registered-clears p) (poll-run es (register_irq calls p k).1)
