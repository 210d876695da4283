-- ===== src/Wdog.antt =====
-- The modem watchdog (kernel_driver/la9310shiva/la9310_wdog.c): the state of a watchdog, the
-- resources of the kernel that it holds, and its operations. The outcomes of the kernel's calls
-- are parameters. Spin locks make a handler one step.
pub mod Events
pub mod Gpio
pub mod Irq
pub mod Cdevs
pub mod Life
pub mod Unwind
pub mod RoundTrip
mod Tests
use la9310_driver.Base.{
  ℕ, zero, suc, ◌+◌, ◌-◌, Bool, true, false, not, ◌&&◌, ◌||◌, Option, none, some, List, [], ◌∷◌,
  leb, ◌==◌, if◌then◌else◌, get_elem?, set, ℤ, pos, negsuc, neg, is_neg, is_zero,
}

-- WDOG_ID_MAX
abbrev pub wdog_id_max : ℕ
wdog_id_max = 1

-- The error codes: -EFAULT, -ENOMEM, -ENODEV, -EINVAL, -ENOTTY.
abbrev pub efault : ℤ
efault = neg 14

abbrev pub enomem : ℤ
enomem = neg 12

abbrev pub enodev : ℤ
enodev = neg 19

abbrev pub einval : ℤ
einval = neg 22

abbrev pub enotty : ℤ
enotty = neg 25

-- struct wdog_priv, without its lock and its wait queue.
pub record Priv : Type 0 where
  pub irq : ℕ
  pub irq_status_flag : Bool
  pub gpio_hrst : ℕ
  pub gpio_trst : ℕ
  pub wdog_id : ℕ
  pub modem_status : ℤ
  pub domain_nr : ℤ
  pub event_status : Bool

-- WDOG_MODEM_NOT_READY and PCI_DOMAIN_NR_INVALID
abbrev pub not_ready : ℤ
not_ready = pos 0

abbrev pub domain_nr_invalid : ℤ
domain_nr_invalid = negsuc 0

-- What a call gives that makes a class or a device: the code tests for NULL alone.
pub data Ptr : Type 0 where
  null err_ptr valid : Ptr

abbrev pub is_null : Ptr → Bool
is_null null = true
is_null err_ptr = false
is_null valid = false

-- What the driver holds of the kernel: how often each GPIO, interrupt, character device and device
-- file is held, the device number region, the class and the memory, and the level of each GPIO
-- that was driven.
pub record Kernel : Type 0 where
  pub gpios : ℕ → ℕ
  pub irqs : ℕ → ℕ
  pub cdevs : ℕ → ℕ
  pub devices : ℕ → ℕ
  pub regions : ℕ
  pub classes : ℕ
  pub blocks : ℕ
  pub level : ℕ → ℕ
  -- `wdog_dev_class`, and `wdog_msi_irq`, which each PCI probe sets.
  pub wdog_dev_class : Ptr
  pub wdog_msi_irq : ℕ

-- The outcomes of the calls that may fail.
pub record Calls : Type 0 where
  pub request_irq : ℕ → ℤ
  pub gpio_request : ℕ → ℤ
  pub gpio_direction_output : ℕ → ℤ
  pub kmalloc : Bool
  pub find_node : Bool
  -- `of_get_named_gpio`, `none` where `gpio_is_valid` refuses what it gives.
  pub named_trst : ℕ → Option ℕ
  pub named_hrst : ℕ → Option ℕ
  pub alloc_chrdev_region : ℤ
  pub class_create : Ptr
  pub cdev_add : ℕ → ℤ
  pub device_create : ℕ → Ptr

-- One more, and one less, of an item.
abbrev pub put : ℕ → (ℕ → ℕ) → ℕ → ℕ
put x f n = if n == x then f n + 1 else f n

abbrev pub drop_one : ℕ → (ℕ → ℕ) → ℕ → ℕ
drop_one x f n = if n == x then f n - 1 else f n

abbrev pub hold_gpio : ℕ → Kernel → Kernel
hold_gpio x k = record k { gpios = put x k.gpios }

abbrev pub gpio_free : ℕ → Kernel → Kernel
gpio_free x k = record k { gpios = drop_one x k.gpios }

abbrev pub drive : ℕ → ℕ → Kernel → Kernel
drive x v k = record k { level = λ n. if n == x then v else k.level n }

-- wdog_irq_handler
unfoldable pub irq_handler : Priv → Priv
irq_handler p = record p { modem_status = not_ready; event_status = true }

-- wdog_dev_poll: is there an event?
unfoldable pub dev_poll : Priv → Bool × Priv
dev_poll p = (p.event_status, record p { event_status = false })

-- get_wdog_msi (kernel_driver/la9310shiva/la9310_base.c)
unfoldable pub get_wdog_msi : ℕ → Kernel → ℕ
get_wdog_msi wdog_id k = if wdog_id == 0 then k.wdog_msi_irq else 0

-- A probe of the modem notes another interrupt (la9310_base.c).
abbrev pub note_msi : ℕ → Kernel → Kernel
note_msi irq k = record k { wdog_msi_irq = irq }

module _ (calls : Calls) where
  -- wdog_register_irq
  unfoldable pub register_irq : Priv → Kernel → ℤ × Priv × Kernel
  register_irq p k =
      let irq = get_wdog_msi p.wdog_id k in
      let p' : Priv = record p { event_status = false; irq = irq } in
      let rc = calls.request_irq irq in
      if irq == 0
      then (einval, p', k)
      else if p.irq_status_flag
      then (pos 0, p', k)
      else if is_neg rc
      then (rc, p', k)
      else (rc, record p' { irq_status_flag = true }, record k { irqs = put irq k.irqs })

  -- wdog_gpio_config
  unfoldable pub gpio_config : Priv → Kernel → ℤ × Kernel
  gpio_config p k =
      let rc₁ = calls.gpio_request p.gpio_trst in
      let rc₂ = calls.gpio_direction_output p.gpio_trst in
      let rc₃ = calls.gpio_request p.gpio_hrst in
      let rc₄ = calls.gpio_direction_output p.gpio_hrst in
      let k₁ = hold_gpio p.gpio_trst k in
      let k₂ = drive p.gpio_trst 1 k₁ in
      let k₃ = hold_gpio p.gpio_hrst k₂ in
      if not (is_zero rc₁)
      then (rc₁, k)
      else if is_neg rc₂
      then (rc₂, gpio_free p.gpio_trst k₁)
      else if not (is_zero rc₃)
      then (rc₃, gpio_free p.gpio_trst k₂)
      else if is_neg rc₄
      then (rc₄, gpio_free p.gpio_trst (gpio_free p.gpio_hrst k₃))
      else (pos 0, drive p.gpio_hrst 1 k₃)

-- wdog_deregister_irq
unfoldable pub deregister_irq : Priv → Kernel → Priv × Kernel
deregister_irq p k =
    if p.irq_status_flag
    then (record p { irq_status_flag = false }, record k { irqs = drop_one p.irq k.irqs })
    else (p, k)

-- wdog_reset_modem: both lines low, then both high.
unfoldable pub reset_modem : Priv → Kernel → Kernel
reset_modem p k =
    drive p.gpio_hrst 1 (drive p.gpio_trst 1 (drive p.gpio_hrst 0 (drive p.gpio_trst 0 k)))

-- The commands of wdog_dev_ioctl, and one for any other number.
pub data Command : Type 0 where
  register deregister reset get_status get_domain other : Command

-- What goes back to the caller, if the copy succeeds.
pub data Reply : Type 0 where
  no_reply : Reply
  status_reply : ℤ → Reply
  domain_reply : ℤ → Reply

unfoldable pub answer : Bool → Reply → Priv → Kernel → ℤ × Reply × Priv × Kernel
answer to_user reply p k = if to_user then (pos 0, reply, p, k) else (efault, no_reply, p, k)

-- wdog_dev_ioctl after the copy from the caller.
unfoldable pub run_command : Calls → Bool → Command → Priv → Kernel → ℤ × Reply × Priv × Kernel
run_command calls to_user register p k =
    let (rc, p', k') = register_irq calls p k in (rc, no_reply, p', k')
run_command calls to_user deregister p k =
    let (p', k') = deregister_irq p k in (pos 0, no_reply, p', k')
run_command calls to_user reset p k = (pos 0, no_reply, p, reset_modem p k)
run_command calls to_user get_status p k = answer to_user (status_reply p.modem_status) p k
run_command calls to_user get_domain p k = answer to_user (domain_reply p.domain_nr) p k
run_command calls to_user other p k = (enotty, no_reply, p, k)

abbrev pub is_other : Command → Bool
is_other other = true
is_other register = false
is_other deregister = false
is_other reset = false
is_other get_status = false
is_other get_domain = false

-- wdog_dev_ioctl
unfoldable pub dev_ioctl : Calls → Bool → Bool → Command → Priv → Kernel → ℤ × Reply × Priv × Kernel
dev_ioctl calls from_user to_user cmd p k =
    if from_user || is_other cmd
    then run_command calls to_user cmd p k
    else (efault, no_reply, p, k)

-- The driver: `wdog_gdev`, and the kernel. The blocks that stay allocated are counted there.
pub record Driver : Type 0 where
  pub gdev : Option (List Priv)
  pub kernel : Kernel

-- `wdog_id >= WDOG_ID_MAX`
abbrev pub past_end : ℤ → Bool
past_end (pos i) = leb wdog_id_max i
past_end (negsuc n) = false

-- A change of `wdog_pd[i]`; `none` is an access outside the array.
unfoldable pub change_priv : ℤ → (Priv → Priv) → List Priv → Option (List Priv)
change_priv (negsuc n) f ps = none
change_priv (pos i) f ps = elim (get_elem? ps i) [ none ↦ none | some p ↦ some (set ps i (f p)) ]

-- The driver after a change of its array.
unfoldable pub changed : Kernel → Option (List Priv) → Option (ℤ × Driver)
changed k none = none
changed k (some ps) = some (pos 0, record { gdev = some ps; kernel = k })

-- What wdog_set_modem_status and wdog_set_pci_domain_nr share: the guards and the array access.
unfoldable pub with_gdev : ℤ → (Priv → Priv) → Option (List Priv) → Kernel → Option (ℤ × Driver)
with_gdev i f none k = some (enodev, record { gdev = none; kernel = k })
with_gdev i f (some ps) k = changed k (change_priv i f ps)

unfoldable pub with_priv : ℤ → (Priv → Priv) → Driver → Option (ℤ × Driver)
with_priv i f d = if past_end i then some (enodev, d) else with_gdev i f d.gdev d.kernel

-- wdog_set_modem_status
unfoldable pub set_modem_status : ℤ → ℤ → Driver → Option (ℤ × Driver)
set_modem_status i status = with_priv i λ p. record p { modem_status = status }

-- wdog_set_pci_domain_nr
unfoldable pub set_pci_domain_nr : ℤ → ℤ → Driver → Option (ℤ × Driver)
set_pci_domain_nr i nr = with_priv i λ p. record p { domain_nr = nr }
