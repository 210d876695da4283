-- ===== src/Wdog/Cdevs.antt =====
-- The character devices of the watchdogs, and the start and the end of the driver
-- (`create_wdog_cdevs`, `destroy_wdog_cdevs`, `wdog_init` and `wdog_exit` of
-- kernel_driver/la9310shiva/la9310_wdog.c).
use la9310_driver.Base.{ℕ, zero, suc, ◌+◌, ◌-◌, not, if◌then◌else◌, ℤ, pos, negsuc, is_neg, is_zero}
use la9310_driver.Wdog.{Kernel, Calls, Ptr, null, err_ptr, valid, is_null, put, drop_one}

abbrev pub add_device : ℕ → Kernel → Kernel
add_device i k = record k { devices = put i k.devices }

abbrev pub device_destroy : ℕ → Kernel → Kernel
device_destroy i k = record k { devices = drop_one i k.devices }

abbrev pub add_cdev : ℕ → Kernel → Kernel
add_cdev i k = record k { cdevs = put i k.cdevs }

abbrev pub cdev_del : ℕ → Kernel → Kernel
cdev_del i k = record k { cdevs = drop_one i k.cdevs }

-- A device or a class that was made is held. An error pointer stands for none.
abbrev pub hold_device : Ptr → ℕ → Kernel → Kernel
hold_device null i k = k
hold_device err_ptr i k = k
hold_device valid i k = add_device i k

abbrev pub one_if_valid : Ptr → ℕ
one_if_valid null = 0
one_if_valid err_ptr = 0
one_if_valid valid = 1

abbrev pub hold_class : Ptr → Kernel → Kernel
hold_class c k = record k { classes = k.classes + one_if_valid c; wdog_dev_class = c }

abbrev pub class_destroy : Kernel → Kernel
class_destroy k = record k { classes = k.classes - one_if_valid k.wdog_dev_class }

abbrev pub unregister_region : Kernel → Kernel
unregister_region k = record k { regions = k.regions - 1 }

-- The loop at `err_cdev` and that of destroy_wdog_cdevs, from `i`, `n` left.
unfoldable pub remove_devices : ℕ → ℕ → Kernel → Kernel
remove_devices zero i k = k
remove_devices (suc n) i k = remove_devices n (i + 1) (cdev_del i (device_destroy i k))

-- From the label `err_cdev` on, for a failure at device `i`.
abbrev pub undo_cdevs : ℕ → Kernel → Kernel
undo_cdevs i k = unregister_region (class_destroy (remove_devices i 0 k))

module _ (calls : Calls) where
  -- The loop of create_wdog_cdevs, from `i`, `n` left.
  unfoldable pub add_devices : ℕ → ℕ → Kernel → ℤ × Kernel
  add_devices zero i k = (pos 0, k)
  add_devices (suc n) i k =
      let rest = add_devices n (i + 1) (hold_device (calls.device_create i) i (add_cdev i k)) in
      if not (is_zero (calls.cdev_add i))
      then (negsuc 0, undo_cdevs i k)
      else if is_null (calls.device_create i)
      then (negsuc 0, undo_cdevs i (cdev_del i (add_cdev i k)))
      else rest

  -- create_wdog_cdevs, for `n` watchdogs.
  unfoldable pub create_cdevs : ℕ → Kernel → ℤ × Kernel
  create_cdevs n k =
      let k₁ : Kernel = record k { regions = k.regions + 1 } in
      if is_neg calls.alloc_chrdev_region
      then (negsuc 0, k)
      else if is_null calls.class_create
      then (negsuc 0, unregister_region (hold_class calls.class_create k₁))
      else add_devices n 0 (hold_class calls.class_create k₁)

-- destroy_wdog_cdevs, for `n` watchdogs.
unfoldable pub destroy_cdevs : ℕ → Kernel → Kernel
destroy_cdevs n k = unregister_region (class_destroy (remove_devices n 0 k))
