-- ===== src/Wdog/Unwind.antt =====
-- What `create_wdog_cdevs` and `destroy_wdog_cdevs` hold
-- (kernel_driver/la9310shiva/la9310_wdog.c).
use mathlib.Core.Path.{subst}
use la9310_driver.Base.{
  ℕ, zero, suc, ◌+◌, ◌-◌, ◌≡◌, refl, ◌⊎◌, inl, inr, Bool, true, false, not, ◌&&◌, arith, ltb, leb,
  ◌==◌, if◌then◌else◌, ℤ, pos, negsuc, ap, ◌∙◌, ◌≢◌, is_neg, is_zero,
}
use la9310_driver.Wdog.{Kernel, Calls, Ptr, null, err_ptr, valid, is_null}
use la9310_driver.Wdog.Gpio.{one_if, SameRest, SameRest-refl}
use la9310_driver.Wdog.Cdevs.{
  hold_device, hold_class, one_if_valid, unregister_region, add_device, device_destroy, add_cdev,
  cdev_del, remove_devices, undo_cdevs, add_devices, create_cdevs, destroy_cdevs,
}

-- All that is held is held as before.
pub record SameHeld (k k' : Kernel) : Type 0 where
  pub gpios_kept : (n : ℕ) → k'.gpios n ≡ k.gpios n
  pub rest_kept : SameRest k k'

-- The first `i` devices are there in addition, with the region and the class.
pub record Added (i : ℕ) (k k' : Kernel) : Type 0 where
  pub gpios_same : (n : ℕ) → k'.gpios n ≡ k.gpios n
  pub irqs_same : (n : ℕ) → k'.irqs n ≡ k.irqs n
  pub cdevs_more : (n : ℕ) → k'.cdevs n ≡ k.cdevs n + one_if (ltb n i)
  pub devices_more : (n : ℕ) → k'.devices n ≡ k.devices n + one_if (ltb n i)
  pub regions_more : k'.regions ≡ k.regions + 1
  pub classes_more : k'.classes ≡ k.classes + 1
  pub class_held : k'.wdog_dev_class ≡ valid
  pub blocks_same : k'.blocks ≡ k.blocks

-- The devices from `i` on, `n` of them, are gone.
record Removed (n i : ℕ) (k k' : Kernel) : Type 0 where
  gpios_same : (m : ℕ) → k'.gpios m ≡ k.gpios m
  irqs_same : (m : ℕ) → k'.irqs m ≡ k.irqs m
  cdevs_less : (m : ℕ) → k'.cdevs m ≡ k.cdevs m - one_if (leb i m && ltb m (i + n))
  devices_less : (m : ℕ) → k'.devices m ≡ k.devices m - one_if (leb i m && ltb m (i + n))
  regions_same : k'.regions ≡ k.regions
  classes_same : k'.classes ≡ k.classes
  class_same : k'.wdog_dev_class ≡ k.wdog_dev_class
  blocks_same : k'.blocks ≡ k.blocks

none_gone : (c i m : ℕ) → c ≡ c - one_if (leb i m && ltb m (i + 0))
none_gone c i m = ground arith

one_gone :
    (c i m n : ℕ)
    → (if m == i then c - 1 else c) - one_if (leb (i + 1) m && ltb m (i + 1 + n))
      ≡ c - one_if (leb i m && ltb m (i + suc n))
one_gone c i m n = ground arith

remove_devices-Removed : (n i : ℕ) (k : Kernel) → Removed n i k (remove_devices n i k)
unfolding remove_devices
remove_devices-Removed zero i k = record {
  gpios_same = λ m. refl;
  irqs_same = λ m. refl;
  cdevs_less = λ m. none_gone _ i m;
  devices_less = λ m. none_gone _ i m;
  regions_same = refl;
  classes_same = refl;
  class_same = refl;
  blocks_same = refl;
}
remove_devices-Removed (suc n) i k =
    let r = remove_devices-Removed n (i + 1) (cdev_del i (device_destroy i k)) in
    record {
      gpios_same = r.gpios_same;
      irqs_same = r.irqs_same;
      cdevs_less = λ m. rw (r.cdevs_less m) (one_gone (k.cdevs m) i m n);
      devices_less = λ m. rw (r.devices_less m) (one_gone (k.devices m) i m n);
      regions_same = r.regions_same;
      classes_same = r.classes_same;
      class_same = r.class_same;
      blocks_same = r.blocks_same;
    }

undone : (c x i m : ℕ) → x ≡ c + one_if (ltb m i) → x - one_if (leb 0 m && ltb m (0 + i)) ≡ c
undone c x i m h = ground (arith, h)

-- The path from `err_cdev` on gives back the first `i` devices, the class and the region.
pub undo-SameHeld : (i : ℕ) (k k' : Kernel) → Added i k k' → SameHeld k (undo_cdevs i k')
undo-SameHeld i k k' a =
    let r = remove_devices-Removed i 0 k' in
    record {
      gpios_kept = λ m. omega (arith, r.gpios_same m, a.gpios_same m);
      rest_kept = record {
        irqs_kept = λ m. omega (arith, r.irqs_same m, a.irqs_same m);
        cdevs_kept =
            λ m. rw (r.cdevs_less m) (undone (k.cdevs m) (k'.cdevs m) i m (a.cdevs_more m));
        devices_kept =
            λ m. rw (r.devices_less m) (undone (k.devices m) (k'.devices m) i m (a.devices_more m));
        regions_kept = omega (arith, r.regions_same, a.regions_more);
        classes_kept =
            omega (
              arith,
              r.classes_same,
              a.classes_more,
              ap one_if_valid (r.class_same ∙ a.class_held),
            );
        blocks_kept = omega (arith, r.blocks_same, a.blocks_same);
      };
    }

one_more :
    (c x i m : ℕ)
    → x ≡ c + one_if (ltb m i)
    → (if m == i then x + 1 else x) ≡ c + one_if (ltb m (i + 1))
one_more c x i m h = ground (arith, h)

Added-next : (i : ℕ) (k k' : Kernel) → Added i k k' → Added (i + 1) k (add_device i (add_cdev i k'))
Added-next i k k' a = record {
  gpios_same = a.gpios_same;
  irqs_same = a.irqs_same;
  cdevs_more = λ m. one_more (k.cdevs m) (k'.cdevs m) i m (a.cdevs_more m);
  devices_more = λ m. one_more (k.devices m) (k'.devices m) i m (a.devices_more m);
  regions_more = a.regions_more;
  classes_more = a.classes_more;
  class_held = a.class_held;
  blocks_same = a.blocks_same;
}

cancelled :
    (x i m : ℕ)
    → (if m == i then (if m == i then x + 1 else x) - 1 else (if m == i then x + 1 else x)) ≡ x
cancelled x i m = ground arith

Added-cancel : (i : ℕ) (k k' : Kernel) → Added i k k' → Added i k (cdev_del i (add_cdev i k'))
Added-cancel i k k' a = record {
  gpios_same = a.gpios_same;
  irqs_same = a.irqs_same;
  cdevs_more = λ m. rw (cancelled (k'.cdevs m) i m) (a.cdevs_more m);
  devices_more = a.devices_more;
  regions_more = a.regions_more;
  classes_more = a.classes_more;
  class_held = a.class_held;
  blocks_same = a.blocks_same;
}

-- How a creation of devices ends: all are there, or nothing is.
abbrev pub Created : ℕ → Kernel → ℤ × Kernel → Type 0
Created n k t = ((t.0 ≡ pos 0) × Added n k t.1) ⊎ ((is_neg t.0 ≡ true) × SameHeld k t.1)

Created-choose :
    (n : ℕ) (k : Kernel) (c : Bool) (x y : ℤ × Kernel)
    → (c ≡ true → Created n k x)
    → (c ≡ false → Created n k y)
    → Created n k (if c then x else y)
Created-choose n k true x y hx hy = hx refl
Created-choose n k false x y hx hy = hy refl

-- The calls that make the class and the devices do not give an error pointer.
pub record IsTested (calls : Calls) : Type 0 where
  pub class_tested : calls.class_create ≢ err_ptr
  pub device_tested : (i : ℕ) → calls.device_create i ≢ err_ptr

hold_device-valid :
    (q : Ptr) (i : ℕ) (k : Kernel)
    → is_null q ≡ false
    → q ≢ err_ptr
    → add_device i k ≡ hold_device q i k
hold_device-valid null i k e ne = absurd (cc e)
hold_device-valid err_ptr i k e ne = absurd (ne refl)
hold_device-valid valid i k e ne = refl

add_devices-Created :
    (calls : Calls) (n i t : ℕ) (k k' : Kernel)
    → IsTested calls
    → i + n ≡ t
    → Added i k k'
    → Created t k (add_devices calls n i k')
unfolding add_devices
add_devices-Created calls zero i t k k' tested e a = inl (refl, rw⁻¹ (all_done i t e) a)
  where
    all_done : (i t : ℕ) → i + 0 ≡ t → i ≡ t
    all_done i t e = omega arith
add_devices-Created calls (suc n) i t k k' tested e a =
    Created-choose t k (not (is_zero (calls.cdev_add i))) _ _
      (λ _. inr (refl, undo-SameHeld i k k' a))
      λ _.
        Created-choose t k (is_null (calls.device_create i)) _ _
          (λ _. inr (refl, undo-SameHeld i k _ (Added-cancel i k k' a)))
          λ made. add_devices-Created calls n (i + 1) t k _ tested (omega arith) (
            subst (Added (i + 1) k)
              (hold_device-valid (calls.device_create i) i (add_cdev i k') made
                (tested.device_tested i))
              (Added-next i k k' a))

class_made :
    (calls : Calls) (n : ℕ) (k : Kernel) (q : Ptr)
    → IsTested calls
    → q ≢ err_ptr
    → Created n k (
        if is_null q
        then (negsuc 0, unregister_region (hold_class q (record k { regions = k.regions + 1 })))
        else add_devices calls n 0 (hold_class q (record k { regions = k.regions + 1 })))
class_made calls n k null tested ne = inr (
  refl,
  record {
    gpios_kept = λ m. refl;
    rest_kept = record {
      irqs_kept = λ m. refl;
      cdevs_kept = λ m. refl;
      devices_kept = λ m. refl;
      regions_kept = omega arith;
      classes_kept = omega arith;
      blocks_kept = refl;
    };
  },
)
class_made calls n k err_ptr tested ne = absurd (ne refl)
class_made calls n k valid tested ne =
    add_devices-Created calls n 0 n k _ tested (omega arith) (record {
      gpios_same = λ m. refl;
      irqs_same = λ m. refl;
      cdevs_more = λ m. ground arith;
      devices_more = λ m. ground arith;
      regions_more = refl;
      classes_more = refl;
      class_held = refl;
      blocks_same = refl;
    })

-- The creation of the character devices holds them all, with their region and their class, if its
-- code is 0. Otherwise the code is negative and nothing more is held than before, however many devices
-- were there by then. No error pointer is given.
pub create_cdevs_lem :
    (calls : Calls) (n : ℕ) (k : Kernel) → IsTested calls → Created n k (create_cdevs calls n k)
unfolding create_cdevs
create_cdevs_lem calls n k tested =
    Created-choose n k (is_neg calls.alloc_chrdev_region) _ _
      (λ _. inr (refl, record { gpios_kept = λ m. refl; rest_kept = SameRest-refl k }))
      λ _. class_made calls n k calls.class_create tested tested.class_tested

-- The removal of the devices undoes their creation.
pub destroy-SameHeld : (n : ℕ) (k k' : Kernel) → Added n k k' → SameHeld k (destroy_cdevs n k')
unfolding destroy_cdevs
destroy-SameHeld n k k' a = undo-SameHeld n k k' a
