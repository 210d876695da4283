-- ===== src/Wdog/Gpio.antt =====
-- What `wdog_gpio_config` holds (kernel_driver/la9310shiva/la9310_wdog.c).
use la9310_driver.Base.{
  ℕ, ◌+◌, ◌≡◌, refl, inl, inr, Bool, true, false, Bool-cases, arith, ◌==◌, if◌then◌else◌, ℤ, pos,
  negsuc, is_neg, is_zero,
}
use la9310_driver.Wdog.{Priv, Kernel, Calls, put, drop_one, gpio_config}

-- Everything but the GPIOs is held as before.
pub record SameRest (k k' : Kernel) : Type 0 where
  pub irqs_kept : (n : ℕ) → k'.irqs n ≡ k.irqs n
  pub cdevs_kept : (n : ℕ) → k'.cdevs n ≡ k.cdevs n
  pub devices_kept : (n : ℕ) → k'.devices n ≡ k.devices n
  pub regions_kept : k'.regions ≡ k.regions
  pub classes_kept : k'.classes ≡ k.classes
  pub blocks_kept : k'.blocks ≡ k.blocks

pub SameRest-refl : (k : Kernel) → SameRest k k
SameRest-refl k = record {
  irqs_kept = λ n. refl;
  cdevs_kept = λ n. refl;
  devices_kept = λ n. refl;
  regions_kept = refl;
  classes_kept = refl;
  blocks_kept = refl;
}

-- How often a watchdog holds a GPIO.
abbrev pub one_if : Bool → ℕ
one_if true = 1
one_if false = 0

abbrev pub uses : Priv → ℕ → ℕ
uses p n = one_if (n == p.gpio_trst) + one_if (n == p.gpio_hrst)

pub gpio_only : (k : Kernel) (f l : ℕ → ℕ) → SameRest k (record k { gpios = f; level = l })
gpio_only k f l = record {
  irqs_kept = λ n. refl;
  cdevs_kept = λ n. refl;
  devices_kept = λ n. refl;
  regions_kept = refl;
  classes_kept = refl;
  blocks_kept = refl;
}

pub drop_put : (x : ℕ) (f : ℕ → ℕ) (n : ℕ) → drop_one x (put x f) n ≡ f n
drop_put x f n = ground arith

-- The configuration of the GPIOs of a watchdog holds both of them if the code is 0, and no more
-- than before if it is another code, whichever of the four calls fails. Nothing else is held.
pub gpio_config_lem :
    (calls : Calls) (p : Priv) (k : Kernel)
    → ((n : ℕ)
        → (gpio_config calls p k).1.gpios n
          ≡ k.gpios n + (if is_zero (gpio_config calls p k).0 then uses p n else 0))
      × SameRest k (gpio_config calls p k).1
unfolding gpio_config
gpio_config_lem calls p k = elim (Bool-cases (is_zero (calls.gpio_request p.gpio_trst))) [
  | inr e ↦ rw (e, e) (λ n. omega arith, gpio_only k _ _)
  | inl e ↦ rw e (elim (Bool-cases (is_neg (calls.gpio_direction_output p.gpio_trst))) [
    | inl neg ↦ rw (neg, neg-nonzero _ neg) (λ n. ground arith, gpio_only k _ _)
    | inr up ↦ rw up (elim (Bool-cases (is_zero (calls.gpio_request p.gpio_hrst))) [
      | inr e' ↦ rw (e', e') (λ n. ground arith, gpio_only k _ _)
      | inl e' ↦ rw e' (elim (Bool-cases (is_neg (calls.gpio_direction_output p.gpio_hrst))) [
        | inl neg ↦ rw (neg, neg-nonzero _ neg) (λ n. ground arith, gpio_only k _ _)
        | inr up' ↦ rw up' (λ n. ground arith, gpio_only k _ _)
      ])
    ])
  ])
]
  where
    neg-nonzero : (z : ℤ) → is_neg z ≡ true → is_zero z ≡ false
    neg-nonzero (pos n) h = absurd (cc h)
    neg-nonzero (negsuc n) h = refl
