-- ===== src/Agc/Attack.antt =====
-- The size of an attack step (`agc_level_step` of kernel_driver/la9310rfnm/rfnm_agc.c).
use native.Mathlib.Nat.{pow-succ', le-div_iff_mul-le, div-le_self}
use la9310_driver.Base.{
  ℕ, zero, suc, ◌+◌, ◌*◌, ◌/◌, ◌^◌, ◌≤◌, ◌<◌, ◌≡◌, refl, inl, inr, false, Bool-cases, arith,
  bool_tests, ltb, leb, ◌==◌,
}
use la9310_driver.Agc.{overshoot, attack_down}

pow_suc : (e : ℕ) → 2 ^ (e + 1) ≡ 2 * 2 ^ e
pow_suc e = rw (suc_form e) (pow-succ' 2 e)
  where
    suc_form : (e : ℕ) → e + 1 ≡ suc e
    suc_form e = omega arith

-- The step is 6 dB, and 6 dB more for each time that `o` can be halved before it is 1.
record IsSteps (o down r : ℕ) : Type 0 where
  e : ℕ
  size : r ≡ down + 6 * e
  least : 2 ^ e ≤ o
  most : o < 2 ^ (e + 1)

halved : (fuel o p : ℕ) → p ≡ 2 ^ (suc fuel + 1) → o < p → o / 2 < 2 ^ (fuel + 1)
halved fuel o p e h =
    let doubled : 2 ^ (suc fuel + 1) ≡ 2 * 2 ^ (fuel + 1) = rw (shape fuel) (pow_suc (fuel + 1)) in
    omega (arith, e, doubled, h)
  where
    shape : (f : ℕ) → suc f + 1 ≡ (f + 1) + 1
    shape f = omega arith

overshoot-IsSteps :
    (fuel o down : ℕ) → 1 ≤ o → o < 2 ^ (fuel + 1) → IsSteps o down (overshoot fuel o down)
unfolding overshoot
overshoot-IsSteps zero o down h k = record { e = 0; size = omega arith; least = h; most = k }
overshoot-IsSteps (suc fuel) o down h k = elim (Bool-cases (ltb 1 o)) [
  | inl more ↦
      let two : 1 < o = omega (bool_tests, more) in
      let r = overshoot-IsSteps fuel (o / 2) (down + 6) (omega arith) (halved fuel o _ refl k) in
      rw more (record {
        e = r.e + 1;
        size = omega (arith, r.size);
        least = omega (arith, pow_suc r.e, r.least);
        most = omega (arith, pow_suc (r.e + 1), r.most);
      })
  | inr done ↦
      rw done (record { e = 0; size = omega arith; least = h; most = omega (bool_tests, done) })
]

-- An attack step is 12 dB at the rail. Below it the step is 6 dB, plus 6 dB for each time that the
-- whole quotient of the peak by the threshold can be halved before it is 1: the loop ends within
-- the fuel for every peak and every threshold from 1 on.
pub attack_down_lem :
    (att peak : ℕ)
    → 1 ≤ att
    → att ≤ peak
    → (2040 ≤ peak → attack_down att peak ≡ 12)
      × (peak < 2040
          → (e : ℕ) × (attack_down att peak ≡ 6 + 6 * e)
            × (2 ^ e ≤ peak / att)
            × (peak / att < 2 ^ (e + 1)))
unfolding attack_down
attack_down_lem att peak h k = elim (Bool-cases (leb 2040 peak)) [
  | inl rail ↦
      let at_rail : 2040 ≤ peak = omega (bool_tests, rail) in
      rw rail (λ _. refl, λ below. absurd (omega arith))
  | inr low ↦
      let nonzero : (att == 0) ≡ false = ground arith in
      let below : peak < 2040 = omega (bool_tests, low) in
      rw (low, nonzero)
        (
          λ at. absurd (omega arith),
          λ _.
              let r =
                overshoot-IsSteps 11 (peak / att) 6 (quotient_pos att peak h k)
                  (quotient_small att peak h below) in
              (r.e, r.size, r.least, r.most),
        )
]
  where
    quotient_pos : (a p : ℕ) → 1 ≤ a → a ≤ p → 1 ≤ p / a
    quotient_pos a p h k = (le-div_iff_mul-le (omega arith)).1 (omega arith)

    quotient_small : (a p : ℕ) → 1 ≤ a → p < 2040 → p / a < 2 ^ 12
    quotient_small a p h k = omega (arith, div-le_self p a)
