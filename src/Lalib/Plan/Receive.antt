-- ===== src/Lalib/Plan/Receive.antt =====
-- Which receive plans the planner makes (`rfnm_la9310_plan` of
-- kernel_driver/la9310rfnm/rfnm_lalib.c without transmission).
use mathlib.Core.Path.{subst}
use la9310_driver.Base.{
  ℕ, zero, suc, ◌+◌, ◌≤◌, ◌≡◌, ◌⊎◌, inl, inr, refl, sym, ap, ◌∙◌, true, false, ◌&&◌, Bool-cases,
  Option-cases, Option, none, some, arith, bool_tests, leb,
}
use la9310_driver.Base.Fault.{Ensures, Ensures-if, Ensures-some}
use la9310_driver.Lalib.Plan.{
  Rung, shl64, dcs_max, dcs_min, dcs_ceiling, within, rx_rung, rx_pass, or_else,
}

-- A depth `k` and a divider `d` that a pass admits for a rate.
pub record Serves (pass rate k d : ℕ) : Type 0 where
  pub low : dcs_min ≤ shl64 rate (k + d)
  pub high : shl64 rate (k + d) ≤ dcs_ceiling pass k
  pub shape : ((d ≡ 1) × (3 ≤ k)) ⊎ ((d ≡ 0) × (k ≤ 3))

within-true : (c f : ℕ) → within c f ≡ true → (dcs_min ≤ f) × (f ≤ c)
within-true c f h = (ground arith, ground arith)

plus_zero : (k : ℕ) → k + 0 ≡ k
plus_zero k = omega arith

ceiling_shallow : (pass k : ℕ) → k ≤ 3 → dcs_ceiling pass k ≡ dcs_max
ceiling_shallow pass k h = ground arith

refused_divided :
    (pass rate k : ℕ)
    → (within (dcs_ceiling pass k) (shl64 rate (k + 1)) && leb 3 k) ≡ false
    → dcs_min ≤ shl64 rate (k + 1)
    → shl64 rate (k + 1) ≤ dcs_ceiling pass k
    → 3 ≤ k
    → ⊥
refused_divided pass rate k h low high deep = ground arith

deep_of : (pass rate k : ℕ) → Serves pass rate k 1 → 3 ≤ k
deep_of pass rate k s = elim (s.shape) [
  | inl (e, deep) ↦ deep
  | inr (e, shallow) ↦ omega (arith, e)
]

none_divided :
    (pass rate k : ℕ)
    → rx_rung pass rate k ≡ none
    → dcs_min ≤ shl64 rate (k + 1)
    → shl64 rate (k + 1) ≤ dcs_ceiling pass k
    → 3 ≤ k
    → ⊥
unfolding rx_rung
none_divided pass rate k h low high deep = ground arith

none_plain :
    (pass rate k : ℕ)
    → rx_rung pass rate k ≡ none
    → dcs_min ≤ shl64 rate k
    → shl64 rate k ≤ dcs_max
    → k ≤ 3
    → ⊥
unfolding rx_rung
none_plain pass rate k h low high deep = ground arith

rung-none : (pass rate k d : ℕ) → rx_rung pass rate k ≡ none → Serves pass rate k d → ⊥
rung-none pass rate k d h s = elim (s.shape) [
  | inl (e, deep) ↦
      none_divided pass rate k h (subst (λ (x : ℕ). dcs_min ≤ shl64 rate (k + x)) e (s.low))
        (subst (λ (x : ℕ). shl64 rate (k + x) ≤ dcs_ceiling pass k) e (s.high)) deep
  | inr (e, shallow) ↦
      let plain : k + d ≡ k = omega (arith, e) in
      let low : dcs_min ≤ shl64 rate k = subst (λ (x : ℕ). dcs_min ≤ shl64 rate x) plain (s.low) in
      let high : shl64 rate k ≤ dcs_ceiling pass k =
        subst (λ (x : ℕ). shl64 rate x ≤ dcs_ceiling pass k) plain (s.high) in
      none_plain pass rate k h low
        (subst (λ (x : ℕ). shl64 rate k ≤ x) (ceiling_shallow pass k shallow) high) shallow
]

-- What a rung says of itself.
record IsRung (pass rate k : ℕ) (r : Rung) : Type 0 where
  stages : r.stages ≡ k
  freq : r.freq ≡ shl64 rate (k + r.dcs)
  serves : Serves pass rate k (r.dcs)
  divided : r.dcs ≡ 0 → ¬ Serves pass rate k 1

rx_rung-IsRung : (pass rate k : ℕ) → Ensures (IsRung pass rate k) (rx_rung pass rate k)
unfolding rx_rung
rx_rung-IsRung pass rate k =
    Ensures-if (IsRung pass rate k) (within (dcs_ceiling pass k) (shl64 rate (k + 1)) && leb 3 k) _
      _
      (λ h. Ensures-some (IsRung pass rate k) _ (record {
        stages = refl;
        freq = refl;
        serves = record {
          low = ground arith;
          high = ground arith;
          shape = inl (refl, ground arith);
        };
        divided = λ z. absurd (cc);
      }))
      (λ no.
        Ensures-if (IsRung pass rate k) (leb k 3 && within dcs_max (shl64 rate k)) _ _
          (λ h. Ensures-some (IsRung pass rate k) _ (record {
            stages = refl;
            freq = ap (shl64 rate) (sym (plus_zero k));
            serves = record {
              low = subst (λ (x : ℕ). dcs_min ≤ shl64 rate x) (sym (plus_zero k)) (ground arith);
              high =
                  subst (λ (x : ℕ). shl64 rate x ≤ dcs_ceiling pass k) (sym (plus_zero k))
                    (ground arith);
              shape = inr (refl, ground arith);
            };
            divided =
                λ z s. refused_divided pass rate k no (s.low) (s.high) (deep_of pass rate k s);
          }))
          (λ _ a e. cc))

-- The rung `r` is the deepest that a pass admits from depth `n` down, divided if it can be.
pub record IsDeepest (pass rate n : ℕ) (r : Rung) : Type 0 where
  pub bound : r.stages ≤ n
  pub freq : r.freq ≡ shl64 rate (r.stages + r.dcs)
  pub serves : Serves pass rate (r.stages) (r.dcs)
  pub deepest : (k d : ℕ) → k ≤ n → Serves pass rate k d → k ≤ r.stages
  pub divided : r.dcs ≡ 0 → ¬ Serves pass rate (r.stages) 1

pub pass-none :
    (pass rate n k d : ℕ) → rx_pass pass rate n ≡ none → k ≤ n → Serves pass rate k d → ⊥
unfolding rx_pass
pass-none pass rate zero k d h le s =
    rung-none pass rate 0 d h (subst (λ (x : ℕ). Serves pass rate x d) (omega arith) s)
pass-none pass rate (suc n) k d h le s = elim (Option-cases (rx_rung pass rate (suc n))) [
  | inl e ↦ elim (Bool-cases (leb k n)) [
    | inl low ↦
        pass-none pass rate n k d
          (subst (λ (o : Option Rung). or_else o (rx_pass pass rate n) ≡ none) e h)
          (omega bool_tests) s
    | inr top ↦
        rung-none pass rate (suc n) d e
          (subst (λ (x : ℕ). Serves pass rate x d) (omega (bool_tests, top)) s)
  ]
  | inr (r, e) ↦ cc
]

IsRung-IsDeepest : (pass rate k : ℕ) (r : Rung) → IsRung pass rate k r → IsDeepest pass rate k r
IsRung-IsDeepest pass rate k r i = record {
  bound = omega (arith, i.stages);
  freq = subst (λ (x : ℕ). r.freq ≡ shl64 rate (x + r.dcs)) (sym (i.stages)) (i.freq);
  serves = subst (λ (x : ℕ). Serves pass rate x (r.dcs)) (sym (i.stages)) (i.serves);
  deepest = λ k d le s. omega (arith, i.stages);
  divided = λ z. subst (λ (x : ℕ). ¬ Serves pass rate x 1) (sym (i.stages)) (i.divided z);
}

deeper :
    (pass rate n : ℕ) (r : Rung)
    → rx_rung pass rate (suc n) ≡ none
    → IsDeepest pass rate n r
    → IsDeepest pass rate (suc n) r
deeper pass rate n r e i = record {
  bound = omega (arith, i.bound);
  freq = i.freq;
  serves = i.serves;
  deepest = λ k d le s. elim (Bool-cases (leb k n)) [
    | inl low ↦ i.deepest k d (omega bool_tests) s
    | inr top ↦ absurd (
        rung-none pass rate (suc n) d e
          (subst (λ (x : ℕ). Serves pass rate x d) (omega (bool_tests, top)) s))
  ];
  divided = i.divided;
}

pub pass-IsDeepest : (pass rate n : ℕ) → Ensures (IsDeepest pass rate n) (rx_pass pass rate n)
unfolding rx_pass
pass-IsDeepest pass rate zero r h = IsRung-IsDeepest pass rate 0 r (rx_rung-IsRung pass rate 0 r h)
pass-IsDeepest pass rate (suc n) r h =
    let first : Option Rung → Type 0 =
      λ (o : Option Rung). or_else o (rx_pass pass rate n) ≡ some r in
    elim (Option-cases (rx_rung pass rate (suc n))) [
      | inl e ↦ deeper pass rate n r e (pass-IsDeepest pass rate n r (subst first e h))
      | inr (q, e) ↦
          IsRung-IsDeepest pass rate (suc n) r
            (rx_rung-IsRung pass rate (suc n) r (e ∙ subst first e h))
    ]
