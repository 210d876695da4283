-- ===== src/Vspa/Registry/Select.antt =====
-- The choice of an image by `rfnm_vspa_select_for`
-- (kernel_driver/la9310shiva/la9310_vspa_registry.c).
use mathlib.Core.Logic.{◌≢◌}
use la9310_driver.Base.{
  ℕ, zero, suc, ◌+◌, ◌≤◌, ◌<◌, ◌≡◌, refl, ◌⊎◌, inl, inr, ◌↔◌, true, false, ◌&&◌, arith,
  if◌then◌else◌, Bool-cases, ℤ, pos, negsuc, is_neg,
}
use la9310_driver.Vspa.Registry.{
  Registry, entry, enoent, provides, has_from, registry_has, weight, is_better, pick_from,
  select_for,
}

-- Image `b` is preferred to `j`, or is `j`: fewer capabilities, then a lower rank, then an
-- earlier registration.
abbrev pub Preferred : (ℕ → ℕ) → Registry → ℕ → ℕ → Type 0
Preferred hweight32 r b j =
    (weight hweight32 r b < weight hweight32 r j)
    ⊎ ((weight hweight32 r b ≡ weight hweight32 r j) × ((entry r b).id.rank < (entry r j).id.rank))
    ⊎ ((weight hweight32 r b ≡ weight hweight32 r j)
        × ((entry r b).id.rank ≡ (entry r j).id.rank)
        × (b ≤ j))

-- The index is the preferred provider among the first `n` images, or -1 if none provides.
abbrev pub IsChoice : (ℕ → ℕ) → Registry → ℕ → ℕ → ℤ → Type 0
IsChoice hweight32 r caps n (negsuc m) =
    (m ≡ 0) × ((j : ℕ) → j < n → provides r (pos j) caps ≡ false)
IsChoice hweight32 r caps n (pos b) =
    (b < n)
    × (provides r (pos b) caps ≡ true)
    × ((j : ℕ) → j < n → provides r (pos j) caps ≡ true → Preferred hweight32 r b j)

module _ (hweight32 : ℕ → ℕ) (r : Registry) (caps : ℕ) where
  -- One round of the loop.
  step : ℕ → ℤ → ℤ
  step i best = if provides r (pos i) caps && is_better hweight32 r i best then pos i else best

  below_suc : (j i : ℕ) → j < i + 1 → (j < i) ⊎ (j ≡ i)
  below_suc j i h = omega arith

  step-skip :
      (i : ℕ) (best : ℤ)
      → provides r (pos i) caps ≡ false
      → IsChoice hweight32 r caps i best
      → IsChoice hweight32 r caps (i + 1) best
  step-skip i (negsuc m) e (z, h) =
      (z, λ j lt. elim (below_suc j i lt) [ inl l ↦ h j l | inr p ↦ rw p e ])
  step-skip i (pos b) e (lt, p, h) = (
    omega arith,
    p,
    λ j ltj q. elim (below_suc j i ltj) [ inl l ↦ h j l q | inr k ↦ absurd (cc (ap' j k, q, e)) ],
  )
    where
      ap' : (j : ℕ) → j ≡ i → provides r (pos j) caps ≡ provides r (pos i) caps
      ap' j k = cc

  better_facts :
      (i b : ℕ)
      → is_better hweight32 r i (pos b) ≡ true
      → (weight hweight32 r i < weight hweight32 r b)
        ⊎ ((weight hweight32 r i ≡ weight hweight32 r b)
            × ((entry r i).id.rank < (entry r b).id.rank))
  unfolding is_better
  better_facts i b h = ground arith

  worse_facts :
      (i b : ℕ) → b ≤ i → is_better hweight32 r i (pos b) ≡ false → Preferred hweight32 r b i
  unfolding is_better
  worse_facts i b lt h = ground arith

  Preferred-trans :
      (a b c : ℕ)
      → (weight hweight32 r a < weight hweight32 r b)
        ⊎ ((weight hweight32 r a ≡ weight hweight32 r b)
            × ((entry r a).id.rank < (entry r b).id.rank))
      → Preferred hweight32 r b c
      → Preferred hweight32 r a c
  Preferred-trans a b c h k = omega arith

  step-take :
      (i : ℕ) (best : ℤ)
      → provides r (pos i) caps ≡ true
      → is_better hweight32 r i best ≡ true
      → IsChoice hweight32 r caps i best
      → IsChoice hweight32 r caps (i + 1) (pos i)
  step-take i (negsuc m) e t (z, h) = (
    omega arith,
    e,
    λ j lt q. elim (below_suc j i lt) [
      | inl l ↦ absurd (cc (h j l, q))
      | inr k ↦ inr (inr (cc, cc, omega arith))
    ],
  )
  step-take i (pos b) e t (lt, p, h) = (
    omega arith,
    e,
    λ j ltj q. elim (below_suc j i ltj) [
      | inl l ↦ Preferred-trans i b j (better_facts i b t) (h j l q)
      | inr k ↦ inr (inr (cc, cc, omega arith))
    ],
  )

  step-keep :
      (i : ℕ) (best : ℤ)
      → provides r (pos i) caps ≡ true
      → is_better hweight32 r i best ≡ false
      → IsChoice hweight32 r caps i best
      → IsChoice hweight32 r caps (i + 1) best
  unfolding is_better
  step-keep i (negsuc m) e t c = absurd (cc t)
  step-keep i (pos b) e t (lt, p, h) = (
    omega arith,
    p,
    λ j ltj q. elim (below_suc j i ltj) [
      | inl l ↦ h j l q
      | inr k ↦ rw k (worse_facts i b (omega arith) t)
    ],
  )

  pick_from-IsChoice :
      (k i n : ℕ) (best : ℤ)
      → i + k ≡ n
      → IsChoice hweight32 r caps i best
      → IsChoice hweight32 r caps n (pick_from hweight32 r caps k i best)
  unfolding pick_from
  pick_from-IsChoice zero i n best e c = let q : i ≡ n = omega arith in rw (← q) c
  pick_from-IsChoice (suc k) i n best e c = elim (Bool-cases (provides r (pos i) caps)) [
    | inr skip ↦
        rw skip (pick_from-IsChoice k (i + 1) n best (omega arith) (step-skip i best skip c))
    | inl e' ↦ elim (Bool-cases (is_better hweight32 r i best)) [
      | inl t ↦
          rw (e', t)
            (pick_from-IsChoice k (i + 1) n (pos i) (omega arith) (step-take i best e' t c))
      | inr t ↦
          rw (e', t) (pick_from-IsChoice k (i + 1) n best (omega arith) (step-keep i best e' t c))
    ]
  ]

  pub picked : IsChoice hweight32 r caps r.cnt (pick_from hweight32 r caps r.cnt 0 (negsuc 0))
  picked =
      pick_from-IsChoice r.cnt 0 r.cnt (negsuc 0) (omega arith) (refl, λ j h. absurd (omega arith))

has_from-true :
    (r : Registry) (caps k i j : ℕ)
    → i ≤ j
    → j < i + k
    → provides r (pos j) caps ≡ true
    → has_from r caps k i ≡ true
unfolding has_from
has_from-true r caps zero i j a b h = absurd (omega arith)
has_from-true r caps (suc k) i j a b h = elim (Bool-cases (provides r (pos i) caps)) [
  | inl e ↦ rw e
  | inr e ↦
      let ne : i ≢ j = λ q. cc in
      rw e (has_from-true r caps k (i + 1) j (omega arith) (omega arith) h)
]

has_from-find :
    (r : Registry) (caps k i : ℕ)
    → has_from r caps k i ≡ true
    → (j : ℕ) × (j < i + k) × (provides r (pos j) caps ≡ true)
unfolding has_from
has_from-find r caps zero i h = cc
has_from-find r caps (suc k) i h = elim (Bool-cases (provides r (pos i) caps)) [
  | inl e ↦ (i, omega arith, e)
  | inr e ↦ let (j, lt, p) = has_from-find r caps k (i + 1) (rw e at h) in (j, omega arith, p)
]

-- An image provides only if it is one of the registered ones.
pub provides-lt : (r : Registry) (i caps : ℕ) → provides r (pos i) caps ≡ true → i < r.cnt
unfolding provides
provides-lt r i caps h = ground arith

-- The index -1 provides nothing.
provides-negsuc : (r : Registry) (n caps : ℕ) → ¬ (provides r (negsuc n) caps ≡ true)
unfolding provides
provides-negsuc r n caps h = cc

-- The selection plays no part in what an image provides.
provides-select :
    (r : Registry) (s z : ℤ) (caps : ℕ)
    → provides r z caps ≡ true
    → provides (record r { selected = s }) z caps ≡ true
unfolding provides
provides-select r s (pos i) caps h = h
provides-select r s (negsuc n) caps h = h

provides-registry_has :
    (r : Registry) (z : ℤ) (caps : ℕ) → provides r z caps ≡ true → registry_has r caps ≡ true
unfolding registry_has
provides-registry_has r (negsuc n) caps h = absurd (provides-negsuc r n caps h)
provides-registry_has r (pos i) caps h =
    has_from-true r caps r.cnt 0 i (omega arith) (omega (arith, provides-lt r i caps h)) h

choice_none :
    (hweight32 : ℕ → ℕ) (r : Registry) (caps : ℕ) (z : ℤ)
    → IsChoice hweight32 r caps r.cnt z
    → is_neg z ≡ true
    → registry_has r caps ≡ false
unfolding registry_has
choice_none hweight32 r caps (pos b) c h = absurd (cc h)
choice_none hweight32 r caps (negsuc m) (z, none_provides) h =
    elim (Bool-cases (has_from r caps r.cnt 0)) [
      | inr e ↦ e
      | inl e ↦
          let (j, lt, p) = has_from-find r caps r.cnt 0 e in
          absurd (cc (none_provides j (omega arith), p))
    ]

choice_some :
    (hweight32 : ℕ → ℕ) (r : Registry) (caps : ℕ) (z : ℤ)
    → IsChoice hweight32 r caps r.cnt z
    → is_neg z ≡ false
    → provides r z caps ≡ true
choice_some hweight32 r caps (pos b) (lt, p, best) h = p
choice_some hweight32 r caps (negsuc m) c h = absurd (cc h)

module _ (hweight32 : ℕ → ℕ) (caps : ℕ) (r : Registry) where
  -- When the running image does not provide the capabilities, the selection becomes the preferred
  -- provider among all the registered images (fewest capabilities, then lowest rank, then
  -- earliest registration), or -1 if no registered image provides them.
  pub select_for-IsChoice :
      provides r r.running caps ≡ false
      → IsChoice hweight32 r caps r.cnt (select_for hweight32 caps r).1.selected
  unfolding select_for
  select_for-IsChoice h = rw h (picked hweight32 r caps)

  -- A running image that provides the capabilities is kept: it becomes the selection, nothing
  -- else changes, and the call succeeds.
  pub select_for_running :
      provides r r.running caps ≡ true
      → select_for hweight32 caps r ≡ (pos 0, record r { selected = r.running })
  unfolding select_for
  select_for_running h = rw h

  -- The call succeeds exactly if some registered image provides the capabilities, and fails with
  -- ENOENT otherwise. After a success the selected image provides them. The images, their count
  -- and the running index stay as they are in every case.
  pub select_for_lem :
      (((select_for hweight32 caps r).0 ≡ pos 0) ↔ (registry_has r caps ≡ true))
      × (registry_has r caps ≡ false → (select_for hweight32 caps r).0 ≡ enoent)
      × ((select_for hweight32 caps r).0 ≡ pos 0
          → provides (select_for hweight32 caps r).1 (select_for hweight32 caps r).1.selected caps
            ≡ true)
      × ((select_for hweight32 caps r).1.entries ≡ r.entries)
      × ((select_for hweight32 caps r).1.cnt ≡ r.cnt)
      × ((select_for hweight32 caps r).1.running ≡ r.running)
  unfolding select_for
  select_for_lem = elim (Bool-cases (provides r r.running caps)) [
    | inl h ↦ rw h (
        let has = provides-registry_has r r.running caps h in
        ((λ _. has, λ _. refl), λ no_has. cc, λ _. provides-select r _ _ caps h, refl, refl, refl))
    | inr h ↦ rw h (elim (Bool-cases (is_neg (pick_from hweight32 r caps r.cnt 0 (negsuc 0)))) [
      | inl neg ↦ rw neg (
          let no_has = choice_none hweight32 r caps _ (picked hweight32 r caps) neg in
          ((λ e. cc, λ e. cc), λ _. refl, λ e. cc, refl, refl, refl))
      | inr found ↦ rw found (
          let p = choice_some hweight32 r caps _ (picked hweight32 r caps) found in
          let has = provides-registry_has r _ caps p in
          ((λ e. has, λ _. refl), λ e. cc, λ _. provides-select r _ _ caps p, refl, refl, refl))
    ])
  ]
