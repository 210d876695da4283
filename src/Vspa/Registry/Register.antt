-- ===== src/Vspa/Registry/Register.antt =====
-- What `rfnm_vspa_registry_register` keeps
-- (kernel_driver/la9310shiva/la9310_vspa_registry.c).
use native.Mathlib.Decide.{ℕ_discrete}
use la9310_driver.Base.{
  ℕ, ◌+◌, ◌≤◌, ◌<◌, ◌≡◌, ◌≢◌, refl, sym, ◌∙◌, inl, inr, true, false, ◌&&◌, some, List, arith, ◌==◌,
  if◌then◌else◌, Bool-cases, length, set, length-set, ℤ, pos, negsuc,
}
use la9310_driver.Vspa.Registry.{
  Registry, Entry, VspaIdent, entry, reg_max, find_slot, verify, publish,
}
use la9310_driver.Vspa.Registry.Slots.{IsSlot, find_slot-IsSlot, entry-set_self, entry-set_ne}

-- The slot caches an image with the identity that was verified on it.
pub record IsCached (e : Entry) : Type 0 where
  pub image : List ℕ
  pub held : e.blob ≡ some image
  pub sized : e.size ≡ length image
  pub verified : verify image ≡ some (some e.id)

-- An index is -1 or that of a registered image.
abbrev pub InRange : ℕ → ℤ → Type 0
InRange n (pos i) = i < n
InRange n (negsuc m) = m ≡ 0

InRange-mono : (m n : ℕ) (z : ℤ) → m ≤ n → InRange m z → InRange n z
InRange-mono m n (pos i) h k = omega arith
InRange-mono m n (negsuc i) h k = k

pub record IsValid (r : Registry) : Type 0 where
  pub slots : length r.entries ≡ reg_max
  pub few : r.cnt ≤ reg_max
  pub cached : (i : ℕ) → i < r.cnt → IsCached (entry r i)
  pub distinct : (i j : ℕ) → i < r.cnt → j < r.cnt → (entry r i).fwname ≡ (entry r j).fwname → i ≡ j
  pub selected_in : InRange r.cnt r.selected
  pub running_in : InRange r.cnt r.running

-- The registry with an image written to slot `s`, and the count `n`.
abbrev store : Registry → ℕ → Entry → ℕ → Registry
store r s e n = record r { entries = set r.entries s e; cnt = n }

module _ (r : Registry) (v : IsValid r) (fwname : List ℕ) (s : ℕ) (slot : IsSlot r fwname s)
    (e : Entry) (named : e.fwname ≡ fwname) (n : ℕ) where
  store_other : (j : ℕ) → s ≢ j → entry (store r s e n) j ≡ entry r j
  store_other j h = entry-set_ne r s j e h

  store_distinct_slot : s < reg_max → (j : ℕ) → j ≢ s → (j < r.cnt) → (entry r j).fwname ≢ fwname
  store_distinct_slot lt j ne inside q = elim (ℕ_discrete s r.cnt) [
    | yes p ↦ slot.new j (omega arith) q
    | no p ↦
        let below : s < r.cnt = omega (arith, slot.bounded) in
        ne (v.distinct j s inside below (q ∙ sym (slot.old below)))
  ]

  store_self : s < reg_max → (j : ℕ) → s ≡ j → entry (store r s e n) j ≡ e
  store_self lt j p = rw (← p) (entry-set_self r s e (omega (arith, v.slots)))

  store-distinct :
      s < reg_max
      → ((j : ℕ) → j < n → j ≢ s → j < r.cnt)
      → (i j : ℕ) → i < n
      → j < n
      → (entry (store r s e n) i).fwname ≡ (entry (store r s e n) j).fwname
      → i ≡ j
  store-distinct lt only i j hi hj q = elim (ℕ_discrete s i) [
    | yes p ↦ elim (ℕ_discrete s j) [
      | yes p' ↦ sym p ∙ p'
      | no p' ↦
          let differs = store_distinct_slot lt j (λ h. p' (sym h)) (only j hj (λ h. p' (sym h))) in
          absurd (differs (cc (store_other j p', store_self lt i p, q, named)))
    ]
    | no p ↦ elim (ℕ_discrete s j) [
      | yes p' ↦
          let differs = store_distinct_slot lt i (λ h. p (sym h)) (only i hi (λ h. p (sym h))) in
          absurd (differs (cc (store_other i p, store_self lt j p', q, named)))
      | no p' ↦
          v.distinct i j (only i hi (λ h. p (sym h))) (only j hj (λ h. p' (sym h)))
            (cc (store_other i p, store_other j p', q))
    ]
  ]

  -- A write of a verified image keeps the invariant, if it fills the gap below the new count.
  store-IsValid :
      IsCached e
      → s < reg_max
      → r.cnt ≤ n
      → n ≤ reg_max
      → ((j : ℕ) → j < n → j ≢ s → j < r.cnt)
      → IsValid (store r s e n)
  store-IsValid good lt grows fits only = record {
    slots = length-set r.entries s e ∙ v.slots;
    few = fits;
    cached = λ i h. elim (ℕ_discrete s i) [
      | yes p ↦ rw (← p) (rw (entry-set_self r s e (omega (arith, v.slots))) good)
      | no p ↦ rw (store_other i p) (v.cached i (only i h (λ q. p (sym q))))
    ];
    distinct = store-distinct lt only;
    selected_in = InRange-mono r.cnt n r.selected grows v.selected_in;
    running_in = InRange-mono r.cnt n r.running grows v.running_in;
  }

-- Where the slot is not the free one past the last of eight, it is a slot of the array.
pub slot_free :
    (s cnt : ℕ) → s ≤ cnt → cnt ≤ reg_max → (s == cnt && cnt == reg_max) ≡ false → s < reg_max
slot_free s cnt a b h = ground arith

new_cnt :
    (s cnt : ℕ)
    → s ≤ cnt
    → s < reg_max
    → cnt ≤ reg_max
    → let n = if s == cnt then cnt + 1 else cnt in
      (cnt ≤ n) × (n ≤ reg_max) × (s < n) × ((j : ℕ) → j < n → j ≢ s → j < cnt)
new_cnt s cnt a b c = elim (Bool-cases (s == cnt)) [
  | inl e ↦ rw e (ground arith, ground arith, ground arith, λ j h ne. ground arith)
  | inr e ↦ rw e (ground arith, ground arith, ground arith, λ j h ne. ground arith)
]

pub publish-IsValid :
    (fwname d : List ℕ) (id : VspaIdent) (r : Registry)
    → verify d ≡ some (some id)
    → IsValid r
    → IsValid (publish true fwname d id r).1
unfolding publish
publish-IsValid fwname d id r good v =
    let s = find_slot r fwname r.cnt 0 in
    let slot = find_slot-IsSlot r fwname in
    elim (Bool-cases (s == r.cnt && r.cnt == reg_max)) [
      | inl full ↦ rw full v
      | inr free ↦
          let lt = slot_free s r.cnt slot.bounded v.few free in
          let (grows, fits, _, only) = new_cnt s r.cnt slot.bounded lt v.few in
          let e : Entry = record { fwname = fwname; id = id; blob = some d; size = length d } in
          let c : IsCached e = record { image = d; held = refl; sized = refl; verified = good } in
          rw free (store-IsValid r v fwname s slot e refl _ c lt grows fits only)
    ]
