-- ===== src/Vspa/Registry/Slots.antt =====
-- Slots of the registry and the names in them
-- (kernel_driver/la9310shiva/la9310_vspa_registry.c).
use native.Mathlib.Decide.{ℕ_discrete}
use la9310_driver.Base.{
  ℕ, zero, suc, ◌+◌, ◌≤◌, ◌<◌, ◌≡◌, ◌≢◌, refl, inl, inr, true, List, [], ◌∷◌, arith, Bool-cases,
  length, set, get_or-set_self, get_or-set_ne,
}
use la9310_driver.Vspa.Registry.{Registry, Entry, entry, zero_entry, bytes_eq, find_slot}

pub bytes_eq_sound : (xs ys : List ℕ) → bytes_eq xs ys ≡ true → xs ≡ ys
unfolding bytes_eq
bytes_eq_sound [] [] h = refl
bytes_eq_sound [] (y ∷ ys) h = absurd (cc h)
bytes_eq_sound (x ∷ xs) [] h = absurd (cc h)
bytes_eq_sound (x ∷ xs) (y ∷ ys) h = ground (arith, bytes_eq_sound xs ys)

pub bytes_eq_refl : (xs : List ℕ) → bytes_eq xs xs ≡ true
unfolding bytes_eq
bytes_eq_refl [] = refl
bytes_eq_refl (x ∷ xs) = ground (arith, bytes_eq_refl xs)

-- What the search for a name gives, among the slots from `i` to `n`.
record Search (r : Registry) (fwname : List ℕ) (i n s : ℕ) : Type 0 where
  low : i ≤ s
  high : s ≤ n
  old : s < n → (entry r s).fwname ≡ fwname
  new : (j : ℕ) → i ≤ j → j < s → (entry r j).fwname ≢ fwname

find_slot-Search :
    (r : Registry) (fwname : List ℕ) (k i n : ℕ)
    → i + k ≡ n
    → Search r fwname i n (find_slot r fwname k i)
unfolding find_slot
find_slot-Search r fwname zero i n e = record {
  low = omega arith;
  high = omega arith;
  old = λ h. absurd (omega arith);
  new = λ j a b. absurd (omega arith);
}
find_slot-Search r fwname (suc k) i n e = elim (Bool-cases (bytes_eq (entry r i).fwname fwname)) [
  | inl same ↦ rw same (record {
    low = omega arith;
    high = omega arith;
    old = λ _. bytes_eq_sound _ _ same;
    new = λ j a b. absurd (omega arith);
  })
  | inr other ↦
      let rest = find_slot-Search r fwname k (i + 1) n (omega arith) in
      rw other (record {
        low = omega (arith, rest.low);
        high = rest.high;
        old = rest.old;
        new = λ j a b q. elim (ℕ_discrete i j) [
          | yes p ↦ cc (differs p q, other)
          | no p ↦ rest.new j (omega arith) b q
        ];
      })
]
  where
    differs :
        {j : ℕ} → i ≡ j → (entry r j).fwname ≡ fwname → bytes_eq (entry r i).fwname fwname ≡ true
    differs p q = rw p (rw q (bytes_eq_refl fwname))

-- The slot that a name gets: its own if it is registered, or the first free one.
pub record IsSlot (r : Registry) (fwname : List ℕ) (s : ℕ) : Type 0 where
  pub bounded : s ≤ r.cnt
  pub old : s < r.cnt → (entry r s).fwname ≡ fwname
  pub new : (j : ℕ) → j < s → (entry r j).fwname ≢ fwname

pub find_slot-IsSlot :
    (r : Registry) (fwname : List ℕ) → IsSlot r fwname (find_slot r fwname r.cnt 0)
find_slot-IsSlot r fwname =
    let found = find_slot-Search r fwname r.cnt 0 r.cnt (omega arith) in
    record { bounded = found.high; old = found.old; new = λ j h. found.new j (omega arith) h }

-- A slot after a write to slot `s`.
pub entry-set_self :
    (r : Registry) (s : ℕ) (e : Entry)
    → s < length r.entries
    → entry (record r { entries = set r.entries s e }) s ≡ e
entry-set_self r s e h = get_or-set_self r.entries s e zero_entry h

pub entry-set_ne :
    (r : Registry) (s j : ℕ) (e : Entry)
    → s ≢ j
    → entry (record r { entries = set r.entries s e }) j ≡ entry r j
entry-set_ne r s j e h = get_or-set_ne r.entries e zero_entry h
