-- ===== src/Vspa/Registry/LostCopy.antt =====
-- A failed allocation in `rfnm_vspa_registry_register`
-- (kernel_driver/la9310shiva/la9310_vspa_registry.c).
use native.Mathlib.Decide.{ℕ_discrete}
use la9310_driver.Base.{
  ℕ, ◌<◌, ◌≡◌, refl, sym, ◌∙◌, true, false, ◌&&◌, none, some, List, arith, leb, ◌==◌, length, set,
  ℤ, pos,
}
use la9310_driver.Vspa.Registry.{
  Registry, VspaIdent, entry, reg_max, find_slot, verify, publish, conclude, register, provides,
  enomem,
}
use la9310_driver.Vspa.Registry.Slots.{IsSlot, find_slot-IsSlot, entry-set_self}
use la9310_driver.Vspa.Registry.Register.{IsValid}

-- The slot of a registered name is the one that holds it.
IsSlot-unique :
    (r : Registry) (fwname : List ℕ) (s s' : ℕ)
    → IsValid r
    → s < r.cnt
    → (entry r s).fwname ≡ fwname
    → IsSlot r fwname s'
    → s' ≡ s
IsSlot-unique r fwname s s' v lt named slot = elim (ℕ_discrete s' r.cnt) [
  | yes p ↦ absurd (slot.new s (omega arith) named)
  | no p ↦
      let below : s' < r.cnt = omega (arith, slot.bounded) in
      v.distinct s' s below lt (slot.old below ∙ sym named)
]

module _ (r : Registry) (fwname : List ℕ) (s : ℕ) (v : IsValid r) (lt : s < r.cnt)
    (named : (entry r s).fwname ≡ fwname) where
  -- The registry with the copy in slot `s` gone.
  emptied : Registry
  emptied = record r { entries = set r.entries s (record (entry r s) { blob = none }) }

  publish-emptied : (d : List ℕ) (id : VspaIdent) → publish false fwname d id r ≡ (enomem, emptied)
  unfolding publish emptied
  publish-emptied d id =
      let e : find_slot r fwname r.cnt 0 ≡ s =
        IsSlot-unique r fwname s _ v lt named (find_slot-IsSlot r fwname) in
      let below : (s == r.cnt && r.cnt == reg_max) ≡ false = ground arith in rw (e, below)

  entry-emptied : entry emptied s ≡ record (entry r s) { blob = none }
  unfolding emptied
  entry-emptied =
      entry-set_self r s (record (entry r s) { blob = none }) (omega (arith, v.slots, v.few))

  provides-emptied : (caps : ℕ) → provides emptied (pos s) caps ≡ provides r (pos s) caps
  unfolding provides
  provides-emptied caps = rw entry-emptied (unfold emptied in refl)

  register-emptied :
      (request : List ℕ → ℤ × List ℕ) (id : VspaIdent)
      → length fwname < 64
      → (request fwname).0 ≡ pos 0
      → verify (request fwname).1 ≡ some (some id)
      → register true request false fwname r ≡ some (enomem, emptied)
  unfolding register conclude
  register-emptied request id short fetched good =
      let fits : leb 64 (length fwname) ≡ false = ground arith in
      rw (fits, fetched, good, publish-emptied (request fwname).1 id)

  -- Registering a name again when the allocation of the copy fails: the call reports ENOMEM, and
  -- the slot has lost the copy that it had. Yet the slot stays registered with the identity of
  -- the lost image, so it goes on providing the same capabilities and may stay selected.
  pub register-enomem :
      (request : List ℕ → ℤ × List ℕ) (id : VspaIdent) (rc : ℤ) (r' : Registry) (caps : ℕ)
      → length fwname < 64
      → (request fwname).0 ≡ pos 0
      → verify (request fwname).1 ≡ some (some id)
      → register true request false fwname r ≡ some (rc, r')
      → (rc ≡ enomem)
        × ((entry r' s).blob ≡ none)
        × (provides r' (pos s) caps ≡ provides r (pos s) caps)
        × (r'.selected ≡ r.selected)
  unfolding emptied
  register-enomem request id rc r' caps short fetched good e =
      let same : some (enomem, emptied) ≡ some (rc, r') =
        sym (register-emptied request id short fetched good) ∙ e in
      let state : emptied ≡ r' = cc same in
      (cc same, rw (← state) (rw entry-emptied), rw (← state) (provides-emptied caps), rw (← state))
