-- ===== src/Vspa/Registry/Outcome.antt =====
-- The outcomes of `rfnm_vspa_registry_register`
-- (kernel_driver/la9310shiva/la9310_vspa_registry.c).

use la9310_driver.Base.{
  ℕ, ◌+◌, ◌%◌, ◌^◌, ◌≤◌, ◌<◌, ◌≡◌, ◌≢◌, refl, ap, inl, inr, Bool, true, false, not, ◌&&◌, Option,
  none, some, List, arith, leb, ◌==◌, if-intro, Bool-cases, length, ℤ, pos, is_zero,
}
use la9310_driver.Base.Fault.{
  Safe, Safe-bind, Safe-if, Ensures, Ensures-some, Ensures-bind, Ensures-if, le32-Safe,
}
use la9310_driver.Vspa.Ident.{find_ident}
use la9310_driver.Vspa.Ident.Bounds.{find_ident-Safe}
use la9310_driver.Vspa.Ident.Found.{find_ident-Found}
use la9310_driver.Vspa.Registry.{
  Registry, Entry, VspaIdent, entry, reg_max, find_slot, read_ident, ident_magic, abi_current,
  payload, accepts, verify_at, verify, conclude, publish, register, enodev, enametoolong,
}
use la9310_driver.Vspa.Registry.Slots.{find_slot-IsSlot, entry-set_self, entry-set_ne}
use la9310_driver.Vspa.Registry.Register.{IsValid, slot_free, publish-IsValid}

read_ident-Safe : (d : List ℕ) (off : ℕ) → off + 104 ≤ length d → Safe (read_ident d off)
unfolding read_ident
read_ident-Safe d off h = Safe-bind _ _ (le32-Safe d _ (omega arith)) λ _ _.
    Safe-bind _ _ (le32-Safe d _ (omega arith)) λ _ _.
      Safe-bind _ _ (le32-Safe d _ (omega arith)) λ _ _.
        Safe-bind _ _ (le32-Safe d _ (omega arith)) λ _ _.
          Safe-bind _ _ (le32-Safe d _ (omega arith))
            λ _ _. Safe-bind _ _ (le32-Safe d _ (omega arith)) λ _ _. (_, refl)

accepts-Safe : (d : List ℕ) (id : VspaIdent) → Safe (accepts d id)
unfolding accepts payload
accepts-Safe d id =
    Safe-if (not (id.magic == ident_magic && id.abi == abi_current)) _ _ (λ _. (_, refl))
      λ _.
        if-intro Safe (not (leb id.orig_size (length d))) _ _ (λ _. (_, refl))
          λ fits.
            let inside : leb id.orig_size (length d) ≡ true = ground arith in rw inside (_, refl)

verify_at-Safe :
    (d : List ℕ) (found : Option ℕ)
    → find_ident d (length d % 2 ^ 32) ≡ some found
    → Safe (verify_at d found)
unfolding verify_at
verify_at-Safe d none e = (none, refl)
verify_at-Safe d (some off) e =
    let (t, _, i, _, section) = find_ident-Found d (length d % 2 ^ 32) off e in
    Safe-bind _ _ (read_ident-Safe d off (omega (arith, section.room)))
      λ id _. Safe-bind _ _ (accepts-Safe d id) λ ok _. (_, refl)

-- The verification of an image reads no byte outside the image, whatever the image holds: neither the
-- search for the identity, nor the identity, nor the checksum over the size that the identity names.
pub verify-Safe : (d : List ℕ) → Safe (verify d)
unfolding verify
verify-Safe d =
    Safe-bind _ _ (find_ident-Safe d (length d % 2 ^ 32) (omega arith))
      λ found e. verify_at-Safe d found e

-- The slot array after a registration: `e` at slot `s`, every other slot as it was.
pub record IsStored (r r' : Registry) (s : ℕ) (e : Entry) : Type 0 where
  pub visible : s < r'.cnt
  pub stored : entry r' s ≡ e
  pub others : (j : ℕ) → s ≢ j → entry r' j ≡ entry r j
  pub next_free : s ≤ r.cnt
  pub first : (j : ℕ) → j < s → (entry r j).fwname ≢ e.fwname
  pub known : s < r.cnt → ((entry r s).fwname ≡ e.fwname) × (r'.cnt ≡ r.cnt)
  pub appended : s ≡ r.cnt → r'.cnt ≡ r.cnt + 1
  pub selected_kept : r'.selected ≡ r.selected
  pub running_kept : r'.running ≡ r.running

-- The entry that an image gets.
abbrev pub entry_of : List ℕ → List ℕ → VspaIdent → Entry
entry_of fwname d id = record { fwname = fwname; id = id; blob = some d; size = length d }

publish-IsStored :
    (fwname d : List ℕ) (id : VspaIdent) (r : Registry)
    → IsValid r
    → (publish true fwname d id r).0 ≡ pos 0
    → (s : ℕ) × IsStored r (publish true fwname d id r).1 s (entry_of fwname d id)
unfolding publish
publish-IsStored fwname d id r v =
    let s = find_slot r fwname r.cnt 0 in
    let slot = find_slot-IsSlot r fwname in
    elim (Bool-cases (s == r.cnt && r.cnt == reg_max)) [
      | inl full ↦ rw full (λ e. absurd (cc e))
      | inr free ↦
          let lt = slot_free s r.cnt slot.bounded v.few free in
          rw free (λ _. (
            s,
            record {
              visible = ground (arith, slot.bounded);
              stored = entry-set_self r s (entry_of fwname d id) (omega (arith, v.slots));
              others = λ j ne. entry-set_ne r s j (entry_of fwname d id) ne;
              next_free = slot.bounded;
              first = slot.new;
              known = λ h. (slot.old h, ground arith);
              appended = λ h. ground arith;
              selected_kept = refl;
              running_kept = refl;
            },
          ))
    ]

publish_refused :
    (fwname d : List ℕ) (id : VspaIdent) (r : Registry)
    → (publish true fwname d id r).0 ≢ pos 0
    → (publish true fwname d id r).1 ≡ r
unfolding publish
publish_refused fwname d id r h =
    elim (Bool-cases (find_slot r fwname r.cnt 0 == r.cnt && r.cnt == reg_max)) [
      | inl full ↦ rw full
      | inr free ↦ absurd (h (rw free))
    ]

conclude-IsValid :
    (fwname d : List ℕ) (verdict : Option VspaIdent) (r : Registry)
    → verify d ≡ some verdict
    → IsValid r
    → IsValid (conclude true fwname d verdict r).1
unfolding conclude
conclude-IsValid fwname d none r q v = v
conclude-IsValid fwname d (some id) r q v = publish-IsValid fwname d id r q v

conclude_refused :
    (fwname d : List ℕ) (verdict : Option VspaIdent) (r : Registry)
    → (conclude true fwname d verdict r).0 ≢ pos 0
    → (conclude true fwname d verdict r).1 ≡ r
unfolding conclude
conclude_refused fwname d none r h = refl
conclude_refused fwname d (some id) r h = publish_refused fwname d id r h

-- What a registration with code 0 means.
abbrev Stored : List ℕ → List ℕ → Registry → ℤ × Registry → Type 0
Stored fwname d r t =
    t.0 ≡ pos 0
    → (id : VspaIdent) × (verify d ≡ some (some id))
      × (s : ℕ) × IsStored r t.1 s (entry_of fwname d id)

conclude-Stored :
    (fwname d : List ℕ) (verdict : Option VspaIdent) (r : Registry)
    → verify d ≡ some verdict
    → IsValid r
    → Stored fwname d r (conclude true fwname d verdict r)
unfolding conclude
conclude-Stored fwname d none r q v h = absurd (cc h)
conclude-Stored fwname d (some id) r q v h =
    let (s, stored) = publish-IsStored fwname d id r v h in (id, q, s, stored)

module _ (dev : Bool) (request : List ℕ → ℤ × List ℕ) (fwname : List ℕ) (r : Registry) where
  -- A registration always comes to an end with a code, and reads no byte outside the image.
  pub register-Safe : (alloc : Bool) → Safe (register dev request alloc fwname r)
  unfolding register
  register-Safe alloc =
      Safe-if (not dev) _ _ (λ _. (_, refl))
        λ _.
          Safe-if (leb 64 (length fwname)) _ _ (λ _. (_, refl))
            λ _.
              Safe-if (not (is_zero (request fwname).0)) _ _ (λ _. (_, refl))
                λ _. Safe-bind _ _ (verify-Safe (request fwname).1) λ verdict _. (_, refl)

  -- A property of the outcome that holds of each early return and of each verdict.
  register-Ensures :
      (P : ℤ × Registry → Type 0)
      → P (enodev, r)
      → P (enametoolong, r)
      → (is_zero (request fwname).0 ≡ false → P ((request fwname).0, r))
      → ((verdict : Option VspaIdent)
          → verify (request fwname).1 ≡ some verdict
          → P (conclude true fwname (request fwname).1 verdict r))
      → Ensures P (register dev request true fwname r)
  unfolding register
  register-Ensures P absent long failed decided =
      Ensures-if P (not dev) _ _ (λ _. Ensures-some P _ absent)
        λ _.
          Ensures-if P (leb 64 (length fwname)) _ _ (λ _. Ensures-some P _ long)
            λ _.
              Ensures-if P (not (is_zero (request fwname).0)) _ _
                (λ h. Ensures-some P _ (failed (ground (arith, h))))
                λ _.
                  Ensures-bind P (verify (request fwname).1) _
                    λ verdict q. Ensures-some P _ (decided verdict q)

  -- Every registration, accepted or refused, keeps the invariant of the registry, if the
  -- allocation of the copy succeeds.
  pub register-IsValid :
      (rc : ℤ) (r' : Registry)
      → register dev request true fwname r ≡ some (rc, r')
      → IsValid r
      → IsValid r'
  register-IsValid rc r' e v =
      register-Ensures (λ t. IsValid t.1) v v (λ _. v)
        (λ verdict q. conclude-IsValid fwname (request fwname).1 verdict r q v) (rc, r') e

  -- A registration that is refused, for whatever reason but a failed allocation, changes nothing.
  pub register_refused :
      (rc : ℤ) (r' : Registry)
      → register dev request true fwname r ≡ some (rc, r')
      → rc ≢ pos 0
      → r' ≡ r
  register_refused rc r' e =
      register-Ensures (λ t. t.0 ≢ pos 0 → t.1 ≡ r) (λ _. refl) (λ _. refl) (λ _ _. refl)
        (λ verdict q. conclude_refused fwname (request fwname).1 verdict r) (rc, r') e

  -- After a registration with code 0 the image was verified, and one slot that the count covers
  -- holds its name, its identity and a copy of its bytes. That is the first slot that had the name,
  -- or the next free one if no slot had it. All other slots, the selection and the running index
  -- are as before.
  pub register-IsStored :
      (r' : Registry)
      → register dev request true fwname r ≡ some (pos 0, r')
      → IsValid r
      → (id : VspaIdent) × (verify (request fwname).1 ≡ some (some id))
        × (s : ℕ) × IsStored r r' s (entry_of fwname (request fwname).1 id)
  register-IsStored r' e v =
      register-Ensures (Stored fwname (request fwname).1 r) (λ h. absurd (cc h))
        (λ h. absurd (cc h)) (λ failed h. absurd (cc (ap is_zero h, failed)))
        (λ verdict q. conclude-Stored fwname (request fwname).1 verdict r q v) (pos 0, r') e refl
