-- ===== src/Vspa/Registry/Reselect.antt =====
-- What `rfnm_vspa_select_for` keeps (kernel_driver/la9310shiva/la9310_vspa_registry.c).
use la9310_driver.Base.{ℕ, inl, inr, Bool-cases, ℤ, pos, negsuc}
use la9310_driver.Vspa.Registry.{Registry, provides, select_for}
use la9310_driver.Vspa.Registry.Register.{IsValid, InRange}
use la9310_driver.Vspa.Registry.Select.{IsChoice, picked}

-- The selection may become any index in range.
pub IsValid-select :
    (r : Registry) (z : ℤ) → InRange r.cnt z → IsValid r → IsValid (record r { selected = z })
IsValid-select r z h v = record {
  slots = v.slots;
  few = v.few;
  cached = v.cached;
  distinct = v.distinct;
  selected_in = h;
  running_in = v.running_in;
}

IsChoice-InRange :
    (hweight32 : ℕ → ℕ) (r : Registry) (caps : ℕ) (z : ℤ)
    → IsChoice hweight32 r caps r.cnt z
    → InRange r.cnt z
IsChoice-InRange hweight32 r caps (negsuc m) c = c.0
IsChoice-InRange hweight32 r caps (pos i) c = c.0

-- Every selection, made or refused, keeps the invariant of the registry.
pub select_for-IsValid :
    (hweight32 : ℕ → ℕ) (caps : ℕ) (r : Registry)
    → IsValid r
    → IsValid (select_for hweight32 caps r).1
unfolding select_for
select_for-IsValid hweight32 caps r v = elim (Bool-cases (provides r r.running caps)) [
  | inl h ↦ rw h (IsValid-select r r.running v.running_in v)
  | inr h ↦
      rw h (IsValid-select r _ (IsChoice-InRange hweight32 r caps _ (picked hweight32 r caps)) v)
]
