-- ===== src/Vspa/Bus/Rules.antt =====
-- Rules for the pieces of the VSPA driver (kernel_driver/la9310shiva): what holds of the value and
-- of the state after a piece, and what the register accesses leave alone.
use la9310_driver.Base.{
  ℕ, ◌≡◌, refl, ◌∙◌, Bool, true, false, if◌then◌else◌, Bool-cases, inl, inr, List,
}
use la9310_driver.Vspa.Bus.{
  Bus, Dev, Sys, M, ◌>>=◌, ◌>>◌, return, modify, modify_reg, get_dev, reg_read, reg_write, usleep,
  mmio_fenced, readl_poll_timeout, stage_bytes, set_host_ready, alloc,
}
use la9310_driver.Vspa.Registry.{Registry}

-- The driver's own fields and the registry are the same in both states.
pub record SameFields {b : Bus} (s s' : Sys b) : Type 0 where
  pub dev_kept : s'.dev ≡ s.dev
  pub reg_kept : s'.reg ≡ s.reg

pub SameFields-refl : {b : Bus} (s : Sys b) → SameFields s s
SameFields-refl s = record { dev_kept = refl; reg_kept = refl }

pub SameFields-trans : {b : Bus} {s t u : Sys b} → SameFields s t → SameFields t u → SameFields s u
SameFields-trans h k = record {
  dev_kept = k.dev_kept ∙ h.dev_kept;
  reg_kept = k.reg_kept ∙ h.reg_kept;
}

-- A piece that leaves the driver's own fields alone.
pub record Keeps {b : Bus} {A : Type 0} (m : M b A) : Type 0 where
  pub keeps : (s : Sys b) → SameFields s (m s).1

-- `P` holds of the value and the state after the piece `m` from the state `s`.
pub record After {b : Bus} {A : Type 0} (P : A → Sys b → Type 0) (m : M b A) (s : Sys b)
    : Type 0 where
  pub holds : P (m s).0 (m s).1

module _ {b : Bus} {A B : Type 0} (m : M b A) where
  pub Keeps-bind : (f : A → M b B) → Keeps m → ((a : A) → Keeps (f a)) → Keeps (m >>= f)
  unfolding ◌>>=◌
  Keeps-bind f h k = record {
    keeps = λ s. SameFields-trans (h.keeps s) ((k (m s).0).keeps (m s).1);
  }

  pub Keeps-then : (k : M b B) → Keeps m → Keeps k → Keeps (m >> k)
  unfolding ◌>>◌
  Keeps-then k h g = record { keeps = λ s. SameFields-trans (h.keeps s) (g.keeps (m s).1) }

  -- The rule for a sequence.
  pub After-bind :
      (P : B → Sys b → Type 0) (f : A → M b B) (s : Sys b)
      → After P (f (m s).0) (m s).1
      → After P (m >>= f) s
  unfolding ◌>>=◌
  After-bind P f s h = record { holds = h.holds }

  pub After-then :
      (P : B → Sys b → Type 0) (k : M b B) (s : Sys b) → After P k (m s).1 → After P (m >> k) s
  unfolding ◌>>◌
  After-then P k s h = record { holds = h.holds }

  -- The first piece leaves the fields alone: the second may rely on those of `s₀`.
  pub After-keep :
      (P : B → Sys b → Type 0) (f : A → M b B) (s₀ s : Sys b)
      → Keeps m
      → SameFields s₀ s
      → ((a : A) (s' : Sys b) → (m s).0 ≡ a → SameFields s₀ s' → After P (f a) s')
      → After P (m >>= f) s
  After-keep P f s₀ s k h rest =
      After-bind P f s (rest (m s).0 (m s).1 refl (SameFields-trans h (k.keeps s)))

  pub After-keep_then :
      (P : B → Sys b → Type 0) (k : M b B) (s₀ s : Sys b)
      → Keeps m
      → SameFields s₀ s
      → ((s' : Sys b) → SameFields s₀ s' → After P k s')
      → After P (m >> k) s
  After-keep_then P k s₀ s h same rest =
      After-then P k s (rest (m s).1 (SameFields-trans same (h.keeps s)))

module _ {b : Bus} {A : Type 0} where
  pub Keeps-if : (c : Bool) (x y : M b A) → Keeps x → Keeps y → Keeps (if c then x else y)
  Keeps-if true x y hx hy = hx
  Keeps-if false x y hx hy = hy

  pub Keeps-return : (a : A) → Keeps (return {b = b} a)
  unfolding return
  Keeps-return a = record { keeps = λ s. SameFields-refl s }

  pub After-if :
      (P : A → Sys b → Type 0) (c : Bool) (x y : M b A) (s : Sys b)
      → (c ≡ true → After P x s)
      → (c ≡ false → After P y s)
      → After P (if c then x else y) s
  After-if P true x y s hx hy = hx refl
  After-if P false x y s hx hy = hy refl

  pub After-return : (P : A → Sys b → Type 0) (a : A) (s : Sys b) → P a s → After P (return a) s
  unfolding return
  After-return P a s h = record { holds = h }

module _ {b : Bus} {B : Type 0} (P : B → Sys b → Type 0) where
  pub After-modify :
      (f : Dev → Dev) (k : M b B) (s : Sys b)
      → After P k (record s { dev = f s.dev })
      → After P (modify f >> k) s
  unfolding modify ◌>>◌
  After-modify f k s h = record { holds = h.holds }

  pub After-modify_reg :
      (f : Registry → Registry) (k : M b B) (s : Sys b)
      → After P k (record s { reg = f s.reg })
      → After P (modify_reg f >> k) s
  unfolding modify_reg ◌>>◌
  After-modify_reg f k s h = record { holds = h.holds }

  pub After-get_dev :
      (f : Dev → M b B) (s : Sys b) → After P (f s.dev) s → After P (get_dev >>= f) s
  unfolding get_dev ◌>>=◌
  After-get_dev f s h = record { holds = h.holds }

module _ {b : Bus} where
  pub reg_read-Keeps : (at : ℕ) → Keeps (reg_read {b = b} at)
  unfolding reg_read
  reg_read-Keeps at = record {
    keeps = λ s. elim (Bool-cases (b.fenced s.hw)) [
      | inl e ↦ rw e (SameFields-refl s)
      | inr e ↦ rw e (record { dev_kept = refl; reg_kept = refl })
    ];
  }

  pub reg_write-Keeps : (at v : ℕ) → Keeps (reg_write {b = b} at v)
  unfolding reg_write
  reg_write-Keeps at v = record {
    keeps = λ s. elim (Bool-cases (b.fenced s.hw)) [
      | inl e ↦ rw e (SameFields-refl s)
      | inr e ↦ rw e (record { dev_kept = refl; reg_kept = refl })
    ];
  }

  pub usleep-Keeps : (us : ℕ) → Keeps (usleep {b = b} us)
  unfolding usleep
  usleep-Keeps us = record { keeps = λ s. record { dev_kept = refl; reg_kept = refl } }

  pub mmio_fenced-Keeps : Keeps (mmio_fenced {b = b})
  unfolding mmio_fenced
  mmio_fenced-Keeps = record { keeps = λ s. SameFields-refl s }

  pub readl_poll_timeout-Keeps : (at mask : ℕ) → Keeps (readl_poll_timeout {b = b} at mask)
  unfolding readl_poll_timeout
  readl_poll_timeout-Keeps at mask = record {
    keeps = λ s. record { dev_kept = refl; reg_kept = refl };
  }

  pub set_host_ready-Keeps : (bit : ℕ) → Keeps (set_host_ready {b = b} bit)
  unfolding set_host_ready
  set_host_ready-Keeps bit = record { keeps = λ s. record { dev_kept = refl; reg_kept = refl } }

  pub alloc-Keeps : Keeps (alloc {b = b})
  unfolding alloc
  alloc-Keeps = record { keeps = λ s. record { dev_kept = refl; reg_kept = refl } }

-- A piece that leaves the registry alone.
pub record KeepsReg {b : Bus} {A : Type 0} (m : M b A) : Type 0 where
  pub keeps_reg : (s : Sys b) → (m s).1.reg ≡ s.reg

module _ {b : Bus} {A : Type 0} (m : M b A) where
  pub KeepsReg-of_Keeps : Keeps m → KeepsReg m
  KeepsReg-of_Keeps h = record { keeps_reg = λ s. (h.keeps s).reg_kept }

  pub KeepsReg-bind :
      {B : Type 0} (f : A → M b B) → KeepsReg m → ((a : A) → KeepsReg (f a)) → KeepsReg (m >>= f)
  unfolding ◌>>=◌
  KeepsReg-bind f h k = record { keeps_reg = λ s. (k (m s).0).keeps_reg (m s).1 ∙ h.keeps_reg s }

  pub KeepsReg-then : {B : Type 0} (k : M b B) → KeepsReg m → KeepsReg k → KeepsReg (m >> k)
  unfolding ◌>>◌
  KeepsReg-then k h g = record { keeps_reg = λ s. g.keeps_reg (m s).1 ∙ h.keeps_reg s }

module _ {b : Bus} {A : Type 0} where
  pub KeepsReg-if :
      (c : Bool) (x y : M b A) → KeepsReg x → KeepsReg y → KeepsReg (if c then x else y)
  KeepsReg-if true x y hx hy = hx
  KeepsReg-if false x y hx hy = hy

  pub KeepsReg-return : (a : A) → KeepsReg (return {b = b} a)
  unfolding return
  KeepsReg-return a = record { keeps_reg = λ s. refl }

module _ {b : Bus} where
  pub stage_bytes-Keeps : (d : List ℕ) → Keeps (stage_bytes {b = b} d)
  unfolding stage_bytes
  stage_bytes-Keeps d = record { keeps = λ s. record { dev_kept = refl; reg_kept = refl } }

  pub get_dev-Keeps : Keeps (get_dev {b = b})
  unfolding get_dev
  get_dev-Keeps = record { keeps = λ s. SameFields-refl s }

  pub modify-KeepsReg : (f : Dev → Dev) → KeepsReg (modify {b = b} f)
  unfolding modify
  modify-KeepsReg f = record { keeps_reg = λ s. refl }

-- A piece that keeps a property of the state.
pub record Preserves {ℓ} {b : Bus} {A : Type 0} (I : Sys b → Type ℓ) (m : M b A) : Type ℓ where
  pub preserves : (s : Sys b) → I s → I (m s).1

module _ {ℓ} {b : Bus} {A : Type 0} (I : Sys b → Type ℓ) where
  pub Preserves-bind :
      {B : Type 0} (m : M b A) (f : A → M b B)
      → Preserves I m
      → ((a : A) → Preserves I (f a))
      → Preserves I (m >>= f)
  unfolding ◌>>=◌
  Preserves-bind m f h k = record {
    preserves = λ s i. (k (m s).0).preserves (m s).1 (h.preserves s i);
  }

  pub Preserves-then :
      {B : Type 0} (m : M b A) (k : M b B) → Preserves I m → Preserves I k → Preserves I (m >> k)
  unfolding ◌>>◌
  Preserves-then m k h g = record { preserves = λ s i. g.preserves (m s).1 (h.preserves s i) }

  pub Preserves-if :
      (c : Bool) (x y : M b A) → Preserves I x → Preserves I y → Preserves I (if c then x else y)
  Preserves-if true x y hx hy = hx
  Preserves-if false x y hx hy = hy

  pub Preserves-return : (a : A) → Preserves I (return a)
  unfolding return
  Preserves-return a = record { preserves = λ s i. i }

module _ {b : Bus} where
  -- A property of the driver's own fields and the registry alone.
  pub Preserves-of_Keeps :
      {A : Type 0} (J : Dev → Registry → Type 0) (m : M b A)
      → Keeps m
      → Preserves (λ s. J s.dev s.reg) m
  Preserves-of_Keeps J m h = record {
    preserves = λ s i. rw ((h.keeps s).dev_kept, (h.keeps s).reg_kept) i;
  }

  pub modify-Preserves :
      (J : Dev → Registry → Type 0) (f : Dev → Dev)
      → ((d : Dev) (r : Registry) → J d r → J (f d) r)
      → Preserves (λ s. J s.dev s.reg) (modify {b = b} f)
  unfolding modify
  modify-Preserves J f h = record { preserves = λ s i. h s.dev s.reg i }

  -- A property of the hardware that a register read keeps.
  pub reg_read-Preserves :
      (J : b.Hw → Type 0) (at : ℕ)
      → ((hw : b.Hw) → J hw → J (b.ioread at hw).1)
      → Preserves (λ s. J s.hw) (reg_read {b = b} at)
  unfolding reg_read
  reg_read-Preserves J at h = record {
    preserves =
        λ s i. elim (Bool-cases (b.fenced s.hw)) [ inl e ↦ rw e i | inr e ↦ rw e (h s.hw i) ];
  }

  pub usleep-Preserves :
      (J : b.Hw → Type 0) (us : ℕ)
      → ((hw : b.Hw) → J hw → J (b.sleep us hw))
      → Preserves (λ s. J s.hw) (usleep {b = b} us)
  unfolding usleep
  usleep-Preserves J us h = record { preserves = λ s i. h s.hw i }
