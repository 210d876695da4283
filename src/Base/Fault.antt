-- ===== src/Base/Fault.antt =====
-- Reads that may fault: `none` is an access outside the buffer.
use Prim.Native.Nat.{ℕ, ◌+◌, ◌*◌, ◌≤◌, ◌<◌, zero, suc}
use mathlib.Core.Path.{◌≡◌, refl, subst}
use mathlib.Core.Option.{Option, none, some, some-injective}
use mathlib.Core.List.{List, [], ◌∷◌}
use native.Mathlib.Omega.{arith}
use mathlib.Core.Bool.{Bool, true, false}
use la9310_driver.Base.Tests.{if◌then◌else◌}
use la9310_driver.Base.Lists.{length, get_elem?}

infixl 5 ◌>>=◌
abbrev pub ◌>>=◌ {ℓ κ} : {A : Type ℓ} {B : Type κ} → Option A → (A → Option B) → Option B
none >>= f = none
some a >>= f = f a

-- The read does not fault.
abbrev pub Safe {ℓ} : {A : Type ℓ} → Option A → Type ℓ
Safe {A = A} m = (a : A) × (m ≡ some a)

pub Safe-bind {ℓ κ} :
    {A : Type ℓ} {B : Type κ} (m : Option A) (f : A → Option B)
    → Safe m
    → ((a : A) → m ≡ some a → Safe (f a))
    → Safe (m >>= f)
Safe-bind m f (a, e) h = rw e (h a e)

-- The parts of a sequence that gives a value.
pub >>=-eq-some {ℓ κ} :
    {A : Type ℓ} {B : Type κ} (m : Option A) (f : A → Option B) {b : B}
    → (m >>= f) ≡ some b
    → (a : A) × (m ≡ some a) × (f a ≡ some b)
>>=-eq-some none f h = cc
>>=-eq-some (some a) f h = (a, refl, h)

pub byte-Safe : (d : List ℕ) (i : ℕ) → i < length d → Safe (get_elem? d i)
byte-Safe [] i h = absurd (omega arith)
byte-Safe (x ∷ d) zero h = (x, refl)
byte-Safe (x ∷ d) (suc i) h = byte-Safe d i (omega arith)

-- `le16_to_cpu` and `le32_to_cpu` of the bytes at an offset.
unfoldable pub le16 : List ℕ → ℕ → Option ℕ
le16 d i = do a ← get_elem? d i; b ← get_elem? d (i + 1); some (a + 0x100 * b)

unfoldable pub le32 : List ℕ → ℕ → Option ℕ
le32 d i = do lo ← le16 d i; hi ← le16 d (i + 2); some (lo + 0x10000 * hi)

pub le16-Safe : (d : List ℕ) (i : ℕ) → i + 2 ≤ length d → Safe (le16 d i)
unfolding le16
le16-Safe d i h =
    Safe-bind _ _ (byte-Safe d i (omega arith))
      λ a _. Safe-bind _ _ (byte-Safe d (i + 1) (omega arith)) λ b _. (a + 0x100 * b, refl)

pub le32-Safe : (d : List ℕ) (i : ℕ) → i + 4 ≤ length d → Safe (le32 d i)
unfolding le32
le32-Safe d i h =
    Safe-bind _ _ (le16-Safe d i (omega arith))
      λ a _. Safe-bind _ _ (le16-Safe d (i + 2) (omega arith)) λ b _. (a + 0x10000 * b, refl)

pub Safe-if {ℓ} :
    {A : Type ℓ} (c : Bool) (x y : Option A)
    → (c ≡ true → Safe x)
    → (c ≡ false → Safe y)
    → Safe (if c then x else y)
Safe-if true x y hx hy = hx refl
Safe-if false x y hx hy = hy refl

-- Whatever the read gives satisfies `P`.
abbrev pub Ensures {ℓ κ} : {A : Type ℓ} → (A → Type κ) → Option A → Type (ℓ ⊔ κ)
Ensures {A = A} P m = (a : A) → m ≡ some a → P a

pub Ensures-some {ℓ κ} : {A : Type ℓ} (P : A → Type κ) (a : A) → P a → Ensures P (some a)
Ensures-some P a h b e = subst P (some-injective a b e) h

pub Ensures-bind {ℓ κ μ} :
    {A : Type ℓ} {B : Type κ} (P : B → Type μ) (m : Option A) (f : A → Option B)
    → ((a : A) → m ≡ some a → Ensures P (f a))
    → Ensures P (m >>= f)
Ensures-bind P m f h b e = let (a, p, q) = >>=-eq-some m f e in h a p b q

pub Ensures-if {ℓ κ} :
    {A : Type ℓ} (P : A → Type κ) (c : Bool) (x y : Option A)
    → (c ≡ true → Ensures P x)
    → (c ≡ false → Ensures P y)
    → Ensures P (if c then x else y)
Ensures-if P true x y hx hy = hx refl
Ensures-if P false x y hx hy = hy refl
