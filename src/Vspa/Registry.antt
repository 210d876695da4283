-- ===== src/Vspa/Registry.antt =====
-- The kernel registry of VSPA images (kernel_driver/la9310shiva/la9310_vspa_registry.c): its
-- state, and the operations that register and select an image. `request_firmware`, the outcome of
-- `kvmalloc` and `hweight32` are the kernel's and come as arguments. The mutex makes each
-- operation one step. A number that the source declares `u32` is a natural number here.
pub mod Select
pub mod Slots
pub mod Register
pub mod Outcome
pub mod LostCopy
pub mod Reselect
use Prim.Native.Nat.{bit_and}
use la9310_driver.Base.{
  ℕ, zero, suc, ◌+◌, ◌%◌, ◌^◌, Bool, true, false, not, ◌&&◌, ◌||◌, Option, none, some, List, [],
  ◌∷◌, ltb, leb, ◌==◌, if◌then◌else◌, get_or, set, take, drop, replicate, length, ℤ, pos, negsuc,
  neg, is_neg, is_zero,
}
use la9310_driver.Base.Fault.{◌>>=◌, le32}
use la9310_driver.Vspa.Ident.{find_ident}
use la9310_driver.Vspa.Csum.{wordsum}

-- RFNM_VSPA_REG_MAX
abbrev pub reg_max : ℕ
reg_max = 8

-- RFNM_VSPA_IDENT_MAGIC
abbrev pub ident_magic : ℕ
ident_magic = 0x52464e49

-- RFNM_VSPA_ABI_CURRENT
abbrev pub abi_current : ℕ
abi_current = 1

-- RFNM_VSPA_CAP_STREAMING_BASE
abbrev pub cap_streaming_base : ℕ
cap_streaming_base = 1

-- The error codes of the registry.
abbrev pub enoent : ℤ
enoent = neg 2

abbrev pub ebusy : ℤ
ebusy = neg 16

abbrev pub enomem : ℤ
enomem = neg 12

abbrev pub enodev : ℤ
enodev = neg 19

abbrev pub einval : ℤ
einval = neg 22

abbrev pub enospc : ℤ
enospc = neg 28

abbrev pub enametoolong : ℤ
enametoolong = neg 36

-- struct rfnm_vspa_ident
pub record VspaIdent : Type 0 where
  pub magic : ℕ
  pub abi : ℕ
  pub caps : ℕ
  pub rank : ℕ
  pub name : List ℕ
  pub githash : List ℕ
  pub buildtime : List ℕ
  pub payload_csum : ℕ
  pub orig_size : ℕ

-- struct rfnm_vspa_reg_entry; `none` is a NULL `blob`.
pub record Entry : Type 0 where
  pub fwname : List ℕ
  pub id : VspaIdent
  pub blob : Option (List ℕ)
  pub size : ℕ

-- The static variables of the file, with the two counters that it exports.
pub record Registry : Type 0 where
  pub entries : List Entry
  pub cnt : ℕ
  pub selected : ℤ
  pub running : ℤ
  pub boot_gen : ℕ
  pub loader_busy : Bool

-- A zeroed slot of the static array.
abbrev pub zero_entry : Entry
zero_entry = record {
  fwname = [];
  id = record {
    magic = 0;
    abi = 0;
    caps = 0;
    rank = 0;
    name = [];
    githash = [];
    buildtime = [];
    payload_csum = 0;
    orig_size = 0;
  };
  blob = none;
  size = 0;
}

abbrev pub initial : Registry
initial = record {
  entries = replicate reg_max zero_entry;
  cnt = 0;
  selected = negsuc 0;
  running = negsuc 0;
  boot_gen = 0;
  loader_busy = false;
}

-- `rfnm_vspa_reg[i]`
abbrev pub entry : Registry → ℕ → Entry
entry r i = get_or r.entries i zero_entry

-- The structure at an offset of the image.
unfoldable pub read_ident : List ℕ → ℕ → Option VspaIdent
read_ident d off = do
  magic ← le32 d off
  abi ← le32 d (off + 4)
  caps ← le32 d (off + 8)
  rank ← le32 d (off + 12)
  payload_csum ← le32 d (off + 96)
  orig_size ← le32 d (off + 100)
  some (record {
    magic = magic;
    abi = abi;
    caps = caps;
    rank = rank;
    name = take 32 (drop (off + 16) d);
    githash = take 24 (drop (off + 48) d);
    buildtime = take 24 (drop (off + 72) d);
    payload_csum = payload_csum;
    orig_size = orig_size;
  })

-- The bytes before `n`, for the checksum. A read behind the image gives `none`.
unfoldable pub payload : List ℕ → ℕ → Option (List ℕ)
payload d n = if leb n (length d) then some (take n d) else none

-- The three checks of an identity against its image.
unfoldable pub accepts : List ℕ → VspaIdent → Option Bool
unfolding payload
accepts d id =
    if not (id.magic == ident_magic && id.abi == abi_current)
    then some false
    else if not (leb id.orig_size (length d))
    then some false
    else (do bytes ← payload d id.orig_size; some (wordsum bytes == id.payload_csum))

-- The identity at an offset if it passes, or `none` where the image is refused.
unfoldable pub verify_at : List ℕ → Option ℕ → Option (Option VspaIdent)
verify_at d none = some none
verify_at d (some off) = do
  id ← read_ident d off
  is_accepted ← accepts d id
  some (if is_accepted then some id else none)

-- The identity of an image that is accepted, or `none` where it is refused with EINVAL.
unfoldable pub verify : List ℕ → Option (Option VspaIdent)
verify d = do found ← find_ident d (length d % 2 ^ 32); verify_at d found

-- `!strcmp(a, b)`, on the characters before the NUL.
unfoldable pub bytes_eq : List ℕ → List ℕ → Bool
bytes_eq [] [] = true
bytes_eq [] (b ∷ ys) = false
bytes_eq (a ∷ xs) [] = false
bytes_eq (a ∷ xs) (b ∷ ys) = a == b && bytes_eq xs ys

-- The slot of the name: the first that holds it, or else the count. `k` slots are left.
unfoldable pub find_slot : Registry → List ℕ → ℕ → ℕ → ℕ
find_slot r fwname zero i = i
find_slot r fwname (suc k) i =
    let rest = find_slot r fwname k (i + 1) in
    if bytes_eq (entry r i).fwname fwname then i else rest

-- What `rfnm_vspa_registry_register` does under the lock.
unfoldable pub publish : Bool → List ℕ → List ℕ → VspaIdent → Registry → ℤ × Registry
publish alloc fwname d id r =
    let i = find_slot r fwname r.cnt 0 in
    let e = entry r i in
    if i == r.cnt && r.cnt == reg_max
    then (enospc, r)
    else if not alloc
    then (enomem, record r { entries = set r.entries i (record e { blob = none }) })
    else (
      pos 0,
      record r {
        entries =
            set r.entries i (record { fwname = fwname; id = id; blob = some d; size = length d });
        cnt = if i == r.cnt then r.cnt + 1 else r.cnt;
      },
    )

-- What follows the verdict on the image.
unfoldable pub conclude : Bool → List ℕ → List ℕ → Option VspaIdent → Registry → ℤ × Registry
conclude alloc fwname d none r = (einval, r)
conclude alloc fwname d (some id) r = publish alloc fwname d id r

-- rfnm_vspa_registry_register; `dev` tells whether the device exists, `request` is
-- `request_firmware`. `none` is a read outside the image.
unfoldable pub register :
    Bool → (List ℕ → ℤ × List ℕ) → Bool → List ℕ → Registry → Option (ℤ × Registry)
register dev request alloc fwname r =
    let (rc, d) = request fwname in
    if not dev
    then some (enodev, r)
    else if leb 64 (length fwname)
    then some (enametoolong, r)
    else if not (is_zero rc)
    then some (rc, r)
    else do verdict ← verify d; some (conclude alloc fwname d verdict r)

-- rfnm_vspa_provides
unfoldable pub provides : Registry → ℤ → ℕ → Bool
provides r (negsuc n) caps = false
provides r (pos i) caps = ltb i r.cnt && bit_and (entry r i).id.caps caps == caps

-- The loop of rfnm_vspa_registry_has, `k` images left.
unfoldable pub has_from : Registry → ℕ → ℕ → ℕ → Bool
has_from r caps zero i = false
has_from r caps (suc k) i = provides r (pos i) caps || has_from r caps k (i + 1)

unfoldable pub registry_has : Registry → ℕ → Bool
registry_has r caps = has_from r caps r.cnt 0

unfoldable pub running_has : Registry → ℕ → Bool
running_has r caps = provides r r.running caps

unfoldable pub parked : Registry → Bool
parked r = is_neg r.running

module _ (hweight32 : ℕ → ℕ) where
  abbrev pub weight : Registry → ℕ → ℕ
  weight r i = hweight32 (entry r i).id.caps

  -- Is image `i` to replace the best one so far?
  unfoldable pub is_better : Registry → ℕ → ℤ → Bool
  is_better r i (negsuc n) = true
  is_better r i (pos b) =
      ltb (weight r i) (weight r b)
      || weight r i == weight r b && ltb (entry r i).id.rank (entry r b).id.rank

  -- The loop of rfnm_vspa_select_for from image `i`, `k` left.
  unfoldable pub pick_from : Registry → ℕ → ℕ → ℕ → ℤ → ℤ
  pick_from r caps zero i best = best
  pick_from r caps (suc k) i best =
      pick_from r caps k (i + 1)
        (if provides r (pos i) caps && is_better r i best then pos i else best)

  -- rfnm_vspa_select_for
  unfoldable pub select_for : ℕ → Registry → ℤ × Registry
  select_for caps r =
      let best = pick_from r caps r.cnt 0 (negsuc 0) in
      if provides r r.running caps
      then (pos 0, record r { selected = r.running })
      else (if is_neg best then enoent else pos 0, record r { selected = best })
