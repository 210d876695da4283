-- ===== src/Vspa/Tests/Images.antt =====
-- The properties of the image registry at concrete images and registries.
use la9310_driver.Base.{
  ℕ, ◌+◌, ◌%◌, ◌/◌, ◌≡◌, refl, true, false, none, some, [], ◌∷◌, arith, pos, negsuc,
}
use la9310_driver.Base.Fault.{Safe, le16, le32}
use la9310_driver.Vspa.Ident.{find_ident, find_in_table, scan, strncmp_eq, is_elf32_le}
use la9310_driver.Vspa.Registry.{
  VspaIdent, Registry, initial, entry, verify, verify_at, bytes_eq, register, conclude, publish,
  find_slot, provides, select_for, einval, enomem, zero_entry,
}
use la9310_driver.Vspa.Registry.Register.{IsValid}
use la9310_driver.Vspa.Registry.Outcome.{
  IsStored, entry_of, verify-Safe, register-IsValid, register-IsStored,
}
use la9310_driver.Vspa.Registry.Select.{IsChoice, select_for-IsChoice}
use la9310_driver.Vspa.Registry.LostCopy.{register-enomem}
use la9310_driver.Vspa.Tests.{image_verified}
use la9310_driver.Vspa.Tests.Data.{image, image_ident, image_name, request_image}

image_found : find_ident image 257 ≡ some (some 52)
unfolding find_ident find_in_table scan strncmp_eq is_elf32_le le16 le32
image_found = refl

initial-IsValid : IsValid initial
initial-IsValid = record {
  slots = refl;
  few = omega arith;
  cached = λ i h. absurd (omega arith);
  distinct = λ i j h. absurd (omega arith);
  selected_in = refl;
  running_in = refl;
}

-- The registry after the registration of the image.
abbrev pub stored : Registry
stored = record {
  entries =
      entry_of image_name image image_ident
      ∷ zero_entry
      ∷ zero_entry
      ∷ zero_entry
      ∷ zero_entry
      ∷ zero_entry
      ∷ zero_entry
      ∷ zero_entry
      ∷ [];
  cnt = 1;
  selected = negsuc 0;
  running = negsuc 0;
  boot_gen = 0;
  loader_busy = false;
}

image_registered : register true request_image true image_name initial ≡ some (pos 0, stored)
unfolding register conclude publish find_slot
image_registered = rw image_verified refl

pub stored-IsValid : IsValid stored
stored-IsValid =
    register-IsValid true request_image image_name initial (pos 0) stored image_registered
      initial-IsValid

verify-Safe_example : Safe (verify image)
verify-Safe_example = verify-Safe image

register-IsValid_example : IsValid stored
register-IsValid_example =
    register-IsValid true request_image image_name initial (pos 0) stored image_registered
      initial-IsValid

register-IsStored_example :
    (id : VspaIdent) × (verify image ≡ some (some id))
    × (s : ℕ) × IsStored initial stored s (entry_of image_name image id)
register-IsStored_example =
    register-IsStored true request_image image_name initial stored image_registered initial-IsValid

-- An image of no bytes is refused.
empty_refused : register true (λ fwname. (pos 0, [])) true image_name stored ≡ some (einval, stored)
unfolding register verify verify_at find_ident conclude
empty_refused = refl

-- The registration of the same name again, without memory for the copy.
abbrev lost : Registry
lost = record stored {
  entries =
      record (entry_of image_name image image_ident) { blob = none }
      ∷ zero_entry
      ∷ zero_entry
      ∷ zero_entry
      ∷ zero_entry
      ∷ zero_entry
      ∷ zero_entry
      ∷ zero_entry
      ∷ [];
}

registered_again : register true request_image false image_name stored ≡ some (enomem, lost)
unfolding register conclude publish find_slot bytes_eq
registered_again = rw image_verified refl

register-enomem_example :
    (enomem ≡ enomem)
    × ((entry lost 0).blob ≡ none)
    × (provides lost (pos 0) 1 ≡ provides stored (pos 0) 1)
    × (lost.selected ≡ stored.selected)
register-enomem_example =
    register-enomem stored image_name 0 stored-IsValid (omega arith) refl request_image image_ident
      enomem lost 1 (omega arith) refl image_verified registered_again

-- The bits of a number below 4.
abbrev weight_of : ℕ → ℕ
weight_of caps = caps % 2 + caps / 2 % 2

none_running : provides stored stored.running 1 ≡ false
unfolding provides
none_running = refl

select_for-IsChoice_example :
    IsChoice weight_of stored 1 1 (select_for weight_of 1 stored).1.selected
select_for-IsChoice_example = select_for-IsChoice weight_of 1 stored none_running
