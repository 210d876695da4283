-- ===== src/Vspa/Tests.antt =====
-- Runs of the VSPA operations, and the data that they use.
pub mod Data
mod Images
mod Boots
use la9310_driver.Base.{◌≡◌, refl, some}
use la9310_driver.Vspa.Csum.{wordsum, wordsum_from}
use la9310_driver.Base.Fault.{le16, le32}
use la9310_driver.Vspa.Ident.{find_ident, find_in_table, scan, strncmp_eq, is_elf32_le}
use la9310_driver.Vspa.Registry.{verify, verify_at, read_ident, accepts}
use la9310_driver.Vspa.Tests.Data.{image, image_ident}

pub image_verified : verify image ≡ some (some image_ident)
unfolding verify verify_at read_ident accepts find_ident find_in_table scan strncmp_eq is_elf32_le
    le16 le32 wordsum wordsum_from
image_verified = refl
