-- ===== src/Vspa/Tests/Data.antt =====
-- The data of the tests: a small ELF image with an identity section, the registry that holds it,
-- and hardware that starts it.
use la9310_driver.Base.{
  ℕ, ◌+◌, true, false, none, List, [], ◌∷◌, ◌==◌, if◌then◌else◌, replicate, ℤ, pos,
}
use la9310_driver.Vspa.Bus.{Bus, Dev, unknown, host_in_64_msb_reg, status_reg}
use la9310_driver.Vspa.Registry.{VspaIdent}
use la9310_driver.Vspa.Startup.{boot_complete, spm_ack}

-- An ELF32 header, the identity, the string table and two section headers.
abbrev pub image : List ℕ
image =
    127 ∷ 69 ∷ 76 ∷ 70 ∷ 1 ∷ 1 ∷ 0 ∷ 0 ∷ 0 ∷ 0 ∷ 0 ∷ 0 ∷ 0 ∷ 0 ∷ 0 ∷ 0 ∷ 2 ∷ 0 ∷ 190 ∷ 0 ∷ 1 ∷ 0 ∷ 0
    ∷ 0 ∷ 0 ∷ 0 ∷ 0 ∷ 0 ∷ 52 ∷ 0 ∷ 0 ∷ 0 ∷ 177 ∷ 0 ∷ 0 ∷ 0 ∷ 0 ∷ 0 ∷ 0 ∷ 0 ∷ 52 ∷ 0 ∷ 32 ∷ 0 ∷ 0 ∷ 0
    ∷ 40 ∷ 0 ∷ 2 ∷ 0 ∷ 1 ∷ 0 ∷ 73 ∷ 78 ∷ 70 ∷ 82 ∷ 1 ∷ 0 ∷ 0 ∷ 0 ∷ 1 ∷ 0 ∷ 0 ∷ 0 ∷ 5 ∷ 0 ∷ 0 ∷ 0
    ∷ 97 ∷ 112 ∷ 109 ∷ 0 ∷ 0 ∷ 0 ∷ 0 ∷ 0 ∷ 0 ∷ 0 ∷ 0 ∷ 0 ∷ 0 ∷ 0 ∷ 0 ∷ 0 ∷ 0 ∷ 0 ∷ 0 ∷ 0 ∷ 0 ∷ 0 ∷ 0
    ∷ 0 ∷ 0 ∷ 0 ∷ 0 ∷ 0 ∷ 0 ∷ 0 ∷ 0 ∷ 0 ∷ 51 ∷ 98 ∷ 101 ∷ 97 ∷ 56 ∷ 57 ∷ 55 ∷ 49 ∷ 0 ∷ 0 ∷ 0 ∷ 0 ∷ 0
    ∷ 0 ∷ 0 ∷ 0 ∷ 0 ∷ 0 ∷ 0 ∷ 0 ∷ 0 ∷ 0 ∷ 0 ∷ 0 ∷ 0 ∷ 0 ∷ 0 ∷ 0 ∷ 0 ∷ 0 ∷ 0 ∷ 0 ∷ 0 ∷ 0 ∷ 0 ∷ 0 ∷ 0
    ∷ 0 ∷ 0 ∷ 0 ∷ 0 ∷ 0 ∷ 0 ∷ 0 ∷ 0 ∷ 0 ∷ 0 ∷ 0 ∷ 158 ∷ 71 ∷ 83 ∷ 71 ∷ 52 ∷ 0 ∷ 0 ∷ 0 ∷ 0 ∷ 46 ∷ 114
    ∷ 102 ∷ 110 ∷ 109 ∷ 95 ∷ 105 ∷ 100 ∷ 101 ∷ 110 ∷ 116 ∷ 0 ∷ 46 ∷ 115 ∷ 116 ∷ 114 ∷ 116 ∷ 97 ∷ 98
    ∷ 0 ∷ 1 ∷ 0 ∷ 0 ∷ 0 ∷ 1 ∷ 0 ∷ 0 ∷ 0 ∷ 0 ∷ 0 ∷ 0 ∷ 0 ∷ 0 ∷ 0 ∷ 0 ∷ 0 ∷ 52 ∷ 0 ∷ 0 ∷ 0 ∷ 104 ∷ 0
    ∷ 0 ∷ 0 ∷ 0 ∷ 0 ∷ 0 ∷ 0 ∷ 0 ∷ 0 ∷ 0 ∷ 0 ∷ 0 ∷ 0 ∷ 0 ∷ 0 ∷ 0 ∷ 0 ∷ 0 ∷ 0 ∷ 13 ∷ 0 ∷ 0 ∷ 0 ∷ 1 ∷ 0
    ∷ 0 ∷ 0 ∷ 0 ∷ 0 ∷ 0 ∷ 0 ∷ 0 ∷ 0 ∷ 0 ∷ 0 ∷ 156 ∷ 0 ∷ 0 ∷ 0 ∷ 21 ∷ 0 ∷ 0 ∷ 0 ∷ 0 ∷ 0 ∷ 0 ∷ 0 ∷ 0
    ∷ 0 ∷ 0 ∷ 0 ∷ 0 ∷ 0 ∷ 0 ∷ 0 ∷ 0 ∷ 0 ∷ 0 ∷ 0 ∷ []

abbrev pub image_ident : VspaIdent
image_ident = record {
  magic = 0x52464e49;
  abi = 1;
  caps = 1;
  rank = 5;
  name =
      97 ∷ 112 ∷ 109 ∷ 0 ∷ 0 ∷ 0 ∷ 0 ∷ 0 ∷ 0 ∷ 0 ∷ 0 ∷ 0 ∷ 0 ∷ 0 ∷ 0 ∷ 0 ∷ 0 ∷ 0 ∷ 0 ∷ 0 ∷ 0 ∷ 0 ∷ 0
      ∷ 0 ∷ 0 ∷ 0 ∷ 0 ∷ 0 ∷ 0 ∷ 0 ∷ 0 ∷ 0 ∷ [];
  githash =
      51 ∷ 98 ∷ 101 ∷ 97 ∷ 56 ∷ 57 ∷ 55 ∷ 49 ∷ 0 ∷ 0 ∷ 0 ∷ 0 ∷ 0 ∷ 0 ∷ 0 ∷ 0 ∷ 0 ∷ 0 ∷ 0 ∷ 0 ∷ 0 ∷ 0
      ∷ 0 ∷ 0 ∷ [];
  buildtime = replicate 24 0;
  payload_csum = 1196640158;
  orig_size = 52;
}

-- "apm.eld"
abbrev pub image_name : List ℕ
image_name = 97 ∷ 112 ∷ 109 ∷ 46 ∷ 101 ∷ 108 ∷ 100 ∷ []

-- `request_firmware` finds the image under every name.
abbrev pub request_image : List ℕ → ℤ × List ℕ
request_image fwname = (pos 0, image)

-- The hardware of a core that is parked and then starts: its state counts the reads of the
-- mailbox, which gives the boot message and then the acknowledgement.
abbrev pub good_read : ℕ → ℕ → ℕ × ℕ
good_read at reads =
    if at == host_in_64_msb_reg
    then (if reads == 0 then boot_complete else spm_ack, reads + 1)
    else (if at == status_reg then 0 else 0xffffffff, reads)

abbrev pub good_bus : Bus
good_bus = record {
  Hw = ℕ;
  fenced = λ hw. false;
  ioread = good_read;
  iowrite = λ at v hw. hw;
  poll = λ at mask hw. (true, hw);
  sleep = λ us hw. hw;
  stage = λ d hw. hw;
  read_host_ready = λ hw. (0, hw);
  write_host_ready = λ v hw. hw;
  vspa_ready = 1;
  window = λ hw i. 0;
  kzalloc = λ hw. (true, hw);
}

-- A core that never parks: the state counts the register writes.
abbrev pub busy_bus : Bus
busy_bus = record {
  Hw = ℕ;
  fenced = λ hw. false;
  ioread = λ at hw. (0x100, hw);
  iowrite = λ at v hw. hw + 1;
  poll = λ at mask hw. (true, hw);
  sleep = λ us hw. hw;
  stage = λ d hw. hw;
  read_host_ready = λ hw. (0, hw);
  write_host_ready = λ v hw. hw;
  vspa_ready = 1;
  window = λ hw i. 0;
  kzalloc = λ hw. (true, hw);
}

abbrev pub device : Dev
device = record {
  state = unknown;
  loading_count = 0;
  vspa_sw_version = 0;
  ippu_sw_version = 0;
  spm_buf_bytes = 4096;
  spm_buf_paddr = 0x1000;
  spm_dma_chan = 0;
  bulk_dma_chan = 0;
  reply_dma_chan = 0;
  cmd_dma_chan = 0;
  legacy_cmd_dma_chan = 0;
  eld_filename = [];
  stats_ready = false;
  axi_data_width = 128;
  dmem_bytes = 0x4000;
  ippu_bytes = 0x1000;
  dma_region = true;
  overlay_region = true;
  dma_phys = 0x2000;
  overlay_sec = [];
  overlay_sec_loaded = none;
}
