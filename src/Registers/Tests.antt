-- ===== src/Registers/Tests.antt =====
-- Three registers of one map, of which one is volatile and one lies before the first offset, read
-- from two instances. The state of the device is the list of the addresses that were read.
use asct.Prelude.{ℕ, ◌+◌, Bool, true, false, Option, some, List, [], ◌∷◌, ◌++◌}
use asct.Text.{Text, codes, text_beq}
use asct.Registers.{Field, Register, Block, Selection, collect}
use asct.Registers.Places.{Reads, places, collect-Reads}

abbrev low_bit : ℕ → ℕ
low_bit v = 1

abbrev enabled : Field
enabled = record {
  name = codes "EN";
  range_str = codes "0";
  is_reserved = false;
  extract = low_bit;
  desc = codes "enabled";
}

abbrev register : Text → ℕ → Bool → Register
register name addr is_volatile = record {
  name = name;
  addr = addr;
  is_volatile = is_volatile;
  access = codes "RW";
  security = codes "NS";
  desc = [];
  fields = enabled ∷ [];
}

abbrev link_block : Block
link_block = record {
  name = codes "link";
  addr = 4096;
  regs =
      register (codes "ID") 0 false
      ∷ register (codes "CTRL") 8 false
      ∷ register (codes "COUNT") 16 true
      ∷ [];
}

abbrev stable : Selection Text
stable = record {
  reg_list = [];
  fields = true;
  exclude_volatile = true;
  start_offset = 4;
  end_offset = some 64;
}

abbrev pa : ℕ → Option ℕ
pa i = some i

abbrev read32 : ℕ → ℕ → List ℕ → ℕ × List ℕ
read32 i addr trace = (i + addr, trace ++ addr ∷ [])

abbrev instances : List ℕ
instances = 65536 ∷ 131072 ∷ []

collect-Reads_example :
    Reads text_beq pa read32 true
      (places text_beq pa read32 stable instances (link_block ∷ []))
      []
      (collect text_beq pa read32 (link_block ∷ []) stable instances []).rows
      (collect text_beq pa read32 (link_block ∷ []) stable instances []).device
collect-Reads_example = collect-Reads text_beq pa read32 (link_block ∷ []) stable instances []
