-- ===== src/Registers.antt =====
-- The collector of registers: src/lib/ip_registers/collector.py, `RegDumper.collect`. The register
-- definitions are those of the vendored tools, with what their methods give as fields; reading a
-- register changes a state of the device, and is a parameter, as is the search for a pattern.
pub mod Fields
pub mod Places
mod Tests
use asct.Prelude.{
  ℕ, zero, suc, ◌+◌, Bool, true, false, not, ◌&&◌, ◌||◌, Option, none, some, List, [], ◌∷◌, ◌++◌,
  if◌then◌else◌, ltb, leb, ◌==◌, nat_key,
}
use asct.Text.{Text}

pub record Field : Type 0 where
  pub name : Text
  pub range_str : Text
  pub is_reserved : Bool
  pub extract : ℕ → ℕ
  pub desc : Text

pub record Register : Type 0 where
  pub name : Text
  pub addr : ℕ
  pub is_volatile : Bool
  pub access : Text
  pub security : Text
  pub desc : Text
  pub fields : List Field

-- A map of registers.
pub record Block : Type 0 where
  pub name : Text
  pub addr : ℕ
  pub regs : List Register

-- The arguments of `collect`; no list of patterns is the empty one.
pub record Selection (E : Type 0) : Type 0 where
  pub reg_list : List E
  pub fields : Bool
  pub exclude_volatile : Bool
  pub start_offset : ℕ
  pub end_offset : Option ℕ

pub record FieldRow : Type 0 where
  pub field_name : Text
  pub bit_range : Text
  pub value : ℕ
  pub description : Text

pub record Row : Type 0 where
  pub instance' : ℕ
  pub base : Option ℕ
  pub block_address : ℕ
  pub block_name : Text
  pub offset : ℕ
  pub address : ℕ
  pub reg_name : Text
  pub value : ℕ
  pub access : Text
  pub security : Text
  pub description : Text
  pub fields : List FieldRow

-- The loop over the fields; a reserved one that is 0 is passed over.
unfoldable pub field_rows : List Field → ℕ → List FieldRow
field_rows [] value = []
field_rows (f ∷ fs) value =
    let fvalue = f.extract value in
    let rest = field_rows fs value in
    if f.is_reserved && fvalue == 0
    then rest
    else record {
      field_name = f.name;
      bit_range = f.range_str;
      value = fvalue;
      description = f.desc;
    }
      ∷ rest

-- The row of a register, of a value that was read.
unfoldable pub register_row : Bool → Block → Register → ℕ → Option ℕ → ℕ → Row
unfolding field_rows
register_row fields rm r inst_ix pa v = record {
  instance' = inst_ix;
  base = pa;
  block_address = rm.addr;
  block_name = rm.name;
  offset = r.addr;
  address = rm.addr + r.addr;
  reg_name = r.name;
  value = v;
  access = r.access;
  security = r.security;
  description = r.desc;
  fields = if fields then field_rows r.fields v else [];
}

-- `end_offset is not None and addr >= end_offset`
abbrev pub is_behind : Option ℕ → ℕ → Bool
is_behind none addr = false
is_behind (some end_offset) addr = leb end_offset addr

-- The rows so far, and the state of the device.
pub record Dump (S : Type 0) : Type 0 where
  pub rows : List Row
  pub device : S

module _ {E : Type 0} (search : E → Text → Bool) where
  unfoldable pub any_search : List E → Text → Bool
  any_search [] name = false
  any_search (e ∷ es) name = search e name || any_search es name

  unfoldable pub reg_selected : List E → Text → Bool
  unfolding any_search
  reg_selected [] name = true
  reg_selected (e ∷ es) name = any_search (e ∷ es) name

module _ {E I S : Type 0} (search : E → Text → Bool) (pa : I → Option ℕ)
    (read32 : I → ℕ → S → ℕ × S) where
  -- The loop over the instances, from a number on.
  unfoldable pub read_instances : Bool → Block → Register → ℕ → List I → Dump S → Dump S
  unfolding register_row
  read_instances fields rm r inst_ix [] dump = dump
  read_instances fields rm r inst_ix (m ∷ instances) dump =
      let (value, device) = read32 m (rm.addr + r.addr) dump.device in
      read_instances fields rm r (suc inst_ix) instances (record {
        rows = dump.rows ++ register_row fields rm r inst_ix (pa m) value ∷ [];
        device = device;
      })

  -- The tests of a register, each of which may pass over it.
  unfoldable pub read_register : Selection E → List I → Block → Register → Dump S → Dump S
  unfolding reg_selected read_instances
  read_register sel instances rm r dump =
      if not (reg_selected search sel.reg_list r.name)
      then dump
      else if ltb r.addr sel.start_offset
      then dump
      else if is_behind sel.end_offset r.addr
      then dump
      else if sel.exclude_volatile && r.is_volatile
      then dump
      else read_instances sel.fields rm r 0 instances dump

  unfoldable pub read_registers : Selection E → List I → Block → List Register → Dump S → Dump S
  unfolding read_register
  read_registers sel instances rm [] dump = dump
  read_registers sel instances rm (r ∷ rs) dump =
      read_registers sel instances rm rs (read_register sel instances rm r dump)

  unfoldable pub read_blocks : Selection E → List I → List Block → Dump S → Dump S
  unfolding read_registers
  read_blocks sel instances [] dump = dump
  read_blocks sel instances (rm ∷ rms) dump =
      read_blocks sel instances rms (read_registers sel instances rm rm.regs dump)

  -- `collect`, with the maps by their addresses
  unfoldable pub collect : List Block → Selection E → List I → S → Dump S
  unfolding read_blocks
  collect rms sel instances device =
      read_blocks sel instances rms (record { rows = []; device = device })
