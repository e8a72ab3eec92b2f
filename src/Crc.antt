-- ===== src/Crc.antt =====
-- The checksum of src/leo_dof_crypto.c: `reflect`, `initial_crc32_table`, `generate_crc32` and
-- `check_crc32`. The static `crc32_table` is a list that the functions are given. `none` is an
-- access out of range.
pub mod Reflect
pub mod Table
pub mod Check
mod Tests
use leo_net.Base.{
  ℕ, zero, suc, ◌+◌, ◌-◌, ◌*◌, ◌/◌, ◌%◌, ◌^◌, bit_and, bit_or, bit_xor, Option, some, List, ◌>>=◌,
  ◌==◌, if◌then◌else◌, u8, shl32, shr, sub32,
}
use leo_net.Base.Lists.{get_elem?}
use leo_net.Base.Memory.{store_elem}
use leo_net.Base.Endian.{load32}

abbrev pub multinomial : ℕ
multinomial = 0x04c11db7

-- `static unsigned int crc32_table[0xFF]`
abbrev pub table_length : ℕ
table_length = 0xff

-- `for(i = 1; i < (c + 1); i++)`, with `left` rounds to go.
pub reflect_loop : ℕ → ℕ → ℕ → ℕ → ℕ → ℕ
reflect_loop zero i l val c = val
reflect_loop (suc left) i l val c =
    reflect_loop left (i + 1) (shr l 1)
      (if bit_and l 1 == 0 then val else bit_or val (shl32 1 (c - i))) c

pub reflect : ℕ → ℕ → ℕ
unfolding reflect_loop
reflect l c = reflect_loop c 1 l 0 c

-- One round of the inner loop of `initial_crc32_table` on the entry's value.
pub shift_entry : ℕ → ℕ
shift_entry x =
    let t1 = shl32 x 1 in
    let flag = bit_and x 0x80000000 in
    let t2 = if flag == 0 then 0 else multinomial in bit_xor t1 t2

-- `for(j = 0; j < 8; j++)` in place.
pub shift_rounds : ℕ → ℕ → List ℕ → Option (List ℕ)
shift_rounds zero i table = some table
shift_rounds (suc left) i table = do
  x ← get_elem? table i
  table' ← store_elem table i (shift_entry x)
  shift_rounds left i table'

pub fill_entry : ℕ → List ℕ → Option (List ℕ)
fill_entry i table = do
  started ← store_elem table i (shl32 (reflect i 8) 24)
  shifted ← shift_rounds 8 i started
  x ← get_elem? shifted i
  store_elem shifted i (reflect x 32)

-- `for(i = 0; i <= 0xFF; i++)`, with `left` rounds to go.
pub fill_from : ℕ → ℕ → List ℕ → Option (List ℕ)
fill_from zero i table = some table
fill_from (suc left) i table = do table' ← fill_entry i table; fill_from left (i + 1) table'

pub initial_crc32_table : List ℕ → Option (List ℕ)
initial_crc32_table table = fill_from 256 0 table

-- One byte of `generate_crc32`: the table's entry, then the checksum.
pub crc_byte : ℕ → ℕ → ℕ → ℕ
crc_byte old_crc32 old_crc c = bit_xor (bit_or (shl32 old_crc32 8) (bit_and c 0xff)) old_crc

pub generate_from : List ℕ → List ℕ → ℕ → ℕ → ℕ → Option ℕ
generate_from table buf zero counts old_crc32 = some old_crc32
generate_from table buf (suc len) counts old_crc32 = do
  old_crc ← get_elem? table (u8 (bit_and (shr old_crc32 24) 0xff))
  c ← get_elem? buf counts
  generate_from table buf len (counts + 1) (crc_byte old_crc32 old_crc c)

pub generate_crc32 : List ℕ → List ℕ → ℕ → Option ℕ
generate_crc32 table buf len = generate_from table buf len 0 0

pub check_crc32 : List ℕ → List ℕ → ℕ → Option ℕ
check_crc32 table buf len = do
  crc ← load32 buf (sub32 len 4)
  new_crc ← generate_crc32 table buf (sub32 len 4)
  some (if crc == new_crc then 1 else 0)
