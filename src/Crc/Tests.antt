-- ===== src/Crc/Tests.antt =====
-- Runs of the checksum model, and its theorems at concrete inputs.
use leo_net.Base.{
  ℕ, ◌≤◌, ◌≡◌, ◌↔◌, refl, some, none, List, [], ◌∷◌, ◌++◌, arith, ltb, ◌==◌, if◌then◌else◌,
}
use leo_net.Base.Lists.{length, get_or, replicate, take}
use leo_net.Base.Endian.{IsBytes, Small-IsBytes, bytes4, word_at}
use leo_net.Crc.{table_length, reflect, initial_crc32_table, generate_crc32, check_crc32}
use leo_net.Crc.Table.{reflected_entry, initial_crc32_table_lem, initial_crc32_table_iff}
use leo_net.Crc.Check.{
  crc_fold, reflected_table, reflected_table-IsTable, generate_crc32-eq, check_crc32-eq,
  check_crc32_short, check_crc32_appended,
}

reflect_six : reflect 6 4 ≡ 6
unfolding reflect
reflect_six = refl

-- The array as the source declares it: one word short.
abbrev declared : List ℕ
declared = replicate table_length 0

initial_crc32_table_iff_example :
    ((out : List ℕ) × (initial_crc32_table declared ≡ some out)) ↔ (256 ≤ length declared)
initial_crc32_table_iff_example = initial_crc32_table_iff declared

abbrev whole : List ℕ
whole = replicate 256 0

initial_crc32_table_lem_example :
    (out : List ℕ) × (initial_crc32_table whole ≡ some out)
    × (length out ≡ 256)
    × ((j : ℕ) → get_or out j 0 ≡ (if ltb j 256 then reflected_entry j else get_or whole j 0))
initial_crc32_table_lem_example = initial_crc32_table_lem whole (omega arith)

abbrev message : List ℕ
message = 104 ∷ 105 ∷ 200 ∷ []

message-IsBytes : IsBytes message
message-IsBytes = Small-IsBytes message (omega arith)

generate_crc32-eq_example :
    generate_crc32 reflected_table message 3 ≡ some (crc_fold reflected_table 0 (take 3 message))
generate_crc32-eq_example =
    generate_crc32-eq reflected_table reflected_table-IsTable message message-IsBytes 3
      (omega arith)

abbrev framed : List ℕ
framed = 1 ∷ 2 ∷ 2 ∷ 1 ∷ 0 ∷ 0 ∷ []

framed-IsBytes : IsBytes framed
framed-IsBytes = Small-IsBytes framed (omega arith)

check_crc32-eq_example :
    check_crc32 reflected_table framed 6
    ≡ some (if word_at framed 2 == crc_fold reflected_table 0 (take 2 framed) then 1 else 0)
check_crc32-eq_example =
    check_crc32-eq reflected_table reflected_table-IsTable framed framed-IsBytes 6 (omega arith)
      (omega arith) (omega arith)

check_crc32_short_example : check_crc32 reflected_table message 2 ≡ none
check_crc32_short_example = check_crc32_short reflected_table message 2 (omega arith) (omega arith)

check_crc32_appended_example :
    check_crc32 reflected_table
      (message ++ (bytes4 (crc_fold reflected_table 0 message) ++ message))
      7
    ≡ some 1
check_crc32_appended_example =
    check_crc32_appended reflected_table message message reflected_table-IsTable message-IsBytes
      message-IsBytes (omega arith)
