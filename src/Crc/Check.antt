-- ===== src/Crc/Check.antt =====
-- `generate_crc32` and `check_crc32` (src/leo_dof_crypto.c).
use native.Mathlib.Numerals.{add-one}
use leo_net.Base.{
  ℕ, zero, suc, ◌+◌, ◌-◌, ◌*◌, ◌/◌, ◌%◌, ◌^◌, ◌≤◌, ◌<◌, ◌≡◌, ◌∙◌, refl, ap, bit_and, bit_xor, some,
  none, List, [], ◌∷◌, ◌++◌, ◌==◌, if◌then◌else◌, u8, shl32, shr, sub32, arith, ==_refl,
}
use leo_net.Base.Lists.{
  length, get_or, take, drop, drop-eq-cons, get_elem?-eq-get_or, length-append, take-append_self,
}
use leo_net.Base.Memory.{load_block}
use leo_net.Base.Bits.{bit_and-low, bit_xor-lt, bit_or-shifted}
use leo_net.Base.Endian.{
  IsBytes, word_at, append-IsBytes, bytes4-IsBytes, word_at-bytes4, bytes4, load32, load32_lem,
}
use leo_net.Base.Lists.{tabulate, length-tabulate, get_or-tabulate, get_or-eq_of_le}
use native.Mathlib.Decide.{dec_lt}
use leo_net.Crc.Table.{reflected_entry, reflected_entry-lt}
use leo_net.Crc.{crc_byte, generate_from, generate_crc32, check_crc32}

-- The checksum of a list of bytes, each shifted in below the word and the table's entry for the
-- byte that falls out on top mixed in.
pub crc_fold : List ℕ → ℕ → List ℕ → ℕ
crc_fold table crc [] = crc
crc_fold table crc (c ∷ cs) =
    crc_fold table (bit_xor (crc * 2 ^ 8 % 2 ^ 32 + c) (get_or table (crc / 2 ^ 24) 0)) cs

abbrev pub IsWords : List ℕ → Type 0
IsWords table = (i : ℕ) → get_or table i 0 < 2 ^ 32

crc_byte-eq : (crc t c : ℕ) → c < 2 ^ 8 → crc_byte crc t c ≡ bit_xor (crc * 2 ^ 8 % 2 ^ 32 + c) t
unfolding crc_byte
crc_byte-eq crc t c h =
    let shifted : shl32 crc 8 ≡ crc % 2 ^ 24 * 2 ^ 8 = omega arith in
    let low : bit_and c 0xff ≡ c = omega (arith, bit_and-low 8 c) in
    rw (shifted, low, bit_or-shifted 8 (crc % 2 ^ 24) c h)
      (ap (λ s. bit_xor (s + c) t) (omega arith))

index-eq : (crc : ℕ) → crc < 2 ^ 32 → u8 (bit_and (shr crc 24) 0xff) ≡ crc / 2 ^ 24
index-eq crc h = omega (arith, bit_and-low 8 (crc / 2 ^ 24))

-- A table with an entry for each byte.
pub record IsTable (table : List ℕ) : Type 0 where
  pub long : 256 ≤ length table
  pub words : IsWords table

module _ (table : List ℕ) (valid : IsTable table) (buf : List ℕ) (bytes : IsBytes buf) where
  generate_from-eq :
      (len counts crc : ℕ)
      → counts + len ≤ length buf
      → crc < 2 ^ 32
      → generate_from table buf len counts crc
        ≡ some (crc_fold table crc (take len (drop counts buf)))
  unfolding generate_from crc_fold
  generate_from-eq zero counts crc h w = refl
  generate_from-eq (suc len) counts crc h w =
      let c : ℕ = get_or buf counts 0 in
      let t : ℕ = get_or table (crc / 2 ^ 24) 0 in
      let mixed : crc_byte crc t c ≡ bit_xor (crc * 2 ^ 8 % 2 ^ 32 + c) t =
        crc_byte-eq crc t c (bytes counts) in
      let small : bit_xor (crc * 2 ^ 8 % 2 ^ 32 + c) t < 2 ^ 32 =
        bit_xor-lt 32 (crc * 2 ^ 8 % 2 ^ 32 + c) t (omega (arith, bytes counts)) (valid.words _) in
      rw
        (
          index-eq crc w,
          get_elem?-eq-get_or table (crc / 2 ^ 24) 0 (omega (arith, valid.long)),
          get_elem?-eq-get_or buf counts 0 (omega arith),
          mixed,
          drop-eq-cons counts buf 0 (omega arith),
          add-one,
        )
        (generate_from-eq len (suc counts) (bit_xor (crc * 2 ^ 8 % 2 ^ 32 + c) t) (omega arith)
          small)

  -- With a whole table, `generate_crc32` stays inside both arrays and returns the checksum of the
  -- first `len` bytes.
  pub generate_crc32-eq :
      (len : ℕ)
      → len ≤ length buf
      → generate_crc32 table buf len ≡ some (crc_fold table 0 (take len buf))
  unfolding generate_crc32
  generate_crc32-eq len h = generate_from-eq len 0 0 (omega arith) (omega arith)

  -- `check_crc32` tells whether the last four of the `len` bytes are the checksum of those before.
  pub check_crc32-eq :
      (len : ℕ)
      → 4 ≤ len
      → len ≤ length buf
      → len < 2 ^ 32
      → check_crc32 table buf len
        ≡ some (if word_at buf (len - 4) == crc_fold table 0 (take (len - 4) buf) then 1 else 0)
  unfolding check_crc32
  check_crc32-eq len low high word =
      let at : sub32 len 4 ≡ len - 4 = omega arith in
      rw (at, load32_lem buf (len - 4) (omega arith), generate_crc32-eq (len - 4) (omega arith))
        refl

-- Fewer than four bytes have no checksum: the word is read far outside the buffer.
pub check_crc32_short :
    (table buf : List ℕ) (len : ℕ)
    → len < 4
    → length buf < 2 ^ 32
    → check_crc32 table buf len ≡ none
unfolding check_crc32 load32
check_crc32_short table buf len h small =
    let outside : load_block buf (sub32 len 4) 4 ≡ none = unfold load_block in ground arith in
    rw outside refl

crc_fold-lt :
    (table : List ℕ) (crc : ℕ) (cs : List ℕ)
    → IsWords table
    → IsBytes cs
    → crc < 2 ^ 32
    → crc_fold table crc cs < 2 ^ 32
unfolding crc_fold
crc_fold-lt table crc [] words bytes w = w
crc_fold-lt table crc (c ∷ cs) words bytes w =
    crc_fold-lt table (bit_xor (crc * 2 ^ 8 % 2 ^ 32 + c) (get_or table (crc / 2 ^ 24) 0)) cs words
      (λ p. bytes (suc p))
      (bit_xor-lt 32 (crc * 2 ^ 8 % 2 ^ 32 + c) (get_or table (crc / 2 ^ 24) 0)
        (omega (arith, bytes 0)) (words _))

-- A message with its checksum behind it passes the check, whatever follows.
pub check_crc32_appended :
    (table body rest : List ℕ)
    → IsTable table
    → IsBytes body
    → IsBytes rest
    → length body + 4 < 2 ^ 32
    → check_crc32 table (body ++ (bytes4 (crc_fold table 0 body) ++ rest)) (length body + 4)
      ≡ some 1
check_crc32_appended table body rest valid bytes rest_bytes small =
    let crc : ℕ = crc_fold table 0 body in
    let whole : List ℕ = body ++ (bytes4 crc ++ rest) in
    let long : length whole ≡ length body + 4 + length rest =
      omega (arith, length-append body (bytes4 crc ++ rest)) in
    let at : length body + 4 - 4 ≡ length body = omega arith in
    check_crc32-eq table valid whole
      (append-IsBytes body (bytes4 crc ++ rest) bytes
        (append-IsBytes (bytes4 crc) rest (bytes4-IsBytes crc) rest_bytes))
      (length body + 4) (omega arith) (omega arith) small
    ∙ rw
        (
          at,
          word_at-bytes4 body crc rest (crc_fold-lt table 0 body valid.words bytes (omega arith)),
          take-append_self body (bytes4 crc ++ rest),
          ==_refl crc,
        )
        refl

pub reflected_table : List ℕ
reflected_table = tabulate 256 reflected_entry

-- The table of the reflected polynomial is a whole table of words.
pub reflected_table-IsTable : IsTable reflected_table
unfolding reflected_table
reflected_table-IsTable = record {
  long = omega (arith, length-tabulate 256 reflected_entry);
  words = λ i. elim (dec_lt i 256) [
    | yes h ↦ rw (get_or-tabulate 256 reflected_entry i 0 h) (reflected_entry-lt i h)
    | no h ↦
        rw
          (get_or-eq_of_le (tabulate 256 reflected_entry) i 0
            (omega (arith, length-tabulate 256 reflected_entry)))
          (omega arith)
  ];
}
