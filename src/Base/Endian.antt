-- ===== src/Base/Endian.antt =====
-- `unsigned int` and `unsigned short` in memory, lowest byte first, as on the x86 that the project is
-- built for.
use Prim.Native.Nat.{ℕ, zero, suc, ◌-◌, ◌+◌, ◌*◌, ◌/◌, ◌%◌, ◌^◌, ◌≤◌, ◌<◌, bit_xor}
use Prim.Native.Nat.add
use mathlib.Core.Path.{◌≡◌}
use mathlib.Core.List.{List, [], ◌∷◌, ◌++◌}
use mathlib.Core.Option.{Option, some}
use native.Mathlib.Omega.{arith}
use leo_net.Base.Tests.{◌>>=◌}
use leo_net.Base.Lists.{length, get_or, get_or-append, replicate}
use leo_net.Base.Memory.{load_block, store_block, load_block_lem}
use leo_net.Base.Memory.{get_or-slice}
use leo_net.Base.Bits.{bit_xor_fields, bit_xor-lt}

-- Four bytes as one word, and the other way.
abbrev pub word4 : ℕ → ℕ → ℕ → ℕ → ℕ
word4 a b c d = ((d * 2 ^ 8 + c) * 2 ^ 8 + b) * 2 ^ 8 + a

abbrev pub bytes4 : ℕ → List ℕ
bytes4 w = w % 2 ^ 8 ∷ w / 2 ^ 8 % 2 ^ 8 ∷ w / 2 ^ 16 % 2 ^ 8 ∷ w / 2 ^ 24 % 2 ^ 8 ∷ []

abbrev pub bytes2 : ℕ → List ℕ
bytes2 w = w % 2 ^ 8 ∷ w / 2 ^ 8 % 2 ^ 8 ∷ []

-- `*(unsigned int*)&m[off]`
unfoldable pub load32 : List ℕ → ℕ → Option ℕ
load32 m off = do
  bs ← load_block m off 4
  some (word4 (get_or bs 0 0) (get_or bs 1 0) (get_or bs 2 0) (get_or bs 3 0))

unfoldable pub store32 : List ℕ → ℕ → ℕ → Option (List ℕ)
store32 m off w = store_block m off (bytes4 w)

-- `*(unsigned short*)&m[off]`
unfoldable pub load16 : List ℕ → ℕ → Option ℕ
load16 m off = do bs ← load_block m off 2; some (get_or bs 1 0 * 2 ^ 8 + get_or bs 0 0)

unfoldable pub store16 : List ℕ → ℕ → ℕ → Option (List ℕ)
store16 m off w = store_block m off (bytes2 w)

abbrev pub word_at : List ℕ → ℕ → ℕ
word_at m off =
    word4 (get_or m off 0) (get_or m (off + 1) 0) (get_or m (off + 2) 0) (get_or m (off + 3) 0)

pub load32_lem : (m : List ℕ) (off : ℕ) → off + 4 ≤ length m → load32 m off ≡ some (word_at m off)
unfolding load32
load32_lem m off h = ground (
  arith,
  load_block_lem m off 4,
  get_or-slice off 4 m 0 0,
  get_or-slice off 4 m 1 0,
  get_or-slice off 4 m 2 0,
  get_or-slice off 4 m 3 0,
)

-- Words are masked byte by byte.
pub bytes4-xor :
    (a b c d e f g h : ℕ)
    → a < 2 ^ 8
    → b < 2 ^ 8
    → c < 2 ^ 8
    → d < 2 ^ 8
    → e < 2 ^ 8
    → f < 2 ^ 8
    → g < 2 ^ 8
    → h < 2 ^ 8
    → bytes4 (bit_xor (word4 a b c d) (word4 e f g h))
      ≡ bit_xor a e ∷ bit_xor b f ∷ bit_xor c g ∷ bit_xor d h ∷ []
bytes4-xor a b c d e f g h ha hb hc hd he hf hg hh = ground (
  arith,
  bit_xor_fields 8 ((d * 2 ^ 8 + c) * 2 ^ 8 + b) a ((h * 2 ^ 8 + g) * 2 ^ 8 + f) e,
  bit_xor_fields 8 (d * 2 ^ 8 + c) b (h * 2 ^ 8 + g) f,
  bit_xor_fields 8 d c h g,
  bit_xor-lt 8 a e,
  bit_xor-lt 8 b f,
  bit_xor-lt 8 c g,
  bit_xor-lt 8 d h,
)

-- Every cell is a byte; a cell that is not there counts as 0.
abbrev pub IsBytes : List ℕ → Type 0
IsBytes m = (p : ℕ) → get_or m p 0 < 2 ^ 8

-- The same, cell by cell.
abbrev pub Small : List ℕ → Type 0
Small [] = Unit {0}
Small (x ∷ xs) = (x < 2 ^ 8) × Small xs

pub Small-IsBytes : (m : List ℕ) → Small m → IsBytes m
Small-IsBytes [] h p = omega arith
Small-IsBytes (x ∷ xs) h zero = h.0
Small-IsBytes (x ∷ xs) h (suc p) = Small-IsBytes xs h.1 p

pub append-IsBytes : (xs ys : List ℕ) → IsBytes xs → IsBytes ys → IsBytes (xs ++ ys)
append-IsBytes xs ys a b p = ground (arith, get_or-append xs ys p 0, a p, b (p - length xs))

pub replicate-IsBytes : (n x : ℕ) → x < 2 ^ 8 → IsBytes (replicate n x)
replicate-IsBytes zero x h p = omega arith
replicate-IsBytes (suc n) x h zero = h
replicate-IsBytes (suc n) x h (suc p) = replicate-IsBytes n x h p

pub bytes4-IsBytes : (w : ℕ) → IsBytes (bytes4 w)
bytes4-IsBytes w zero = omega arith
bytes4-IsBytes w (suc zero) = omega arith
bytes4-IsBytes w (suc (suc zero)) = omega arith
bytes4-IsBytes w (suc (suc (suc zero))) = omega arith
bytes4-IsBytes w (suc (suc (suc (suc p)))) = omega arith

-- A word read back where it was put.
pub word_at-bytes4 :
    (body : List ℕ) (w : ℕ) (rest : List ℕ)
    → w < 2 ^ 32
    → word_at (body ++ (bytes4 w ++ rest)) (length body) ≡ w
word_at-bytes4 [] w rest h = omega arith
word_at-bytes4 (x ∷ body) w rest h = simp add.suc (word_at-bytes4 body w rest h)
