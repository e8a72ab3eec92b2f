-- ===== src/Xor/Tests.antt =====
-- Runs of the `xor_crypt` model, and its theorems at concrete buffers.
use leo_net.Xor.Keys.{initial_xor_keys, rand_xor_key}
use leo_net.Xor.Keys.Rows.{initial_xor_keys_lem}
use leo_net.Base.Lists.{length, get_or, replicate}
use leo_net.Base.{◌+◌, ◌*◌, ◌%◌, ◌<◌}
use leo_net.Base.{ℕ, ◌≡◌, refl, some, List, [], ◌∷◌, arith}
use leo_net.Base.Memory.{load_block, store_block, slice, splice}
use leo_net.Base.Endian.{IsBytes, Small-IsBytes, load32, store32}
use leo_net.Xor.{xor_sections, xor_remains, xor_crypt, xor_decrypt}
use leo_net.Xor.Masked.{IsMasked}
use leo_net.Xor.Laws.{key_byte, xor_crypt-IsMasked, xor_decrypt-xor_crypt}

abbrev secret : List ℕ
secret = 1 ∷ 2 ∷ 3 ∷ 4 ∷ 5 ∷ 6 ∷ 7 ∷ 8 ∷ 9 ∷ 10 ∷ 11 ∷ 12 ∷ 13 ∷ 14 ∷ 15 ∷ 16 ∷ 0 ∷ []

abbrev plain : List ℕ
plain = 255 ∷ 0 ∷ 0 ∷ 0 ∷ 0 ∷ 16 ∷ 99 ∷ []

-- A word, then the key from its first byte again for the two bytes behind it.
crypt_plain : xor_crypt plain 6 secret ≡ some (1, 254 ∷ 2 ∷ 3 ∷ 4 ∷ 1 ∷ 18 ∷ 99 ∷ [])
unfolding xor_crypt xor_sections xor_remains load32 store32 load_block store_block slice splice
crypt_plain = refl

secret-IsBytes : IsBytes secret
secret-IsBytes = Small-IsBytes secret (omega arith)

plain-IsBytes : IsBytes plain
plain-IsBytes = Small-IsBytes plain (omega arith)

xor_crypt-IsMasked_example :
    (out : List ℕ) × (xor_crypt plain 6 secret ≡ some (1, out))
    × IsMasked (key_byte secret 6) 0 6 plain out
xor_crypt-IsMasked_example =
    xor_crypt-IsMasked secret secret-IsBytes (omega arith) plain plain-IsBytes 6 (omega arith)

xor_decrypt-xor_crypt_example :
    (mid : List ℕ) × (xor_crypt plain 6 secret ≡ some (1, mid))
    × (xor_decrypt mid 6 secret ≡ some (1, plain))
xor_decrypt-xor_crypt_example =
    xor_decrypt-xor_crypt secret plain 6 secret-IsBytes (omega arith) plain-IsBytes (omega arith)

-- A table of zeros and a `rand` that counts its calls.
abbrev no_keys : List ℕ
no_keys = replicate 4352 0

abbrev counting : ℕ → ℕ
counting call = call

initial_xor_keys_lem_example :
    (out : List ℕ) × (initial_xor_keys counting no_keys ≡ some out)
    × (length out ≡ 4352)
    × ((c : ℕ)
        → c < 16
        → get_or out (rand_xor_key 300 + c) 0 ≡ 1 + counting (16 * (300 % 256) + c) % 255)
    × (get_or out (rand_xor_key 300 + 16) 0 ≡ 0)
initial_xor_keys_lem_example = initial_xor_keys_lem counting no_keys 300 refl
