-- ===== src/Protocol/Key/Sent.antt =====
-- What the client finds in the packet of `send_key` (src/leo_tcp_game_protocol.c).
use leo_net.Base.{
  ℕ, zero, suc, ◌+◌, ◌-◌, ◌≤◌, ◌≡◌, ◌∙◌, refl, sym, ap, some, List, [], ◌∷◌, ◌++◌, arith, ◌>>=◌,
  u32, Option,
}
use leo_net.Base.Lists.{
  length, take, drop, drop-add, set, length-set, length-append, length-drop, get_or, take-length,
  get_or-drop, get_or-set, get_or_ext, get_or-append,
}
use leo_net.Base.Memory.{
  load_block, store_block, load_block_lem, store_block_lem, store_elem_lem, slice, splice,
  length-slice, length-splice, get_or-splice, get_or-slice,
}
use leo_net.Base.Endian.{
  IsBytes, bytes2, bytes4, store16, append-IsBytes, bytes4-IsBytes, Small-IsBytes,
}
use leo_net.Xor.Keys.{rand_xor_key}
use leo_net.Des.{ecb_crypt, des_encrypt, des_decrypt, device_error, rounded}
use leo_net.Des.Ecb.{ecb_crypt_decrypt}
use leo_net.Protocol.{AboutCrypt}
use leo_net.Protocol.Key.{new_keys, secret_key, send_key, default_ecb}

-- A record of keys with arrays of the declared lengths, holding bytes.
pub record IsKeys (ac : AboutCrypt) : Type 0 where
  pub xor_long : length ac.xor_key ≡ 17
  pub swap_long : length ac.swap_key ≡ 5
  pub xor_bytes : IsBytes ac.xor_key
  pub swap_bytes : IsBytes ac.swap_key

-- The keys chosen.
abbrev pub fresh : List ℕ → ℕ → ℕ → AboutCrypt → AboutCrypt
fresh xor_keys rand rand' ac = record {
  sequence_id = 0;
  session_key = u32 rand;
  xor_key = slice (rand_xor_key rand') 16 xor_keys ++ (0 ∷ []);
  swap_key = set ac.swap_key 4 0;
}

get_or_one : (i : ℕ) → get_or {A = ℕ} (0 ∷ []) i 0 ≡ 0
get_or_one zero = refl
get_or_one (suc i) = refl

-- A key of sixteen bytes with a 0 behind it.
ended :
    (chosen old : List ℕ)
    → length chosen ≡ 16
    → length old ≡ 17
    → set (splice 0 chosen old) 16 0 ≡ chosen ++ (0 ∷ [])
ended chosen old count long =
    let room : 0 + length chosen ≤ length old = omega arith in
    let same = length-splice 0 chosen old room in
    get_or_ext 0 (set (splice 0 chosen old) 16 0) (chosen ++ (0 ∷ []))
      (omega (arith, length-set (splice 0 chosen old) 16 0, same, length-append chosen (0 ∷ [])))
      λ i h. ground (
        arith,
        get_or-set (splice 0 chosen old) 16 i 0 0,
        get_or-splice 0 chosen old i 0 room,
        get_or-append chosen (0 ∷ []) i 0,
        length-set (splice 0 chosen old) 16 0,
        get_or_one (i - 16),
      )

module _ (xor_keys : List ℕ) (whole : length xor_keys ≡ 4352) (rand rand' : ℕ) (ac : AboutCrypt)
    (valid : IsKeys ac) where
  inside : rand_xor_key rand' + 16 ≤ length xor_keys
  unfolding rand_xor_key
  inside = omega (arith, whole)

  new_keys-fresh : new_keys xor_keys rand rand' ac ≡ some (fresh xor_keys rand rand' ac)
  unfolding new_keys
  new_keys-fresh =
      let at = rand_xor_key rand' in
      let chosen = slice at 16 xor_keys in
      let count : length chosen ≡ 16 = length-slice at 16 xor_keys inside in
      let xor_long = valid.xor_long in
      let swap_long = valid.swap_long in
      let room : 0 + length chosen ≤ length ac.xor_key = omega (arith, count) in
      let same = length-splice 0 chosen ac.xor_key room in
      rw
        (
          load_block_lem xor_keys at 16 inside,
          store_block_lem ac.xor_key 0 chosen room,
          store_elem_lem (splice 0 chosen ac.xor_key) 16 0 (omega (arith, same)),
          store_elem_lem ac.swap_key 4 0 (omega arith),
          ended chosen ac.xor_key count xor_long,
        )
        refl

-- A whole block loaded.
load_all : (m : List ℕ) (n : ℕ) → length m ≡ n → load_block m 0 n ≡ some m
unfolding slice
load_all m n e =
    load_block_lem m 0 n (omega arith) ∙ ap some (ap (λ k. take k m) (sym e) ∙ take-length m)

-- The structure `secret_key` of a record of keys, as the client reads it.
abbrev pub secret : AboutCrypt → List ℕ
secret ac = bytes4 ac.session_key ++ (ac.xor_key ++ ac.swap_key)

length-secret : (ac : AboutCrypt) → IsKeys ac → length (secret ac) ≡ 26
length-secret ac valid =
    omega (arith, length-append ac.xor_key ac.swap_key, valid.xor_long, valid.swap_long)

secret_key-secret : (ac : AboutCrypt) → IsKeys ac → secret_key ac ≡ some (secret ac)
unfolding secret_key
secret_key-secret ac valid =
    rw (load_all ac.xor_key 17 valid.xor_long, load_all ac.swap_key 5 valid.swap_long) refl

-- The packet before it is encrypted: the size, the identifier 0xffff, the keys, the old bytes.
abbrev pub packet : List ℕ → List ℕ → List ℕ
packet sk buf = bytes2 26 ++ (bytes2 0xffff ++ (sk ++ drop 30 buf))

module _ (a b c d : ℕ) (rest : List ℕ) where
  put_size : store16 (a ∷ b ∷ c ∷ d ∷ rest) 0 26 ≡ some (26 ∷ 0 ∷ c ∷ d ∷ rest)
  unfolding store16 splice
  put_size = store_block_lem (a ∷ b ∷ c ∷ d ∷ rest) 0 (bytes2 26) (omega arith)

  put_id : store16 (a ∷ b ∷ c ∷ d ∷ rest) 2 0xffff ≡ some (a ∷ b ∷ 0xff ∷ 0xff ∷ rest)
  unfolding store16 splice
  put_id = store_block_lem (a ∷ b ∷ c ∷ d ∷ rest) 2 (bytes2 0xffff) (omega arith)

  put_secret :
      (sk : List ℕ)
      → length sk ≤ length rest
      → store_block (a ∷ b ∷ c ∷ d ∷ rest) 4 sk
        ≡ some (a ∷ b ∷ c ∷ d ∷ (sk ++ drop (length sk) rest))
  unfolding splice
  put_secret sk fits =
      store_block_lem (a ∷ b ∷ c ∷ d ∷ rest) 4 sk (omega arith)
      ∙ ap (λ t. some (a ∷ b ∷ c ∷ d ∷ (sk ++ t))) (drop-add 4 (length sk) (a ∷ b ∷ c ∷ d ∷ rest))

put_packet :
    {B : Type 0} (k : List ℕ → Option B) (sk buf : List ℕ)
    → length sk ≡ 26
    → 30 ≤ length buf
    → (do
      with_size ← store16 buf 0 26
      with_id ← store16 with_size 2 0xffff
      with_keys ← store_block with_id 4 sk
      k with_keys)
      ≡ k (packet sk buf)
put_packet k sk (a ∷ b ∷ c ∷ d ∷ rest) e h =
    rw
      (
        put_size a b c d rest,
        put_id 26 0 c d rest,
        put_secret 26 0 0xff 0xff rest sk (omega arith),
        e,
      )
      refl
put_packet k sk [] e h = absurd (omega arith)
put_packet k sk (_ ∷ []) e h = absurd (omega arith)
put_packet k sk (_ ∷ _ ∷ []) e h = absurd (omega arith)
put_packet k sk (_ ∷ _ ∷ _ ∷ []) e h = absurd (omega arith)

packet-IsBytes :
    (ac : AboutCrypt) (buf : List ℕ) → IsKeys ac → IsBytes buf → IsBytes (packet (secret ac) buf)
packet-IsBytes ac buf keys bytes =
    let keys_bytes : IsBytes (ac.xor_key ++ ac.swap_key) =
      append-IsBytes ac.xor_key ac.swap_key keys.xor_bytes keys.swap_bytes in
    let rest_bytes : IsBytes (drop 30 buf) =
      λ p. ground (arith, get_or-drop 30 buf p (30 + p) 0 refl, bytes (30 + p)) in
    append-IsBytes (26 ∷ 0 ∷ 0xff ∷ 0xff ∷ []) (secret ac ++ drop 30 buf)
      (Small-IsBytes (26 ∷ 0 ∷ 0xff ∷ 0xff ∷ []) (omega arith))
      (append-IsBytes (secret ac) (drop 30 buf)
        (append-IsBytes (bytes4 ac.session_key) (ac.xor_key ++ ac.swap_key)
          (bytes4-IsBytes ac.session_key) keys_bytes)
        rest_bytes)

fresh-IsKeys :
    (xor_keys : List ℕ) (rand rand' : ℕ) (ac : AboutCrypt)
    → length xor_keys ≡ 4352
    → IsBytes xor_keys
    → IsKeys ac
    → IsKeys (fresh xor_keys rand rand' ac)
unfolding rand_xor_key
fresh-IsKeys xor_keys rand rand' ac whole bytes valid =
    let at = rand_xor_key rand' in
    let chosen = slice at 16 xor_keys in
    let count : length chosen ≡ 16 = length-slice at 16 xor_keys (omega (arith, whole)) in
    record {
      xor_long = omega (arith, length-append chosen (0 ∷ []), count);
      swap_long = length-set ac.swap_key 4 0 ∙ valid.swap_long;
      xor_bytes =
          append-IsBytes chosen (0 ∷ [])
            (λ p. ground (arith, get_or-slice at 16 xor_keys p 0, bytes (at + p)))
            (λ p. omega (arith, get_or_one p));
      swap_bytes = λ p. ground (
        arith,
        get_or-set ac.swap_key 4 p 0 0 (omega (arith, valid.swap_long)),
        valid.swap_bytes p,
      );
    }

-- With a whole table of bytes, keys in arrays of their declared lengths and a buffer of 32 bytes or
-- more, `send_key` stays inside them, starts the session with fresh keys in such arrays and number 0,
-- returns 32, and leaves a packet which `ecb_crypt` decrypts, with the key that the client shares, to
-- its size, 0xffff, the session's key, the xor key and the swap key.
pub send_key_lem :
    (xor_keys : List ℕ) (rand rand' : ℕ) (ac : AboutCrypt) (buf : List ℕ)
    → length xor_keys ≡ 4352
    → IsBytes xor_keys
    → IsKeys ac
    → 32 ≤ length buf
    → IsBytes buf
    → let ac' = fresh xor_keys rand rand' ac in
      (out : List ℕ) × (send_key xor_keys rand rand' ac buf ≡ some (32, ac', out))
      × IsKeys ac'
      × (ecb_crypt default_ecb out 30 des_decrypt
          ≡ some (device_error des_decrypt, packet (secret ac') buf))
unfolding send_key rounded
send_key_lem xor_keys rand rand' ac buf whole bytes valid room buf_bytes =
    let ac' = fresh xor_keys rand rand' ac in
    let keys = fresh-IsKeys xor_keys rand rand' ac whole bytes valid in
    let sk = secret ac' in
    let plain = packet sk buf in
    let count = length-secret ac' keys in
    let plain_bytes : IsBytes plain = packet-IsBytes ac' buf keys buf_bytes in
    let plain_long : length plain ≡ length buf =
      omega (arith, length-append sk (drop 30 buf), length-drop 30 buf, count) in
    let (out, encrypts, same, decrypts) =
      ecb_crypt_decrypt default_ecb plain 30 des_encrypt des_decrypt (omega arith) plain_bytes
        (omega (arith, plain_long)) refl refl in
    (
      out,
      rw
          (
            new_keys-fresh xor_keys whole rand rand' ac valid,
            secret_key-secret ac' keys,
            put_packet {B = ℕ × AboutCrypt × List ℕ}
                (λ m.
                  ecb_crypt default_ecb m 30 des_encrypt >>= λ crypted. some (32, ac', crypted.1))
                sk buf count (omega arith),
            encrypts,
          )
          refl,
      keys,
      decrypts,
    )
