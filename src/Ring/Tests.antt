-- ===== src/Ring/Tests.antt =====
-- Runs of the `ring_buffer` model, and its theorems at concrete buffers.
use leo_net.Base.{ℕ, ◌-◌, ◌^◌, ◌≤◌, ◌≡◌, ◌↔◌, refl, true, some, List, [], ◌∷◌, ◌++◌, arith}
use leo_net.Base.Lists.{replicate}
use leo_net.Base.Memory.{load_block, store_block, slice, splice}
use leo_net.Ring.{RingBuffer, is_power_of_2, construct, read_at, write_at, copy_in}
use leo_net.Ring.{kfifo_put}
use leo_net.Ring.Window.{window}
use leo_net.Ring.Valid.{IsValid, contents}
use leo_net.Ring.Fifo.{kfifo_put_lem}
use leo_net.Ring.Run.{Op, put, get, peek, skip, reset, run, serve_all}
use leo_net.Ring.Run.Refine.{run_refines}
use leo_net.Ring.Construct.{is_power_of_2_iff, construct_iff}

-- Two bytes, 40 and 10, across the end of the storage and across the wrap of the write counter.
abbrev wrapped : RingBuffer
wrapped = record {
  buffer_size = 4;
  ring_buffer = 10 ∷ 20 ∷ 30 ∷ 40 ∷ [];
  write_p = 1;
  read_p = 2 ^ 32 - 1;
}

wrapped-IsValid : IsValid wrapped
wrapped-IsValid = record {
  exponent = 2;
  power = refl;
  small = omega arith;
  storage = refl;
  write_word = omega arith;
  read_word = omega arith;
  held = omega arith;
}

contents-wrapped : contents wrapped ≡ 40 ∷ 10 ∷ []
unfolding contents window read_at
contents-wrapped = refl

put_wrapped :
    kfifo_put wrapped (7 ∷ 8 ∷ 9 ∷ []) 3
    ≡ some (record {
      result = 2;
      ring = record wrapped { ring_buffer = 10 ∷ 7 ∷ 8 ∷ 40 ∷ []; write_p = 3 };
      buffer = 7 ∷ 8 ∷ 9 ∷ [];
    })
unfolding kfifo_put copy_in write_at load_block store_block slice splice
put_wrapped = refl

abbrev script : List Op
script = put (7 ∷ 8 ∷ 9 ∷ []) ∷ peek 5 ∷ get 3 ∷ skip 2 ∷ skip 1 ∷ reset ∷ []

kfifo_put_lem_example :
    (r' : RingBuffer) × (kfifo_put wrapped (7 ∷ 8 ∷ 9 ∷ []) 3
      ≡ some (record { result = 2; ring = r'; buffer = 7 ∷ 8 ∷ 9 ∷ [] }))
    × IsValid r'
    × (r'.buffer_size ≡ 4)
    × (contents r' ≡ contents wrapped ++ (7 ∷ 8 ∷ []))
kfifo_put_lem_example = kfifo_put_lem wrapped-IsValid (7 ∷ 8 ∷ 9 ∷ []) 3 (omega arith)

run_refines_example :
    (r' : RingBuffer) × (run wrapped script ≡ some ((serve_all 4 (contents wrapped) script).0, r'))
    × IsValid r'
    × (contents r' ≡ (serve_all 4 (contents wrapped) script).1)
run_refines_example = run_refines script wrapped-IsValid

is_power_of_2_iff_example : (is_power_of_2 4096 ≡ true) ↔ ((k : ℕ) × (4096 ≡ 2 ^ k))
is_power_of_2_iff_example = is_power_of_2_iff 4096 (omega arith)

abbrev zeroed : ℕ → List ℕ
zeroed n = replicate n 0

construct_iff_example :
    ((r : RingBuffer) × (construct zeroed 4096 ≡ some r)) ↔ ((k : ℕ) × (k ≤ 30) × (4096 ≡ 2 ^ k))
construct_iff_example = construct_iff zeroed 4096 (omega arith)
