-- ===== src/Ring/Copy.antt =====
-- The two-part copies of src/ring_buffer.cpp in terms of windows.
use leo_net.Base.{
  ℕ, ◌+◌, ◌-◌, ◌≤◌, ◌<◌, ◌^◌, ◌≡◌, ◌∙◌, sym, ap, List, ◌++◌, some, ltb, if◌then◌else◌,
}
use leo_net.Base.{arith, sub32}
use leo_net.Base.Lists.{length, get_or, take, drop, get_or_ext, length-append, length-take}
use leo_net.Base.Lists.{length-drop, get_or-append, get_or-take, get_or-drop}
use leo_net.Base.Memory.{slice, splice, length-slice, get_or-slice}
use leo_net.Base.Memory.{length-splice, get_or-splice, load_block_lem, store_block_lem}
use leo_net.Ring.{_min, copy_out, copy_in}
use leo_net.Base.Circular.{wrap}
use leo_net.Ring.Window.{window, length-window, get_or-window, window_ext}

module _ (memory : List ℕ) (size at len : ℕ) (buffer : List ℕ) where
  abbrev i_len : ℕ
  i_len = if ltb len (size - at) then len else size - at

  -- What `copy_out` leaves in the buffer.
  drained : List ℕ
  drained = splice i_len (slice 0 (len - i_len) memory) (splice 0 (slice at i_len memory) buffer)

  -- What `copy_in` leaves in the storage.
  pub filled : List ℕ
  filled = splice 0 (slice i_len (len - i_len) buffer) (splice at (slice 0 i_len buffer) memory)

  module _ (inside : at < size) (small : size < 2 ^ 32) (fits : len ≤ size)
      (whole : length memory ≡ size) (room : len ≤ length buffer) where
    i_len-eq : _min len (sub32 size at) ≡ i_len
    i_len-eq = ground arith

    rest-eq : sub32 len i_len ≡ len - i_len
    rest-eq = ground arith

    copy_out-drained : copy_out memory size at buffer len ≡ some drained
    unfolding copy_out drained
    copy_out-drained =
        rw (i_len-eq, rest-eq) ground
          (
            arith,
            load_block_lem memory at i_len,
            length-slice at i_len memory,
            store_block_lem buffer 0 (slice at i_len memory),
            length-splice 0 (slice at i_len memory) buffer,
            load_block_lem memory 0 (len - i_len),
            length-slice 0 (len - i_len) memory,
            store_block_lem (splice 0 (slice at i_len memory) buffer) i_len
                (slice 0 (len - i_len) memory),
          )

    length-drained : length drained ≡ length buffer
    unfolding drained
    length-drained = ground (
      arith,
      length-slice at i_len memory,
      length-splice 0 (slice at i_len memory) buffer,
      length-slice 0 (len - i_len) memory,
      length-splice i_len (slice 0 (len - i_len) memory) (splice 0 (slice at i_len memory) buffer),
    )

    get_or-drained :
        (i : ℕ)
        → get_or drained i 0
          ≡ (if ltb i len then get_or memory (wrap size (at + i)) 0 else get_or buffer i 0)
    unfolding drained
    get_or-drained i = ground (
      arith,
      length-slice at i_len memory,
      length-splice 0 (slice at i_len memory) buffer,
      length-slice 0 (len - i_len) memory,
      get_or-splice i_len (slice 0 (len - i_len) memory) (splice 0 (slice at i_len memory) buffer) i
          0,
      get_or-splice 0 (slice at i_len memory) buffer i 0,
      get_or-slice at i_len memory i 0,
      get_or-slice 0 (len - i_len) memory (i - i_len) 0,
    )

    -- The bytes of the window, in front of what the buffer held behind them.
    pub copy_out_lem :
        copy_out memory size at buffer len ≡ some (window memory size at len ++ drop len buffer)
    copy_out_lem =
        copy_out-drained
        ∙ ap some (
            get_or_ext 0 drained (window memory size at len ++ drop len buffer)
              (omega (
                arith,
                length-drained,
                length-append (window memory size at len) (drop len buffer),
                length-window memory size at len,
                length-drop len buffer,
              ))
              λ i p. ground (
                arith,
                get_or-drained i,
                get_or-append (window memory size at len) (drop len buffer) i 0,
                length-window memory size at len,
                get_or-window memory size at len i,
                get_or-drop len buffer (i - len) i 0,
              ))

    pub copy_in_lem : copy_in memory size at buffer len ≡ some filled
    unfolding copy_in filled
    copy_in_lem =
        rw (i_len-eq, rest-eq) ground
          (
            arith,
            load_block_lem buffer 0 i_len,
            length-slice 0 i_len buffer,
            store_block_lem memory at (slice 0 i_len buffer),
            length-splice at (slice 0 i_len buffer) memory,
            load_block_lem buffer i_len (len - i_len),
            length-slice i_len (len - i_len) buffer,
            store_block_lem (splice at (slice 0 i_len buffer) memory) 0
                (slice i_len (len - i_len) buffer),
          )

    pub length-filled : length filled ≡ length memory
    unfolding filled
    length-filled = ground (
      arith,
      length-slice 0 i_len buffer,
      length-splice at (slice 0 i_len buffer) memory,
      length-slice i_len (len - i_len) buffer,
      length-splice 0 (slice i_len (len - i_len) buffer) (splice at (slice 0 i_len buffer) memory),
    )

    -- how far behind `at` an offset stands, going round
    abbrev behind : ℕ → ℕ
    behind j = if ltb j at then j + size - at else j - at

    get_or-filled :
        (j : ℕ)
        → j < size
        → get_or filled j 0
          ≡ (if ltb (behind j) len then get_or buffer (behind j) 0 else get_or memory j 0)
    unfolding filled
    get_or-filled j h = ground (
      arith,
      length-slice 0 i_len buffer,
      length-splice at (slice 0 i_len buffer) memory,
      length-slice i_len (len - i_len) buffer,
      get_or-splice 0 (slice i_len (len - i_len) buffer) (splice at (slice 0 i_len buffer) memory) j
          0,
      get_or-splice at (slice 0 i_len buffer) memory j 0,
      get_or-slice 0 i_len buffer (j - at) 0,
      get_or-slice i_len (len - i_len) buffer j 0,
    )

    -- Filling behind a window leaves the window and extends it by what was written.
    pub window-filled :
        (o u : ℕ)
        → o < size
        → u + len ≤ size
        → at ≡ wrap size (o + u)
        → window filled size o (u + len) ≡ window memory size o u ++ take len buffer
    window-filled o u ho hu e = sym (
        window_ext filled size o (u + len) (window memory size o u ++ take len buffer)
          (omega (
            arith,
            length-append (window memory size o u) (take len buffer),
            length-window memory size o u,
            length-take len buffer,
          ))
          λ i p. ground (
            arith,
            get_or-append (window memory size o u) (take len buffer) i 0,
            length-window memory size o u,
            get_or-window memory size o u i,
            get_or-take len buffer (i - u) 0,
            get_or-filled (wrap size (o + i)),
          ))
