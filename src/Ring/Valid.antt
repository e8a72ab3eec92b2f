-- ===== src/Ring/Valid.antt =====
-- The representation invariant of `ring_buffer` (src/ring_buffer.h): the size is a power of two,
-- both counters are words, and no more is stored than fits.
use native.Mathlib.Nat.{mod-lt}
use leo_net.Base.{ℕ, ◌+◌, ◌-◌, ◌%◌, ◌^◌, ◌≤◌, ◌<◌, ◌≡◌, ◌∙◌, sym, ap, List, arith, add32}
use leo_net.Base.Lists.{length}
use leo_net.Base.Circular
use leo_net.Base.Circular.{wrap, mask, advance}
use leo_net.Ring.{RingBuffer, used, available, read_at, write_at}
use leo_net.Ring.Window.{window, length-window}

pub record IsValid (r : RingBuffer) : Type 0 where
  pub exponent : ℕ
  pub power : r.buffer_size ≡ 2 ^ exponent
  pub small : exponent ≤ 30
  pub storage : length r.ring_buffer ≡ r.buffer_size
  pub write_word : r.write_p < 2 ^ 32
  pub read_word : r.read_p < 2 ^ 32
  pub held : used r ≤ r.buffer_size

-- The bytes stored, oldest first.
unfoldable pub contents : RingBuffer → List ℕ
contents r = window r.ring_buffer r.buffer_size (read_at r) (used r)

pub length-contents : (r : RingBuffer) → length (contents r) ≡ used r
unfolding contents
length-contents r = length-window r.ring_buffer r.buffer_size (read_at r) (used r)

module _ {r : RingBuffer} (v : IsValid r) where
  pub size_bounds : (0 < r.buffer_size) × (r.buffer_size ≤ 2 ^ 30)
  size_bounds = Circular.size_bounds v.exponent r.buffer_size v.power v.small

  pub read_at-eq : read_at r ≡ r.read_p % r.buffer_size
  unfolding read_at
  read_at-eq = mask v.exponent r.buffer_size v.power v.small r.read_p

  pub write_at-eq : write_at r ≡ r.write_p % r.buffer_size
  unfolding write_at
  write_at-eq = mask v.exponent r.buffer_size v.power v.small r.write_p

  pub read_at-lt : read_at r < r.buffer_size
  read_at-lt = rw read_at-eq (mod-lt r.read_p size_bounds.0)

  -- Writing goes on where the stored bytes end.
  pub write_at-wrap : write_at r ≡ wrap r.buffer_size (read_at r + used r)
  write_at-wrap =
      let e : r.write_p ≡ add32 r.read_p (used r) = omega (arith, v.write_word, v.read_word) in
      write_at-eq
      ∙ ap (λ p. p % r.buffer_size) e
      ∙ advance v.exponent r.buffer_size v.power v.small r.read_p (used r) v.held
      ∙ ap (λ p. wrap r.buffer_size (p + used r)) (sym read_at-eq)

  pub available-eq : available r ≡ r.buffer_size - used r
  available-eq = omega (arith, size_bounds)
