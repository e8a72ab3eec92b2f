-- ===== src/Queue/Valid.antt =====
-- The representation invariant of `static_lock_free_queue` (src/leo_lock_free_queue.h), and what
-- moving its counters does. The header asks for `n` to be a power of two.
use native.Mathlib.Nat.{mod-lt}
use leo_net.Base.{
  ℕ, ◌+◌, ◌%◌, ◌^◌, ◌≤◌, ◌<◌, ◌≡◌, ◌∙◌, sym, ap, List, [], bit_and, arith, sub32, add32,
}
use leo_net.Base.Lists.{length, get_or, tabulate, length-tabulate, get_or-tabulate}
use leo_net.Base.Circular
use leo_net.Base.Circular.{wrap, mask, advance}
use leo_net.Queue.{Queue}

abbrev pub count : {A : Type 0} → Queue A → ℕ
count q = sub32 q.push_index q.pop_index

pub record IsValid {A : Type 0} (n : ℕ) (q : Queue A) : Type 0 where
  pub exponent : ℕ
  pub power : n ≡ 2 ^ exponent
  pub small : exponent ≤ 30
  pub slots : length q.queue ≡ n
  pub push_word : q.push_index < 2 ^ 32
  pub pop_word : q.pop_index < 2 ^ 32
  pub held : count q ≤ n

-- the slots that the next push and the next pop touch
abbrev pub push_at : {A : Type 0} → ℕ → Queue A → ℕ
push_at n q = bit_and q.push_index (sub32 n 1)

abbrev pub pop_at : {A : Type 0} → ℕ → Queue A → ℕ
pop_at n q = bit_and q.pop_index (sub32 n 1)

-- The queued values, oldest first; `d` would stand for a slot that is not there.
unfoldable pub contents : {A : Type 0} → A → ℕ → Queue A → List A
contents d n q = tabulate (count q) (λ i. get_or q.queue (wrap n (pop_at n q + i)) d)

module _ {A : Type 0} (d : A) {n : ℕ} {q : Queue A} (v : IsValid n q) where
  pub size_bounds : (0 < n) × (n ≤ 2 ^ 30)
  size_bounds = Circular.size_bounds v.exponent n v.power v.small

  pub pop_at-eq : pop_at n q ≡ q.pop_index % n
  pop_at-eq = mask v.exponent n v.power v.small q.pop_index

  pub pop_at-lt : pop_at n q < n
  pop_at-lt = rw pop_at-eq (mod-lt q.pop_index size_bounds.0)

  pub push_at-wrap : push_at n q ≡ wrap n (pop_at n q + count q)
  push_at-wrap =
      let e : q.push_index ≡ add32 q.pop_index (count q) = omega (arith, v.push_word, v.pop_word) in
      mask v.exponent n v.power v.small q.push_index
      ∙ ap (λ p. p % n) e
      ∙ advance v.exponent n v.power v.small q.pop_index (count q) v.held
      ∙ ap (λ p. wrap n (p + count q)) (sym pop_at-eq)

  pub push_at-lt : push_at n q < n
  push_at-lt = ground (arith, push_at-wrap, pop_at-lt, v.held)

  pub length-contents : length (contents d n q) ≡ count q
  unfolding contents
  length-contents = length-tabulate (count q) _

  pub get_or-contents :
      (i : ℕ)
      → i < count q
      → get_or (contents d n q) i d ≡ get_or q.queue (wrap n (pop_at n q + i)) d
  unfolding contents
  get_or-contents i h = get_or-tabulate (count q) _ i d h

  pub contents-nil : count q ≡ 0 → contents d n q ≡ []
  unfolding contents
  contents-nil e = ap (λ k. tabulate k (λ i. get_or q.queue (wrap n (pop_at n q + i)) d)) e
