-- ===== src/Ring/Window.antt =====
-- The bytes that stand round a circular storage, from one offset on. This is what the two copies
-- of src/ring_buffer.cpp read and write.
use leo_net.Base.{ℕ, ◌+◌, ◌-◌, ◌≤◌, ◌<◌, ◌≡◌, List, ◌++◌, arith}
use leo_net.Base.Circular.{wrap, wrap-wrap}
use leo_net.Base.Lists.{length, get_or, take, drop, tabulate, length-tabulate, get_or-tabulate}
use leo_net.Base.Lists.{get_or_ext, length-append, length-take, length-drop}
use leo_net.Base.Lists.{get_or-append, get_or-take, get_or-drop}

unfoldable pub window : List ℕ → ℕ → ℕ → ℕ → List ℕ
window memory size at n = tabulate n (λ i. get_or memory (wrap size (at + i)) 0)

pub length-window : (memory : List ℕ) (size at n : ℕ) → length (window memory size at n) ≡ n
unfolding window
length-window memory size at n = length-tabulate n _

pub get_or-window :
    (memory : List ℕ) (size at n i : ℕ)
    → i < n
    → get_or (window memory size at n) i 0 ≡ get_or memory (wrap size (at + i)) 0
unfolding window
get_or-window memory size at n i h =
    get_or-tabulate n (λ i. get_or memory (wrap size (at + i)) 0) i 0 h

-- A list is a window when it has its length and its bytes.
pub window_ext :
    (memory : List ℕ) (size at n : ℕ) (xs : List ℕ)
    → length xs ≡ n
    → ((i : ℕ) → i < n → get_or xs i 0 ≡ get_or memory (wrap size (at + i)) 0)
    → xs ≡ window memory size at n
window_ext memory size at n xs e h =
    get_or_ext 0 xs (window memory size at n) (omega (arith, length-window memory size at n))
      (λ i p. cc (h i (omega arith), get_or-window memory size at n i (omega arith)))

-- The first bytes of a window.
pub take-window :
    (memory : List ℕ) (size at n k : ℕ)
    → k ≤ n
    → take k (window memory size at n) ≡ window memory size at k
take-window memory size at n k h =
    window_ext memory size at k (take k (window memory size at n))
      (omega (arith, length-take k (window memory size at n), length-window memory size at n))
      (λ i p.
        ground
          (arith, get_or-take k (window memory size at n) i 0, get_or-window memory size at n i))

-- The window that is left when the first bytes are gone.
pub drop-window :
    (memory : List ℕ) (size at n k : ℕ)
    → at < size
    → k ≤ n
    → n ≤ size
    → drop k (window memory size at n) ≡ window memory size (wrap size (at + k)) (n - k)
drop-window memory size at n k o h s =
    window_ext memory size (wrap size (at + k)) (n - k) (drop k (window memory size at n))
      (omega (arith, length-drop k (window memory size at n), length-window memory size at n))
      λ i p. ground (
        arith,
        get_or-drop k (window memory size at n) i (k + i) 0,
        get_or-window memory size at n (k + i),
        wrap-wrap size at k i,
      )

-- A window of one stretch, and one that goes round the end.
pub append-window :
    (memory : List ℕ) (size at n k : ℕ) (xs : List ℕ)
    → length xs ≡ k
    → ((i : ℕ) → i < k → get_or xs i 0 ≡ get_or memory (wrap size (at + (n + i))) 0)
    → window memory size at n ++ xs ≡ window memory size at (n + k)
append-window memory size at n k xs e h =
    window_ext memory size at (n + k) (window memory size at n ++ xs)
      (omega (arith, length-append (window memory size at n) xs, length-window memory size at n))
      λ i p. ground (
        arith,
        get_or-append (window memory size at n) xs i 0,
        length-window memory size at n,
        get_or-window memory size at n i,
        h (i - n),
      )
