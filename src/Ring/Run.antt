-- ===== src/Ring/Run.antt =====
-- Any sequence of calls on a `ring_buffer` against a bounded queue of bytes.
pub mod Refine
use leo_net.Base.{
  ℕ, ◌-◌, ◌≤◌, ◌≡◌, refl, some, Option, Bool, true, false, List, [], ◌∷◌, ◌++◌, min, arith,
}
use leo_net.Base.{ltb, if◌then◌else◌, ◌>>=◌}
use leo_net.Base.Lists.{length, take, drop, replicate}
use leo_net.Ring.{RingBuffer, clear, peek_read, seek_read, kfifo_get, kfifo_put}
use leo_net.Ring.Valid.{IsValid, contents}

-- One call: a `kfifo_put` of a whole buffer, a `kfifo_get` and a `peek_read` into a buffer of the
-- size asked for, a `seek_read`, a `clear`.
pub data Op : Type 0 where
  put : List ℕ → Op
  get : ℕ → Op
  peek : ℕ → Op
  skip : ℕ → Op
  reset : Op

-- What the caller sees: a count, bytes, or whether the counter moved.
pub data Reply : Type 0 where
  count : ℕ → Reply
  bytes : List ℕ → Reply
  moved : Bool → Reply
  done : Reply

pub call : RingBuffer → Op → Option (Reply × RingBuffer)
call r (put bs) = do t ← kfifo_put r bs (length bs); some (count t.result, t.ring)
call r (get n) = do t ← kfifo_get r (replicate n 0) n; some (bytes (take t.result t.buffer), t.ring)
call r (peek n) = do
  t ← peek_read r (replicate n 0) n
  some (bytes (take t.result t.buffer), t.ring)
call r (skip n) = let (ok, r') = seek_read r n in some (moved ok, r')
call r reset = some (done, clear r)

pub run : RingBuffer → List Op → Option (List Reply × RingBuffer)
run r [] = some ([], r)
run r (op ∷ ops) = do
  (reply, r') ← call r op
  (replies, r'') ← run r' ops
  some (reply ∷ replies, r'')

-- The queue: `put` takes what fits, `get` gives what there is, `peek` and `skip` all or nothing.
pub serve : ℕ → List ℕ → Op → Reply × List ℕ
serve cap q (put bs) = let n = min (length bs) (cap - length q) in (count n, q ++ take n bs)
serve cap q (get n) = (bytes (take n q), drop n q)
serve cap q (peek n) = (bytes (if ltb (length q) n then [] else take n q), q)
serve cap q (skip n) = if ltb (length q) n then (moved false, q) else (moved true, drop n q)
serve cap q reset = (done, [])

pub serve_all : ℕ → List ℕ → List Op → List Reply × List ℕ
serve_all cap q [] = ([], q)
serve_all cap q (op ∷ ops) =
    let (reply, q') = serve cap q op in
    let (replies, q'') = serve_all cap q' ops in (reply ∷ replies, q'')
