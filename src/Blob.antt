-- ===== src/Blob.antt =====
-- `SQBlob` (Squirrel3/sqstdlib/sqstdblobimpl.h): a stream of bytes in memory, and the methods of
-- sqstdblob.cpp that read and write one byte of it.
-- The sizes that the methods are given are not negative; `write` takes a block of its own, which
-- no call moves.
pub mod Memory
pub mod Laws
pub mod Access
pub mod Tests
use squirrel_gobject.Prelude.{
  ℕ, ◌+◌, ◌-◌, ◌*◌, ◌%◌, ◌≤◌, ◌≡◌, ◌==◌, ltb, leb, if◌then◌else◌, Bool, true, false, ◌||◌, not,
  List, [], ◌++◌, length, take, drop, replicate, get_or, set,
}
use squirrel_gobject.Prelude.Int.{ℤ, pos, negsuc, is_neg, nonneg, offset}

pub record Blob : Type 0 where
  pub size : ℕ
  pub allocated : ℕ
  pub ptr : ℕ
  pub buf : List ℕ
  pub owns : Bool

pub data Origin : Type 0 where
  seek_cur : Origin
  seek_end : Origin
  seek_set : Origin

-- What `_set` and `_get` answer.
pub data Answer : Type 0 where
  number : ℤ → Answer
  index_out_of_range : Answer

-- `memcpy(&cells[dst], src, n)` of the `n` bytes `src`
unfoldable pub memcpy : ℕ → List ℕ → List ℕ → List ℕ
memcpy dst src cells = take dst cells ++ (src ++ drop (dst + length src) cells)

-- the stream's bytes
abbrev pub contents : Blob → List ℕ
contents b = take b.size b.buf

unfoldable pub create : ℕ → Blob
create n = record { size = n; allocated = n; ptr = 0; buf = replicate n 0; owns = true }

unfoldable pub can_advance : ℕ → Blob → Bool
can_advance n b = not (ltb b.size (b.ptr + n))

unfoldable pub resize : ℕ → Blob → Blob × Bool
unfolding memcpy
resize n b = if not b.owns then (b, false) else if n == b.allocated then (b, true) else (
  record b {
    buf = memcpy 0 (take (if ltb n b.size then n else b.size) b.buf) (replicate n 0);
    allocated = n;
    size = if ltb n b.size then n else b.size;
    ptr = if ltb n b.ptr then n else b.ptr;
  },
  true,
)

unfoldable pub grow_buf_of : ℕ → Blob → Blob × Bool
unfolding resize
grow_buf_of n b =
    let (r, ok) =
      if ltb b.allocated (b.size + n)
      then if ltb (b.size * 2) (b.size + n) then resize (b.size + n) b else resize (b.size * 2) b
      else (b, true) in
    (record r { size = r.size + n }, ok)

-- the number of bytes written is the length of the block
unfoldable pub write : List ℕ → Blob → Blob × ℕ
unfolding can_advance grow_buf_of memcpy
write block b =
    let n = length block in
    let roomy = if can_advance n b then b else (grow_buf_of (b.ptr + n - b.size) b).0 in
    (record roomy { buf = memcpy roomy.ptr block roomy.buf; ptr = roomy.ptr + n }, n)

-- the bytes that `Read` copies to the caller's buffer; their number is its answer
unfoldable pub read : ℕ → Blob → Blob × List ℕ
unfolding can_advance
read wanted b =
    if can_advance wanted b
    then (record b { ptr = b.ptr + wanted }, take wanted (drop b.ptr b.buf))
    else if ltb b.ptr b.size
    then (record b { ptr = b.ptr + (b.size - b.ptr) }, take (b.size - b.ptr) (drop b.ptr b.buf))
    else (b, [])

-- `target > _size || target < 0`
abbrev pub outside : ℤ → Blob → Bool
outside target b = is_neg target || ltb b.size (nonneg target)

-- where the three origins count from
abbrev pub base : Origin → Blob → ℕ
base seek_cur b = b.ptr
base seek_end b = b.size
base seek_set b = 0

unfoldable pub seek : ℤ → Origin → Blob → Blob × ℤ
seek off origin b =
    let target = offset (base origin b) off in
    if outside target b then (b, negsuc 0) else (record b { ptr = nonneg target }, pos 0)

unfoldable pub eos : Blob → Bool
eos b = b.ptr == b.size

-- `(unsigned char) val`
unfoldable pub low_byte : ℤ → ℕ
low_byte (pos n) = n % 256
low_byte (negsuc n) = 255 - n % 256

-- `_blob__set` with integers for arguments: the answer is the value as it was given.
unfoldable pub blob_set : ℤ → ℤ → Blob → Blob × Answer
unfolding low_byte
blob_set idx val b =
    if is_neg idx || leb b.size (nonneg idx)
    then (b, index_out_of_range)
    else (record b { buf = set b.buf (nonneg idx) (low_byte val) }, number val)

unfoldable pub blob_get : ℤ → Blob → Answer
blob_get idx b =
    if is_neg idx || leb b.size (nonneg idx)
    then index_out_of_range
    else number (pos (get_or b.buf (nonneg idx) 0))

-- The buffer is as long as the blob believes, and the position is inside the stream.
pub record IsValid (b : Blob) : Type 0 where
  pub block : length b.buf ≡ b.allocated
  pub fits : b.size ≤ b.allocated
  pub position : b.ptr ≤ b.size
  pub owned : b.owns ≡ true
