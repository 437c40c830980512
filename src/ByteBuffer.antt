-- ===== src/ByteBuffer.antt =====
-- src/tools/ByteBuffer.cpp and deps/bundle-0.01/include/tools/ByteBuffer.h: a growing byte array with
-- a read index and a write index. `buf` is the allocated memory; `size_t` wraps at 2 ^ 64. An
-- operation returns `none` where an `assert` of the source stops the program. `realloc` is taken to
-- succeed, as the source takes it.
pub mod Invariant
pub mod Queue
pub mod Refine
pub mod Values
mod Tests
use libbundle.Prelude.{
  ℕ, zero, suc, ◌+◌, ◌-◌, ◌*◌, ◌/◌, ◌%◌, ◌^◌, Bool, true, false, Option, none, some, [], ◌∷◌, ◌++◌,
  Bytes, ltb, leb, ◌==◌, if◌then◌else◌, take, drop, replicate, length, ◌>>=◌, ◌>>◌, assert,
}

abbrev pub size_max : ℕ
size_max = 2 ^ 64

abbrev pub buffer_chunk_size : ℕ
buffer_chunk_size = 0x200

pub record ByteBuffer : Type 0 where
  pub buf : Bytes
  pub capacity : ℕ
  pub rindex : ℕ
  pub windex : ℕ

-- The members' initial values.
abbrev pub unallocated : ByteBuffer
unallocated = record { buf = []; capacity = 0; rindex = 0; windex = 0 }

-- `realloc`: the contents stay up to the smaller size. Zeros stand for the bytes that are new.
unfoldable pub realloc : Bytes → ℕ → Bytes
realloc m n = take n (m ++ replicate n 0)

unfoldable pub blank : ByteBuffer → ℕ
blank b = if leb b.capacity b.windex then 0 else b.capacity - b.windex

-- The size that `reserve` asks `realloc` for.
unfoldable pub grown : ByteBuffer → ℕ → ℕ
grown b newsize =
    ((if ltb newsize buffer_chunk_size then buffer_chunk_size else newsize) + b.capacity) % size_max

unfoldable pub reserve : ByteBuffer → ℕ → ByteBuffer
unfolding blank grown realloc
reserve b newsize =
    if ltb newsize (blank b)
    then b
    else record b { buf = realloc b.buf (grown b newsize); capacity = grown b newsize }

unfoldable pub construct : ℕ → ByteBuffer
unfolding reserve
construct size = reserve unallocated size

unfoldable pub clear : ByteBuffer → ByteBuffer
clear b = record { buf = []; capacity = 0; rindex = 0; windex = 0 }

unfoldable pub reset : ByteBuffer → ByteBuffer
reset b = record b { rindex = 0; windex = 0 }

unfoldable pub size : ByteBuffer → Option ℕ
size b = do assert (leb b.rindex b.windex); some (b.windex - b.rindex)

unfoldable pub shrink : ByteBuffer → Option ByteBuffer
unfolding size reset
shrink b = do n ← size b; some (if n == 0 then reset b else b)

unfoldable pub rlength : ByteBuffer → ℕ → Option ByteBuffer
unfolding shrink
rlength b len = do
  let b' = record b { rindex = (b.rindex + len) % size_max }
  assert (leb b'.rindex b'.windex)
  shrink b'

unfoldable pub wlength : ByteBuffer → ℕ → Option ByteBuffer
wlength b len = do
  let b' = record b { windex = (b.windex + len) % size_max }
  assert (leb b'.windex b'.capacity)
  some b'

-- The n bytes of a block of memory from position i on.
unfoldable pub slice : Bytes → ℕ → ℕ → Bytes
slice m i n = take n (drop i m)

-- `memcpy` of s to position i; a copy that would leave the block is undefined.
unfoldable pub store : Bytes → ℕ → Bytes → Option Bytes
store m i s = do
  assert (leb (i + length s) (length m))
  some (take i m ++ (s ++ drop (i + length s) m))

-- `memcpy` of n bytes from position i.
unfoldable pub load : Bytes → ℕ → ℕ → Option Bytes
unfolding slice
load m i n = do assert (leb (i + n) (length m)); some (slice m i n)

-- `wbuffer(room)`, a write of s to that address, and `wlength` of the bytes written.
unfoldable pub fill : ByteBuffer → ℕ → Bytes → Option ByteBuffer
unfolding reserve store wlength
fill b room s = do
  let b' = reserve b room
  m ← store b'.buf b'.windex s
  wlength (record b' { buf = m }) (length s)

-- `memcpy(wbuffer(len), s, len); wlength(len)`.
unfoldable pub append : ByteBuffer → Bytes → Option ByteBuffer
unfolding fill
append b s = fill b (length s) s

-- `memcpy(out, rbuffer(), len); rlength(len)`.
unfoldable pub read : ByteBuffer → ℕ → Option (Bytes × ByteBuffer)
unfolding load rlength
read b len = do s ← load b.buf b.rindex len; b' ← rlength b len; some (s, b')

-- The object representation of an unsigned integer of w bytes, low byte first.
unfoldable pub to_le : ℕ → ℕ → Bytes
to_le zero v = []
to_le (suc w) v = (v % 256) ∷ to_le w (v / 256)

unfoldable pub of_le : Bytes → ℕ
of_le [] = 0
of_le (c ∷ s) = c + 256 * of_le s

-- `append<T>(value)`, behind `operator <<` of the arithmetic types, where w is `sizeof(T)`; a signed
-- or floating value is given by its bit pattern.
unfoldable pub append_value : ℕ → ByteBuffer → ℕ → Option ByteBuffer
unfolding append to_le
append_value w b v = append b (to_le w v)

-- `read<T>()`, behind `operator >>`: the bytes are read first, and `rlength` follows.
unfoldable pub read_value : ℕ → ByteBuffer → Option (ℕ × ByteBuffer)
unfolding read of_le
read_value w b = do (s, b') ← read b w; some (of_le s, b')

-- `operator << (const char*)`: a null pointer is left out.
unfoldable pub append_text : ByteBuffer → Option Bytes → Option ByteBuffer
unfolding append
append_text b none = some b
append_text b (some s) = append b s

-- `CopyFrom`, for a message of `ByteSize()` n; `written` is what `SerializeToArray` puts into the n
-- bytes at `wbuffer(n)`, or `none` where it reports failure, and then nothing is counted as written.
unfoldable pub copy_from : ByteBuffer → ℕ → Option Bytes → Option (Bool × ByteBuffer)
unfolding fill
copy_from b n none = some (false, reserve b n)
copy_from b n (some written) = do b' ← fill b n written; some (true, b')

-- `CopyTo`: the parser, `ParseFromArray`, is handed the unread bytes, which stay in the buffer.
unfoldable pub copy_to : (Bytes → Bool) → ByteBuffer → Option Bool
unfolding size load
copy_to parse b = do n ← size b; s ← load b.buf b.rindex n; some (parse s)
