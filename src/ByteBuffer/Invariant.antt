-- ===== src/ByteBuffer/Invariant.antt =====
-- The indices of src/tools/ByteBuffer.cpp stay in order and inside the memory, and the unread bytes
-- are a queue: what is appended comes behind them, and what is read is taken from their front.
use libbundle.Prelude.{
  ℕ, ◌+◌, ◌-◌, ◌≤◌, ◌<◌, ◌≡◌, ◌++◌, Bytes, arith, ltb, take, drop, length, replicate, length-append,
  length-take, length-drop, length-replicate, take-append_le, drop-append_le, take-take, drop-take,
  Bool-cases, inl, inr,
}
use libbundle.ByteBuffer.{
  ByteBuffer, size_max, buffer_chunk_size, realloc, blank, grown, reserve, slice,
}

pub record IsValid (b : ByteBuffer) : Type 0 where
  pub ordered : b.rindex ≤ b.windex
  pub within : b.windex ≤ b.capacity
  pub allocated : length b.buf ≡ b.capacity
  pub addressable : b.capacity < size_max

-- The bytes that are written and not yet read.
abbrev pub contents : ByteBuffer → Bytes
contents b = take (b.windex - b.rindex) (drop b.rindex b.buf)

-- The request fits into `size_t` together with what is allocated.
abbrev pub Fits : ByteBuffer → ℕ → Type 0
Fits b n = n + buffer_chunk_size + b.capacity < size_max

length-realloc : (m : Bytes) (n : ℕ) → length (realloc m n) ≡ n
unfolding realloc
length-realloc m n = omega (
  arith,
  length-take n (m ++ replicate n 0),
  length-append m (replicate n 0),
  length-replicate {A = ℕ} n 0,
)

-- Growing keeps every slice of the old memory.
slice-realloc :
    (m : Bytes) (i n k : ℕ)
    → i + n ≤ length m
    → length m ≤ k
    → slice (realloc m k) i n ≡ slice m i n
unfolding slice realloc
slice-realloc m i n k h g =
    rw
      (
        drop-take i k (m ++ replicate k 0) (omega arith),
        take-take n (k - i) (drop i (m ++ replicate k 0)) (omega arith),
        drop-append_le i m (replicate k 0) (omega arith),
      )
      (take-append_le n (drop i m) (replicate k 0) (omega (arith, length-drop i m)))

pub reserve-IsValid : (b : ByteBuffer) (n : ℕ) → IsValid b → Fits b n → IsValid (reserve b n)
unfolding reserve blank grown
reserve-IsValid b n v f = ground (arith, length-realloc b.buf (grown b n))

-- After `reserve` there is room for the request, and nothing that was written has moved.
pub reserve_room :
    (b : ByteBuffer) (n : ℕ)
    → IsValid b
    → Fits b n
    → ((reserve b n).windex + n ≤ (reserve b n).capacity)
      × ((reserve b n).windex ≡ b.windex)
      × ((reserve b n).rindex ≡ b.rindex)
unfolding reserve blank grown
reserve_room b n v f = ground arith

pub contents-reserve :
    (b : ByteBuffer) (n : ℕ) → IsValid b → Fits b n → contents (reserve b n) ≡ contents b
unfolding reserve blank grown slice
contents-reserve b n v f = elim (Bool-cases (ltb n (blank b))) [
  | inl e ↦ rw e
  | inr e ↦ rw e (
      slice-realloc b.buf b.rindex (b.windex - b.rindex) (grown b n)
        (omega (arith, v.ordered, v.within)) (ground arith))
]
