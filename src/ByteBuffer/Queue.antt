-- ===== src/ByteBuffer/Queue.antt =====
-- src/tools/ByteBuffer.cpp as a queue of bytes: `append` puts bytes behind the unread ones, `read`
-- takes them from the front.
use libbundle.Prelude.{
  ℕ, ◌+◌, ◌-◌, ◌≤◌, ◌<◌, ◌≡◌, ◌∙◌, sym, ap, ◌++◌, Bytes, arith, some, none, leb, ◌==◌,
  if◌then◌else◌, take, drop, length, length-append, length-take, length-drop, take-append_le,
  drop-append_le, take-append_add, take-take, drop-take, drop-drop, take_all, drop_all, ◌>>=◌,
  Bool-cases, inl, inr,
}
use libbundle.ByteBuffer.{
  ByteBuffer, size_max, buffer_chunk_size, blank, grown, reserve, slice, store, load, append, fill,
  read, wlength, rlength, size, shrink, reset,
}
use libbundle.ByteBuffer.Invariant.{
  IsValid, contents, Fits, reserve-IsValid, reserve_room, contents-reserve,
}

-- A block of memory with s copied to position i.
abbrev overwrite : Bytes → ℕ → Bytes → Bytes
overwrite m i s = take i m ++ (s ++ drop (i + length s) m)

length-overwrite :
    (m : Bytes) (i : ℕ) (s : Bytes) → i + length s ≤ length m → length (overwrite m i s) ≡ length m
length-overwrite m i s h = omega (
  arith,
  length-append (take i m) (s ++ drop (i + length s) m),
  length-append s (drop (i + length s) m),
  length-take i m,
  length-drop (i + length s) m,
)

slice-overwrite :
    (m : Bytes) (r w : ℕ) (s : Bytes)
    → r ≤ w
    → w + length s ≤ length m
    → take (w + length s - r) (drop r (overwrite m w s)) ≡ take (w - r) (drop r m) ++ s
slice-overwrite m r w s h k = rw (
  drop-append_le r (take w m) (s ++ drop (w + length s) m) (omega (arith, length-take w m)),
  drop-take r w m h,
  take-append_add (take (w - r) (drop r m)) (s ++ drop (w + length s) m) (length s)
      (w + length s - r) (omega (arith, length-take (w - r) (drop r m), length-drop r m)),
  take-append_le (length s) s (drop (w + length s) m) (omega arith),
  take_all (length s) s (omega arith),
)

-- The buffer that `append` leaves.
abbrev appended : ByteBuffer → Bytes → ByteBuffer
appended b s = record b { buf = overwrite b.buf b.windex s; windex = b.windex + length s }

-- Writing into room that is there.
write_room :
    (b : ByteBuffer) (s : Bytes)
    → IsValid b
    → b.windex + length s ≤ b.capacity
    → (do m ← store b.buf b.windex s; wlength (record b { buf = m }) (length s))
      ≡ some (appended b s)
unfolding store wlength
write_room b s v room = ground arith

appended-IsValid :
    (b : ByteBuffer) (s : Bytes)
    → IsValid b
    → b.windex + length s ≤ b.capacity
    → IsValid (appended b s)
appended-IsValid b s v room = record {
  ordered = omega (arith, v.ordered);
  within = room;
  allocated = length-overwrite b.buf b.windex s (omega (arith, v.allocated)) ∙ v.allocated;
  addressable = v.addressable;
}

contents-appended :
    (b : ByteBuffer) (s : Bytes)
    → IsValid b
    → b.windex + length s ≤ b.capacity
    → contents (appended b s) ≡ contents b ++ s
contents-appended b s v room =
    slice-overwrite b.buf b.rindex b.windex s v.ordered (omega (arith, v.allocated))

-- Writing no more than what was asked for never fails on a valid buffer whose size stays below
-- 2 ^ 64: the result is valid, and its unread bytes are the old ones followed by the new ones.
pub fill_lem :
    (b : ByteBuffer) (room : ℕ) (s : Bytes)
    → IsValid b
    → Fits b room
    → length s ≤ room
    → (b' : ByteBuffer) × (fill b room s ≡ some b') × IsValid b' × (contents b' ≡ contents b ++ s)
unfolding fill
fill_lem b room s v f small =
    let b' = reserve b room in
    let v' = reserve-IsValid b room v f in
    let fits : b'.windex + length s ≤ b'.capacity = omega (arith, (reserve_room b room v f).0) in
    (
      appended b' s,
      write_room b' s v' fits,
      appended-IsValid b' s v' fits,
      contents-appended b' s v' fits ∙ ap (λ c. c ++ s) (contents-reserve b room v f),
    )

-- `append` never fails on a valid buffer whose size stays below 2 ^ 64: the result is valid and its
-- unread bytes are the old ones followed by the bytes that are appended.
pub append_lem :
    (b : ByteBuffer) (s : Bytes)
    → IsValid b
    → Fits b (length s)
    → (b' : ByteBuffer) × (append b s ≡ some b') × IsValid b' × (contents b' ≡ contents b ++ s)
unfolding append
append_lem b s v f = fill_lem b (length s) s v f (omega arith)

pub capacity-fill :
    (b b' : ByteBuffer) (room : ℕ) (s : Bytes)
    → fill b room s ≡ some b'
    → Fits b room
    → b'.capacity ≤ b.capacity + room + buffer_chunk_size
unfolding fill reserve grown blank store wlength
capacity-fill b b' room s e f = ground arith

pub capacity-append :
    (b b' : ByteBuffer) (s : Bytes)
    → append b s ≡ some b'
    → Fits b (length s)
    → b'.capacity ≤ b.capacity + length s + buffer_chunk_size
unfolding append
capacity-append b b' s e f = capacity-fill b b' (length s) s e f

-- The buffer that `read` leaves.
abbrev advanced : ByteBuffer → ℕ → ByteBuffer
advanced b n =
    if b.rindex + n == b.windex
    then record b { rindex = 0; windex = 0 }
    else record b { rindex = b.rindex + n }

-- `rlength` refuses to pass the write index, and starts over where it reaches it.
pub rlength_lem :
    (b : ByteBuffer) (n : ℕ)
    → IsValid b
    → b.rindex + n < size_max
    → rlength b n ≡ (if leb (b.rindex + n) b.windex then some (advanced b n) else none)
unfolding rlength shrink size reset
rlength_lem b n v h = ground arith

advanced-IsValid :
    (b : ByteBuffer) (n : ℕ) → IsValid b → b.rindex + n ≤ b.windex → IsValid (advanced b n)
advanced-IsValid b n v h = ground arith

contents-advanced :
    (b : ByteBuffer) (n : ℕ)
    → IsValid b
    → b.rindex + n ≤ b.windex
    → contents (advanced b n) ≡ drop n (contents b)
contents-advanced b n v h = elim (Bool-cases (b.rindex + n == b.windex)) [
  | inl e ↦ rw e (
      sym (
        drop_all n (contents b)
          (ground (arith, length-take (b.windex - b.rindex) (drop b.rindex b.buf)))))
  | inr e ↦
      rw
        (
          e,
          drop-take n (b.windex - b.rindex) (drop b.rindex b.buf) (omega arith),
          drop-drop n b.rindex b.buf,
        )
        (ap (λ k. take k (drop (b.rindex + n) b.buf)) (omega arith))
]

-- `read` of no more than is there returns the first n unread bytes and leaves the others.
pub read_lem :
    (b : ByteBuffer) (n : ℕ)
    → IsValid b
    → n ≤ length (contents b)
    → (b' : ByteBuffer) × (read b n ≡ some (take n (contents b), b'))
      × IsValid b'
      × (contents b' ≡ drop n (contents b))
unfolding read load slice
read_lem b n v h =
    let fits : b.rindex + n ≤ b.windex =
      omega (arith, v.ordered, length-take (b.windex - b.rindex) (drop b.rindex b.buf)) in
    (
      advanced b n,
      ground (arith, take-take n (b.windex - b.rindex) (drop b.rindex b.buf)),
      advanced-IsValid b n v fits,
      contents-advanced b n v fits,
    )

-- Reading more than is there stops the program, at the latest by the assertion of `rlength`.
pub read_underflow :
    (b : ByteBuffer) (n : ℕ)
    → IsValid b
    → length (contents b) < n
    → b.rindex + n < size_max
    → read b n ≡ none
unfolding read load
read_underflow b n v h f =
    let short : b.windex < b.rindex + n = omega (
      arith,
      v.ordered,
      v.within,
      v.allocated,
      length-take (b.windex - b.rindex) (drop b.rindex b.buf),
      length-drop b.rindex b.buf,
    ) in
    ground arith

pub length-contents : (b : ByteBuffer) → IsValid b → length (contents b) ≡ b.windex - b.rindex
length-contents b v = omega (
  arith,
  v.ordered,
  v.within,
  v.allocated,
  length-take (b.windex - b.rindex) (drop b.rindex b.buf),
  length-drop b.rindex b.buf,
)

pub size_lem : (b : ByteBuffer) → IsValid b → size b ≡ some (length (contents b))
unfolding size
size_lem b v = rw (length-contents b v) (ground arith)

capacity-advanced : (b : ByteBuffer) (n : ℕ) → (advanced b n).capacity ≡ b.capacity
capacity-advanced b n = ground arith

-- Counting n unread bytes as read drops them, and leaves the memory as large as it was.
pub rlength_drops :
    (b : ByteBuffer) (n : ℕ)
    → IsValid b
    → n ≤ length (contents b)
    → (b' : ByteBuffer) × (rlength b n ≡ some b')
      × IsValid b'
      × (contents b' ≡ drop n (contents b))
      × (b'.capacity ≡ b.capacity)
rlength_drops b n v h =
    let fits : b.rindex + n ≤ b.windex = omega (arith, v.ordered, length-contents b v) in
    (
      advanced b n,
      rlength_lem b n v (omega (arith, v.within, v.addressable)) ∙ ground arith,
      advanced-IsValid b n v fits,
      contents-advanced b n v fits,
      capacity-advanced b n,
    )
