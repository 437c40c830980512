-- ===== src/ByteBuffer/Tests.antt =====
-- src/tools/ByteBuffer.cpp at concrete inputs.
use libbundle.Prelude.{ℕ, ◌≡◌, refl, List, some, none, [], ◌∷◌, arith, map, ◌>>=◌}
use libbundle.ByteBuffer.{ByteBuffer, append, read}
use libbundle.ByteBuffer.Invariant.{IsValid, contents}
use libbundle.ByteBuffer.Queue.{append_lem, read_lem, read_underflow}
use libbundle.ByteBuffer.Refine.{Op, put, get, run, run_queue, seen, run-run_queue, cost}
use libbundle.ByteBuffer.Values.{write_all, read_all, second, read_all-write_all}

-- Three bytes of memory, of which the second is unread.
abbrev small : ByteBuffer
small = record { buf = 7 ∷ 8 ∷ 9 ∷ []; capacity = 3; rindex = 1; windex = 2 }

abbrev drained : ByteBuffer
drained = record { buf = 7 ∷ 8 ∷ 9 ∷ []; capacity = 3; rindex = 0; windex = 0 }

small-IsValid : IsValid small
small-IsValid = omega arith

drained-IsValid : IsValid drained
drained-IsValid = omega arith

abbrev script : List Op
script = put (1 ∷ 2 ∷ []) ∷ get 2 ∷ get 2 ∷ []

run-run_queue_example : seen (run small script) ≡ run_queue (8 ∷ []) script
run-run_queue_example = run-run_queue script small small-IsValid (unfold cost in omega arith)

append_lem_test :
    (b' : ByteBuffer) × (append small (4 ∷ 5 ∷ []) ≡ some b')
    × IsValid b'
    × (contents b' ≡ 8 ∷ 4 ∷ 5 ∷ [])
append_lem_test = append_lem small (4 ∷ 5 ∷ []) small-IsValid (omega arith)

read_lem_example :
    (b' : ByteBuffer) × (read small 1 ≡ some (8 ∷ [], b')) × IsValid b' × (contents b' ≡ [])
read_lem_example = read_lem small 1 small-IsValid (omega arith)

read_past_end : read small 2 ≡ none
read_past_end = read_underflow small 2 small-IsValid (omega arith) (omega arith)

-- A `u8` and a `u32`.
abbrev values : List (ℕ × ℕ)
values = (1, 200) ∷ (4, 70000) ∷ []

read_all-write_all_example :
    (b' : ByteBuffer) × ((do w ← write_all drained values; read_all w values)
      ≡ some (map second values, b'))
    × (contents b' ≡ [])
read_all-write_all_example =
    read_all-write_all values drained drained-IsValid refl (omega arith) (omega arith)
