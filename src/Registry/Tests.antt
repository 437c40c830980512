-- ===== src/Registry/Tests.antt =====
-- src/tools/Registry.cpp at concrete inputs.
use libbundle.Prelude.{List, ◌≡◌, refl, true, false, some, [], ◌∷◌, codes, arith}
use libbundle.Tables.{bytes_key, value_at, contains_key, emplace, without, bytes_eq}
use libbundle.Clib.{pos, negsuc, w8, w32, strtoul, sign_and_digits, digits}
use libbundle.Registry.{
  Registry, set_value, set_unsigned, set_signed, get_value, get_bool, get_unsigned, get_signed,
  find_key, remove_key, same_letters,
}
use libbundle.Registry.Values.{get_unsigned-set_unsigned, get_signed-set_signed}
use libbundle.Registry.Refine.{
  Command, call_set, call_get, call_remove, run, perform, specified, lookups, run-specified, text,
  said, nothing,
}

abbrev one_port : Registry
one_port = (codes "port", codes "80") ∷ []

unknown_key : find_key (codes "limit") one_port ≡ false
unfolding find_key contains_key value_at bytes_eq
unknown_key = refl

limit_back :
    ((set_unsigned (codes "limit") 4000000000 one_port).0 ≡ true)
    × (get_unsigned w32 (codes "limit") 7 (set_unsigned (codes "limit") 4000000000 one_port).1
        ≡ 4000000000)
limit_back =
    get_unsigned-set_unsigned w32 (codes "limit") 4000000000 7 one_port unknown_key (omega arith)

get_signed-set_signed_test :
    ((set_signed (codes "limit") (negsuc 127) one_port).0 ≡ true)
    × (get_signed w8 (codes "limit") (pos 7) (set_signed (codes "limit") (negsuc 127) one_port).1
        ≡ negsuc 127)
get_signed-set_signed_test =
    get_signed-set_signed w8 (codes "limit") (negsuc 127) (pos 7) one_port unknown_key (omega arith)

abbrev calls : List Command
calls =
    call_set (codes "port") (codes "81") ∷ call_get (codes "port") ∷ call_remove (codes "port") ∷ []

run-specified_example :
    (run specified calls (lookups one_port)).0 ≡ (run perform calls one_port).0
    × (run specified calls (lookups one_port)).1 ≡ lookups (run perform calls one_port).1
run-specified_example = run-specified calls one_port

-- The key keeps its old value.
first_answers :
    (run perform calls one_port).0 ≡ said false ∷ text (some (codes "80")) ∷ nothing ∷ []
unfolding set_value get_value find_key remove_key emplace contains_key value_at without bytes_eq
first_answers = refl

read_port : get_unsigned w8 (codes "port") 0 one_port ≡ 80
unfolding get_unsigned get_value value_at bytes_eq strtoul sign_and_digits digits
read_port = refl

read_flag : get_bool (codes "on") false ((codes "on", codes "TrUe") ∷ []) ≡ true
unfolding get_bool get_value value_at bytes_eq same_letters
read_flag = refl
