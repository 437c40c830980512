-- ===== src/Entity/Tests.antt =====
-- src/entity/Entity.cpp at concrete inputs. A floating point number stands for its text.
use libbundle.Prelude.{◌≡◌, refl, true, false, none, some, Option, List, [], ◌∷◌, Bytes, codes}
use libbundle.Tables.{bytes_key, IsMap, value_at, write_at, bytes_eq}
use libbundle.Clib.{pos, negsuc, signed_text, unsigned_text, decimal}
use libbundle.Entity.{
  Setting, Entity, to_integer, to_bool, to_string, undefined, clear_dirty, set_to, assign,
}
use libbundle.Entity.Json.{
  JsonValue, number_int, text, null, serialize_to_string, values_text, member_text, value_text,
}
use libbundle.Entity.Dirty.{assign_all, assigned, kept, serialize_to_string-assign_all}

abbrev float_text : Option Bytes → Bytes
float_text none = []
float_text (some s) = s

abbrev player : Entity Bytes
player = record {
  id = 7;
  values =
      (codes "name", set_to (to_string (codes "ann")) undefined)
      ∷ (codes "level", set_to (to_integer (pos 3)) undefined)
      ∷ [];
}

player-IsMap : IsMap player.values
unfolding value_at bytes_eq
player-IsMap = (refl, (refl, tt))

abbrev changes : List (Bytes × Setting Bytes)
changes = (codes "level", to_integer (pos 4)) ∷ (codes "online", to_bool true) ∷ []

serialize_to_string-assign_all_example :
    serialize_to_string float_text true
      (record { id = 7; values = assign_all changes (clear_dirty player.values) })
    ≡ serialize_to_string float_text false (record {
      id = 7;
      values = kept (assigned changes) (assign_all changes (clear_dirty player.values));
    })
serialize_to_string-assign_all_example =
    serialize_to_string-assign_all float_text changes player player-IsMap

changed_text :
    serialize_to_string float_text true
      (record { id = 7; values = assign_all changes (clear_dirty player.values) })
    ≡ codes "{\"id\":7,\"level\":4,\"online\":true}"
unfolding serialize_to_string values_text member_text value_text clear_dirty assign write_at
    bytes_eq signed_text unsigned_text decimal
changed_text = refl

-- The third member is refused, and the fourth is not read.
abbrev fields : List (Bytes × JsonValue Bytes)
fields =
    (codes "level", number_int (negsuc 0))
    ∷ (codes "name", text (codes "bob"))
    ∷ (codes "home", null)
    ∷ (codes "level", number_int (pos 9))
    ∷ []
