-- ===== src/Tools/Jscode.antt =====
-- `curlWriteCallback` of src/tools/Tools.cpp, which reads the answer to `decode_jscode`. The parser of JSON is a
-- parameter, which gives the members of the object; `none` is an error.
use libbundle.Prelude.{
  ◌≡◌, refl, Bool, true, false, not, ◌||◌, Option, none, some, List, Bytes, codes, if◌then◌else◌,
  arith, ◌>>=◌, Option-cases, inl, inr,
}
use libbundle.Tables.{bytes_key, value_at, is_present}

-- What the code looks at of a member's value.
pub data Json : Type 0 where
  string : Bytes → Json
  other : Json

-- `HasMember(name)`, and `document[name].IsString()`, which the code asks of members that are there.
abbrev pub is_string : Option Json → Bool
is_string (some (string s)) = true
is_string (some other) = false
is_string none = false

-- `GetString()`, which asserts that the value is a string.
abbrev pub get_string : Option Json → Option Bytes
get_string (some (string s)) = some s
get_string (some other) = none
get_string none = none

-- The arguments of the call of `func`; `none` is a failed assertion.
abbrev pub Called : Type 0
Called = Option (Bool × Bytes × Bytes)

-- What is handed over where the answer has both members.
unfoldable pub handed_over : List (Bytes × Json) → Called
handed_over document = do
  session_key ← get_string (value_at document (codes "session_key"))
  openid ← get_string (value_at document (codes "openid"))
  some (true, session_key, openid)

abbrev pub or_text : Option Json → Bytes → Bytes
or_text (some (string s)) text = s
or_text (some other) text = text
or_text none text = text

-- The checks of the members.
unfoldable pub check_members : Bytes → List (Bytes × Json) → Called
check_members ptr document =
    let session_key = value_at document (codes "session_key") in
    let openid = value_at document (codes "openid") in
    if is_present (value_at document (codes "errcode"))
    then some (false, codes "errcode", or_text (value_at document (codes "errmsg")) ptr)
    else if not (is_present session_key) || is_string session_key
    then some (false, codes "not found `session_key`", ptr)
    else if not (is_present openid) || not (is_string openid)
    then some (false, codes "not found `openid`", ptr)
    else handed_over document

-- Whether `func` is told that there was no error.
abbrev pub reports_success : Called → Bool
reports_success none = false
reports_success (some (ok, first, second)) = ok

handed_over_text :
    (document : List (Bytes × Json))
    → is_string (value_at document (codes "session_key")) ≡ false
    → reports_success (handed_over document) ≡ false
unfolding handed_over
handed_over_text document h = ground arith

check_members_fails :
    (ptr : Bytes) (document : List (Bytes × Json))
    → reports_success (check_members ptr document) ≡ false
unfolding check_members
check_members_fails ptr document = ground (arith, handed_over_text document)

module _ (parse : Bytes → Option (List (Bytes × Json))) where
  unfoldable pub curl_write_callback : Bytes → Called
  curl_write_callback ptr = elim (parse ptr) [
    | none ↦ some (false, codes "ParseCallbackError", ptr)
    | some document ↦ check_members ptr document
  ]

  -- No answer is reported as a success, whatever the parser of JSON is. For an object without an error code: a session
  -- key that is a string is refused with `not found session_key`, as is a missing one; with a session key of another type,
  -- an openid that is missing or no string is refused with `not found openid`, and with one that is a string the
  -- assertion of `GetString` on the session key fails.
  pub curl_write_callback_fails :
      (ptr : Bytes)
      → (reports_success (curl_write_callback ptr) ≡ false)
        × ((document : List (Bytes × Json))
            → parse ptr ≡ some document
            → value_at document (codes "errcode") ≡ none
            → ((s : Bytes)
                → value_at document (codes "session_key") ≡ some (string s)
                → curl_write_callback ptr ≡ some (false, codes "not found `session_key`", ptr))
              × (value_at document (codes "session_key") ≡ none
                  → curl_write_callback ptr ≡ some (false, codes "not found `session_key`", ptr))
              × (value_at document (codes "session_key") ≡ some other
                  → ((s : Bytes)
                      → value_at document (codes "openid") ≡ some (string s)
                      → curl_write_callback ptr ≡ none)
                    × (value_at document (codes "openid") ≡ none
                        → curl_write_callback ptr ≡ some (false, codes "not found `openid`", ptr))
                    × (value_at document (codes "openid") ≡ some other
                        → curl_write_callback ptr ≡ some (false, codes "not found `openid`", ptr))))
  unfolding curl_write_callback check_members handed_over
  curl_write_callback_fails ptr = (
    elim (Option-cases (parse ptr)) [
      | inl e ↦ rw (reports_success, e) refl
      | inr (document, e) ↦ rw (reports_success, e) (check_members_fails ptr document)
    ],
    λ document e n. (
      λ s k. rw (curl_write_callback, e, check_members, n, k) refl,
      λ k. rw (curl_write_callback, e, check_members, n, k) refl,
      λ k. (
        λ s o. rw (curl_write_callback, e, check_members, n, k, o, handed_over) refl,
        λ o. rw (curl_write_callback, e, check_members, n, k, o) refl,
        λ o. rw (curl_write_callback, e, check_members, n, k, o) refl,
      ),
    ),
  )
