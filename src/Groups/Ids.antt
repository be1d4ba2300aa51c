-- ===== src/Groups/Ids.antt =====
-- crates/tangle_groups/src/ids.rs
pub mod Valid
use tangle.Common.{
  ℕ, Bool, ◌||◌, not, [], ◌∷◌, Result, ok, err, ◌>>◌, Text, byte_len, is_control, is_trimmed, ltb,
  ◌==◌, if◌then◌else◌,
}
use tangle.Groups.Errors.{GroupError, invalid, invalid_group_id}

abbrev pub GroupId : Type 0
GroupId = Text

abbrev pub min_group_id_bytes : ℕ
min_group_id_bytes = 1

abbrev pub max_group_id_bytes : ℕ
max_group_id_bytes = 128

-- The separators `/ \ ? # : & =`.
abbrev pub is_separator : ℕ → Bool
is_separator c =
    c == b'/' || c == 0x5c || c == b'?' || c == b'#' || c == b':' || c == b'&' || c == b'='

-- The loop over the characters.
unfoldable pub check_characters : Text → Result GroupError (Unit {0})
check_characters [] = ok tt
check_characters (c ∷ s) =
    let rest = check_characters s in
    if c == 0
    then err (invalid invalid_group_id)
    else if is_control c
    then err (invalid invalid_group_id)
    else if is_separator c
    then err (invalid invalid_group_id)
    else rest

unfoldable pub validate_group_id : Text → ℕ → Result GroupError (Unit {0})
unfolding check_characters
validate_group_id value max_bytes =
    if ltb (byte_len value) min_group_id_bytes
    then err (invalid invalid_group_id)
    else if ltb max_bytes (byte_len value)
    then err (invalid invalid_group_id)
    else if not (is_trimmed value)
    then err (invalid invalid_group_id)
    else check_characters value

unfoldable pub new_group_id_with_max_bytes : Text → ℕ → Result GroupError GroupId
unfolding validate_group_id
new_group_id_with_max_bytes value max_bytes = do validate_group_id value max_bytes; ok value

unfoldable pub new_group_id : Text → Result GroupError GroupId
unfolding new_group_id_with_max_bytes
new_group_id value = new_group_id_with_max_bytes value max_group_id_bytes
