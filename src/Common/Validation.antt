-- ===== src/Common/Validation.antt =====
-- crates/nymstr-common/src/validation.rs: user names and group ids.
use Prim.Native.Char.{Char, code}
use Prim.Native.String.{len}
use nymstr.Prelude.{String, Bool, true, not, ◌&&◌, ◌||◌, leb, ◌==◌, nat_eq, string_eq}

-- `is_ascii_alphanumeric() || c == '-' || c == '_'`.
unfoldable pub is_name_char : Char → Bool
is_name_char c =
    (leb b'0' (code c) && leb (code c) b'9')
    || (leb b'A' (code c) && leb (code c) b'Z')
    || (leb b'a' (code c) && leb (code c) b'z')
    || code c == b'-'
    || code c == b'_'

all_name_chars : String → Bool
all_name_chars String.[] = true
all_name_chars (String.◌∷◌ c s) = is_name_char c && all_name_chars s

unfoldable pub is_valid_username : String → Bool
unfolding is_name_char all_name_chars
is_valid_username username =
    not (username == "") && leb (len username) 64 && all_name_chars username

unfoldable pub is_valid_group_id : String → Bool
unfolding is_name_char all_name_chars
is_valid_group_id group_id =
    not (group_id == "") && leb (len group_id) 128 && all_name_chars group_id
