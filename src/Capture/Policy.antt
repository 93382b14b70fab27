-- ===== src/Capture/Policy.antt =====
-- tydomio/capture/policy.py: rule paths and what their segments match.
pub mod Rules
pub mod Table
pub mod Paths
pub mod Tests
use tydomio.Base.{
  ℕ, zero, suc, ◌-◌, Bool, true, false, not, ◌&&◌, List, [], ◌∷◌, ◌++◌, ◌==◌, nat_eq, list_eq,
  if◌then◌else◌, ltb, leb, length, drop,
}
use tydomio.Base.Text.{Text, codes, push, starts_with, remove_prefix}

abbrev pub list_item : Text
list_item = codes "[]"

abbrev pub any_key : Text
any_key = codes "*"

-- `re.split(r"(?<!\\)\.", path)`: the parts between the dots that follow no backslash. The first
-- argument is the character before the text.
unfoldable pub split_dots : ℕ → Text → List Text
split_dots before [] = [] ∷ []
split_dots before (c ∷ s) =
    let rest = split_dots c s in if c == b'.' && not (before == 92) then [] ∷ rest else push c rest

-- A character before a part that is trimmed already.
abbrev pub with_char : ℕ → Text × ℕ → Text × ℕ
with_char c (key, items) =
    if c == b'[' && key == codes "]" then ([], suc items) else (c ∷ key, items)

-- The loop that takes the list items off the end of a part: the key before them, and their number.
unfoldable pub trim_items : Text → Text × ℕ
trim_items [] = ([], 0)
trim_items (c ∷ s) = with_char c (trim_items s)

-- `key.replace("\\.", ".")`
unfoldable pub unescape : Text → Text
unescape [] = []
unescape (c ∷ s) =
    let rest = unescape s in if c == 92 && starts_with s (codes ".") then rest else c ∷ rest

abbrev pub repeated : ℕ → List Text
repeated zero = []
repeated (suc n) = list_item ∷ repeated n

abbrev pub segments_of : Text × ℕ → List Text
segments_of ([], items) = repeated items
segments_of (c ∷ key, items) = unescape (c ∷ key) ∷ repeated items

abbrev pub all_segments : List Text → List Text
all_segments [] = []
all_segments (part ∷ more) = segments_of (trim_items part) ++ all_segments more

unfoldable pub parse_path : Text → List Text
unfolding split_dots trim_items unescape
parse_path path = all_segments (split_dots 0 path)

unfoldable pub is_wildcard : Text → Bool
is_wildcard segment = starts_with segment any_key

-- `key.endswith(suffix)`
unfoldable pub ends_with : Text → Text → Bool
ends_with key suffix =
    leb (length suffix) (length key) && drop (length key - length suffix) key == suffix

unfoldable pub segment_matches : Text → Text → Bool
unfolding is_wildcard ends_with
segment_matches segment key =
    let suffix = remove_prefix segment any_key in
    if is_wildcard segment
    then ends_with key suffix && ltb (length suffix) (length key)
    else segment == key
