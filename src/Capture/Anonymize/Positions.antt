-- ===== src/Capture/Anonymize/Positions.antt =====
-- tydomio/capture/anonymize.py: where the walk through a body is, and which rules are active there.
use tydomio.Base.{
  ℕ, suc, Bool, false, not, ◌&&◌, ◌||◌, Option, none, some, List, [], ◌∷◌, ◌++◌, map, ◌==◌, nat_eq,
  list_eq, if◌then◌else◌, any, length, get_elem?,
}
use tydomio.Base.Text.{Text, codes, remove_prefix}
use tydomio.Capture.Json.{Fields}
use tydomio.Capture.Policy.{list_item, parse_path, segment_matches}
use tydomio.Capture.Policy.Rules.{Rule, EndpointPolicy}

-- The loop of `_generic` over the parts, after `text`.
abbrev pub add_parts : Text → List Text → Text
add_parts text [] = text
add_parts text (part ∷ more) =
    add_parts (text ++ (if part == list_item then part else codes "." ++ part)) more

-- `_generic`
unfoldable pub generic_path : List Text → Text
generic_path parts = remove_prefix (add_parts [] parts) (codes ".")

-- `_Position`
pub record Position (F : Type 0) : Type 0 where
  pub rules : List (Rule × ℕ)
  pub opaque_paths : List (List Text × ℕ)
  pub opaque : Bool
  pub generic : List Text
  pub dicts : List (Fields F)

-- Whether the next segment of a path leads to a child.
unfoldable pub follows : Text → Text → List Text → ℕ → Bool
follows segment key segments position = elim (get_elem? segments position) [
  | none ↦ false
  | some next ↦
      if segment == list_item
      then next == list_item
      else not (next == list_item) && segment_matches next key
]

-- The rules that go on to a child, and the paths of opaque subtrees that do.
unfoldable pub next_rules : Text → Text → List (Rule × ℕ) → List (Rule × ℕ)
unfolding follows parse_path
next_rules segment key [] = []
next_rules segment key ((rule, position) ∷ more) =
    let rest = next_rules segment key more in
    if follows segment key (parse_path rule.path) position
    then (rule, suc position) ∷ rest
    else rest

unfoldable pub next_paths : Text → Text → List (List Text × ℕ) → List (List Text × ℕ)
unfolding follows
next_paths segment key [] = []
next_paths segment key ((segments, position) ∷ more) =
    let rest = next_paths segment key more in
    if follows segment key segments position then (segments, suc position) ∷ rest else rest

-- Whether a path of an opaque subtree ends here.
abbrev pub ends_here : List Text × ℕ → Bool
ends_here (segments, position) = position == length segments

module _ {F : Type 0} where
  -- `child`
  unfoldable pub child : Text → Text → Text → Position F → Position F
  unfolding next_rules next_paths
  child segment key out_key p =
      let paths = next_paths segment key p.opaque_paths in
      record p {
        rules = next_rules segment key p.rules;
        opaque_paths = paths;
        opaque = p.opaque || any ends_here paths;
        generic = p.generic ++ (out_key ∷ []);
      }

  -- The position of a dict, in which its keys are renamed.
  abbrev pub inside : Fields F → Position F → Position F
  inside fields p = record p { dicts = p.dicts ++ (fields ∷ []) }

  -- The position at the root of a body.
  unfoldable pub root : EndpointPolicy → Position F
  unfolding parse_path
  root policy = record {
    rules = map (λ (rule : Rule). (rule, 0)) policy.rules;
    opaque_paths = map (λ (path : Text). (parse_path path, 0)) policy.opaque;
    opaque = false;
    generic = [];
    dicts = [];
  }

-- The loop of `complete_rule`.
unfoldable pub first_complete : List (Rule × ℕ) → Option Rule
unfolding parse_path
first_complete [] = none
first_complete ((rule, position) ∷ more) =
    if position == length (parse_path rule.path) then some rule else first_complete more
