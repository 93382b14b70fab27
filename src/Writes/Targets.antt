-- ===== src/Writes/Targets.antt =====
-- tydomio/mcp_server/writes.py: the target of a write, as the patterns of the inputs accept it and the
-- tools take it apart.
use tydomio.Base.{
  Bool, ◌&&◌, Option, none, some, List, [], ◌∷◌, ◌==◌, list_eq, nat_eq, leb, all, length,
  if◌then◌else◌,
}
use tydomio.Base.Int.{ℤ, pos}
use tydomio.Base.Text.{Text, codes, split_on}
use tydomio.Base.Text.Number.{read_nat, is_digit}

pub data Target : Type 0 where
  at_endpoint : ℤ → ℤ → Target
  at_group : ℤ → Target
  at_area : ℤ → Target

-- `[0-9]{1,15}`, and the int that it stands for.
unfoldable pub read_id : Text → Option ℤ
unfolding read_nat
read_id s =
    if leb 1 (length s) && leb (length s) 15 && all is_digit s
    then elim (read_nat s) [ none ↦ none | some n ↦ some (pos n) ]
    else none

abbrev pub pair_target : Option ℤ → Option ℤ → Option Target
pair_target (some d) (some e) = some (at_endpoint d e)
pair_target _ _ = none

abbrev pub single_target : (ℤ → Target) → Option ℤ → Option Target
single_target make none = none
single_target make (some n) = some (make n)

abbrev pub target_of : Bool → List Text → Option Target
target_of areas (kind ∷ d ∷ e ∷ []) =
    if kind == codes "e" then pair_target (read_id d) (read_id e) else none
target_of areas (kind ∷ n ∷ []) =
    if kind == codes "g"
    then single_target at_group (read_id n)
    else if areas && kind == codes "a"
    then single_target at_area (read_id n)
    else none
target_of areas _ = none

-- `_TARGET_PATTERN`, and with areas `_HEATING_INPUT_PATTERN`, then the split at the colons.
unfoldable pub read_target : Bool → Text → Option Target
unfolding read_id
read_target areas s = target_of areas (split_on b':' s)
