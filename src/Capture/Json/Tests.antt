-- ===== src/Capture/Json/Tests.antt =====
-- The depth of parsed values.
use tydomio.Base.{ℕ, zero, suc, ◌≡◌, refl, ◌≤◌, ◌↔◌, Option, some, length, ok, err}
use tydomio.Base.Text.{Text, codes}
use tydomio.Capture.Json.{Json, null, array, nil, cons, checked, too_deep, Loads, value, parse_json}
use tydomio.Capture.Json.Depth.{nesting, parse_json_iff}

abbrev nested : ℕ → Json ℕ
nested zero = null
nested (suc n) = array (cons (nested n) nil)

at_bound : checked (nested 64) 0 ≡ ok (nested 64)
unfolding checked
at_bound = refl

past_bound : checked (nested 65) 0 ≡ err too_deep
unfolding checked
past_bound = refl

abbrev decoded : Text → Option Text
decoded s = some s

abbrev loads_nested : Text → Loads ℕ
loads_nested s = value (nested (length s))

parse_json_iff_example : (parse_json decoded loads_nested (codes "null") ≡ ok (nested 4)) ↔ (
    (text : Text) × (decoded (codes "null") ≡ some text)
    × (loads_nested text ≡ value (nested 4))
    × (nesting (nested 4) ≤ 64))
parse_json_iff_example = parse_json_iff decoded loads_nested (codes "null") (nested 4)
