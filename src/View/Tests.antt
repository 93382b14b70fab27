-- ===== src/View/Tests.antt =====
-- The output for a home with one blind.
use tydomio.Base.{
  ℕ, ◌≡◌, refl, true, false, not, ◌&&◌, ◌||◌, Option, none, some, List, [], ◌∷◌, all, map, nat_eq,
  list_eq, ◌==◌, ltb, contains, if◌then◌else◌, Bool-cases, inl, inr,
}
use tydomio.Base.Int.{pos}
use tydomio.Base.Text.{Text, codes}
use tydomio.Base.Text.Number.{show_nat}
use tydomio.Model.{DevicesData}
use tydomio.Cache.{Cache, new_cache}
use tydomio.Cache.Valid.{perform_all, applies, replaces_devices}
use tydomio.Cache.Tests.{home}
use tydomio.View.{get_state, or_no_ids}
use tydomio.View.Sanitize.{Runtime, Secrets, pattern, redacted, sanitize}
use tydomio.View.Clean.{is_clean, Substitutes}
use tydomio.View.Items.{Value, number, Platform, Item}
use tydomio.View.Answers.{config_ids, wanted_ids, get_state_lem}
use tydomio.View.Safe.{is_safe_item, all-get_state}

-- A substitution that finds a pattern only where it is the whole text.
abbrev ascii : Runtime
ascii = record {
  is_space = λ c. c == 32 || c == 10;
  is_hidden = λ c. ltb c 32;
  escape = λ s. s;
  sub = λ pattern replacement s. if s == pattern then replacement else s;
}

abbrev platform : Platform ℕ
platform = record { runtime = ascii; validate = λ type v. some v; is_finite = λ x. true }

abbrev secrets : Secrets
secrets = record { password = codes "secret"; ip = none; mac = codes "001A25AABBCC" }

substitutes : Substitutes ascii secrets
substitutes p s h g = elim (Bool-cases (s == pattern ascii secrets)) [
  | inl same ↦ rw same h
  | inr other ↦ rw other g
]

one_line : sanitize ascii secrets (b' ' ∷ b'a' ∷ 10 ∷ 10 ∷ 7 ∷ b'b' ∷ []) ≡ codes "a b"
unfolding sanitize list_eq nat_eq
one_line = refl

mark : all (is_clean ascii) redacted ≡ true
unfolding nat_eq
mark = refl

abbrev state : DevicesData (Value ℕ)
state =
    record {
      id = pos 9;
      endpoints =
          record {
            id = pos 1;
            error = pos 0;
            fields =
                record { name = codes "position"; validity = codes "upToDate"; value = number 30 }
                ∷ [];
          }
          ∷ [];
    }
    ∷ []

abbrev cache : Cache (Value ℕ) ℕ
cache = perform_all (applies home ∷ replaces_devices state [] ∷ []) new_cache

abbrev asked : Option (List Text)
asked = some (codes "e:9:1" ∷ codes "e:9:2" ∷ [])

unknown_endpoint :
    (get_state platform show_nat secrets cache asked false).unknown_ids ≡ codes "e:9:2" ∷ []
unfolding get_state tydomio.Cache.replace_devices tydomio.Cache.apply_config list_eq nat_eq
unknown_endpoint = refl

get_state_lem_example :
    (map (λ (i : Item ℕ). i.id) (get_state platform show_nat secrets cache asked false).items
      ≡ wanted_ids asked (config_ids cache.config))
    × (contains (get_state platform show_nat secrets cache asked false).unknown_ids (codes "e:9:2")
        ≡ (contains (or_no_ids asked) (codes "e:9:2")
            && not (contains (config_ids cache.config) (codes "e:9:2"))))
get_state_lem_example = get_state_lem platform show_nat secrets cache asked false (codes "e:9:2")

all-get_state_example :
    all (is_safe_item platform) (get_state platform show_nat secrets cache asked false).items ≡ true
all-get_state_example = all-get_state platform secrets substitutes mark show_nat cache asked false
