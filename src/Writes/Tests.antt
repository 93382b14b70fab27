-- ===== src/Writes/Tests.antt =====
-- Calls of the write tools, and their theorems at concrete calls.
use tydomio.Base.{
  ℕ, ◌↔◌, ◌-◌, ◌*◌, ◌/◌, ltb, ◌≡◌, refl, Bool, true, false, Option, none, some, List, [], ◌∷◌,
  nat_eq, list_eq, pair_eq, option_eq, if◌then◌else◌, arith, Result, ok, err,
}
use tydomio.Base.Int.{ℤ, pos, negsuc, int_eq}
use tydomio.Base.Dict
use tydomio.Base.Dict.{Dict}
use tydomio.Base.Text.{Text, codes}
use tydomio.Model.{Config}
use tydomio.Usages.{usages, writes, model_eq, write_eq, shutter}
use tydomio.Installation.{Installation, from_config, group, endpoint}
use tydomio.Cache.{fresh, merge_devices, mark_synced, replace_devices, mark_connected, apply_config}
use tydomio.Cache.Tests.{synced_cache, heated_cache, home}
use tydomio.Requests.{Request, write_group, write_endpoint, write_request}
use tydomio.Base.Text.Number.{digits, show_nat, show_int}
use tydomio.Writes.{
  Failure, Prepared, synced_parts, refused, rate_limited, Seconds, Validation, ShutterInput,
  HeatingInput, find_usage, count, prepare_shutter,
}
use tydomio.Writes.Targets.{at_endpoint, at_group, read_target}
use tydomio.Writes.Tool.{answered, set_shutter, set_heating, write_call}
use tydomio.Writes.Rate.{
  IsLawful, Attempt, send_times, send_times-Spaced, Spaced, Allowed, write_call-Allowed,
}
use tydomio.Writes.Safety.{set_shutter-sent, set_heating-sent, Heats}

-- A validation that accepts all fields, and sends one text for them.
abbrev lenient : Validation ℕ (Dict Text ℕ) (Dict Text ℕ)
lenient = record {
  validate = λ kind fields. some fields;
  revalidate = λ kind write. some write;
  dumps = λ body. codes "[]";
}

abbrev amount : ℤ → ℕ
amount (pos n) = n
amount (negsuc n) = 0

-- Whole seconds for the floats of the clock.
abbrev ticks : Seconds ℕ
ticks = record {
  of_int = amount;
  minus = λ x y. x - y;
  times = λ x y. x * y;
  lt = ltb;
  ceil = λ x. pos x;
  divide = λ x y. amount x / amount y;
}

abbrev open_all : ShutterInput ℕ
open_all = record { target = at_group (pos 4); command = none; position = some 100 }

abbrev sent_request : Request
sent_request = record {
  method = codes "PUT";
  url = codes "/groups/4/data";
  headers = (codes "Content-Type", codes "application/json; charset=UTF-8") ∷ [];
  content = some (codes "[]");
  transaction_id = some (pos 8);
}

reads_target : read_target false (codes "g:4") ≡ some (at_group (pos 4))
unfolding read_target tydomio.Base.Text.split_on nat_eq list_eq
reads_target = refl

sends_once :
    (set_shutter lenient ticks 50 (pos 8) 60 answered synced_cache (some open_all) none).sent
    ≡ some sent_request
unfolding set_shutter merge_devices mark_synced replace_devices mark_connected apply_config fresh
    Dict.lookup Dict.insert_all Dict.insert Dict.member int_eq pair_eq list_eq nat_eq option_eq
    usages model_eq write_eq writes group endpoint write_group write_endpoint write_request digits
    show_nat show_int
sends_once = refl

set_shutter-sent_example :
    (fresh synced_cache ≡ true)
    × ((config : Config) × (name : Text) × (synced_cache.config ≡ some config)
        × (find_usage config (at_group (pos 4)) ≡ some name)
        × (usages name ≡ some shutter))
set_shutter-sent_example =
    set_shutter-sent lenient ticks 50 (pos 8) 60 answered synced_cache open_all none sent_request
      sends_once

abbrev warmer : HeatingInput ℕ
warmer = record { target = at_endpoint (pos 9) (pos 1); fields = (codes "setpoint", 20) ∷ [] }

abbrev heating_request : Request
heating_request = record {
  method = codes "PUT";
  url = codes "/devices/9/endpoints/1/data";
  headers = (codes "Content-Type", codes "application/json; charset=UTF-8") ∷ [];
  content = some (codes "[]");
  transaction_id = some (pos 8);
}

heats :
    (set_heating lenient ticks 50 (pos 8) 60 answered heated_cache (some warmer) none).sent
    ≡ some heating_request
unfolding set_heating merge_devices mark_synced replace_devices mark_connected apply_config fresh
    Dict.lookup Dict.insert_all Dict.insert Dict.member int_eq pair_eq list_eq nat_eq option_eq
    usages model_eq write_eq writes group endpoint write_group write_endpoint write_request digits
    show_nat show_int
heats = refl

set_heating-sent_example :
    (fresh heated_cache ≡ true)
    × ((config : Config) × (name : Text) × (heated_cache.config ≡ some config)
        × (find_usage config (at_endpoint (pos 9) (pos 1)) ≡ some name)
        × Heats (at_endpoint (pos 9) (pos 1)) name)
set_heating-sent_example =
    set_heating-sent lenient ticks 50 (pos 8) 60 answered heated_cache warmer none heating_request
      heats

too_soon : count ticks 2000 500 (some 0) ≡ err (refused rate_limited (some 1500))
unfolding count
too_soon = refl

ticks-IsLawful : IsLawful ticks
ticks-IsLawful = record { positive_minus = λ x y. ground arith }

abbrev call_at : ℕ → Attempt ℕ ℕ (Dict Text ℕ) ℕ
call_at now = record {
  now = now;
  ending = answered;
  cache = synced_cache;
  input = some (λ i config. prepare_shutter lenient (pos 8) i config open_all);
}

abbrev session : List (Attempt ℕ ℕ (Dict Text ℕ) ℕ)
session = call_at 0 ∷ call_at 30 ∷ call_at 60 ∷ call_at 100 ∷ call_at 110 ∷ []

three_sends : send_times ticks 50 session none ≡ 0 ∷ 60 ∷ 110 ∷ []
unfolding send_times merge_devices mark_synced replace_devices mark_connected apply_config fresh
    Dict.lookup Dict.insert_all Dict.insert Dict.member int_eq pair_eq list_eq nat_eq option_eq
    usages model_eq write_eq writes group endpoint write_group write_endpoint write_request digits
    show_nat show_int write_call prepare_shutter
three_sends = refl

send_times-Spaced_example : Spaced ticks 50 none (send_times ticks 50 session none)
send_times-Spaced_example = send_times-Spaced ticks 50 ticks-IsLawful session none

is_synced : synced_parts {S = ℕ} synced_cache ≡ ok (from_config home, home)
unfolding synced_parts merge_devices mark_synced replace_devices mark_connected apply_config fresh
is_synced = refl

abbrev prepare_open :
    ShutterInput ℕ → Installation → Config → Result (Failure ℕ) (Prepared (Dict Text ℕ))
prepare_open input i config = prepare_shutter lenient (pos 8) i config input

abbrev opened : Prepared (Dict Text ℕ)
opened = record { request = sent_request; write = (codes "position", 100) ∷ [] }

is_prepared : prepare_open open_all (from_config home) home ≡ ok opened
unfolding prepare_shutter from_config Dict.lookup Dict.insert_all Dict.insert Dict.member int_eq
    pair_eq list_eq nat_eq option_eq usages model_eq write_eq writes group endpoint write_group
    write_endpoint write_request digits show_nat show_int
is_prepared = refl

write_call-Allowed_example :
    ((write_call ticks 50 prepare_open 60 answered synced_cache (some open_all) (some 5)).sent
      ≡ some sent_request)
    ↔ Allowed ticks 50 60 (some 5)
write_call-Allowed_example =
    write_call-Allowed ticks 50 ticks-IsLawful prepare_open open_all 60 answered synced_cache
      (some 5) (from_config home) home opened is_synced is_prepared
