-- ===== src/Writes/Safety.antt =====
-- What a write tool may send, and in which state.
use tydomio.Base.{
  ◌≡◌, refl, ◌∙◌, Bool, true, false, Option, none, some, nat_eq, list_eq, contains, arith, Result,
  ok, err, require, >>=-eq_ok, ◌⊎◌,
}
use tydomio.Base.Int.{ℤ}
use tydomio.Base.Dict.{Dict}
use tydomio.Base.Text.{Text, codes}
use tydomio.Model.{Config}
use tydomio.Usages.{UsageModel, usages, model_eq, shutter, boiler, re2020_control_boiler}
use tydomio.Installation.{Installation}
use tydomio.Cache.{Cache, fresh}
use tydomio.Requests.{Request}
use tydomio.Writes.{
  Reason, Seconds, Failure, refused, raised, Validation, Prepared, ShutterInput, HeatingInput,
  find_usage, usage_name, prepare_shutter, prepare_heating, prepare_area, prepare_endpoint,
  synced_parts, count, is_one_of, shutter_usages, or_refuse, heating_area_usages,
  heating_endpoint_usages, heating_target,
}
use tydomio.Writes.Targets.{Target, at_endpoint, at_group, at_area}
use tydomio.Writes.Tool.{Ending, write_call, check, finish, set_shutter, set_heating}

or_refuse-eq_ok {ℓ} :
    {A : Type ℓ} {S : Type 0} (reason : Reason) (o : Option A) (a : A)
    → or_refuse {S = S} reason o ≡ ok a
    → o ≡ some a
or_refuse-eq_ok reason none a h = cc
or_refuse-eq_ok reason (some b) a h = ground arith

require-eq_ok :
    {S : Type 0} (b : Bool) (f : Failure S) (u : Unit {0}) → require b f ≡ ok u → b ≡ true
require-eq_ok true f u h = refl
require-eq_ok false f u h = cc

synced_parts-eq_ok :
    {V T S : Type 0} (c : Cache V T) (i : Installation) (config : Config)
    → synced_parts {S = S} c ≡ ok (i, config)
    → (c.installation ≡ some i) × (c.config ≡ some config) × (fresh c ≡ true)
unfolding synced_parts
synced_parts-eq_ok c i config h =
    let (j, known, h₁) = >>=-eq_ok (or_refuse Reason.not_synced c.installation) _ h in
    let (other, described, h₂) = >>=-eq_ok (or_refuse Reason.not_synced c.config) _ h₁ in
    let (u, is_fresh, h₃) = >>=-eq_ok (require (fresh c) (refused Reason.not_synced none)) _ h₂ in
    (
      or_refuse-eq_ok Reason.not_synced c.installation j known ∙ ground arith,
      or_refuse-eq_ok Reason.not_synced c.config other described ∙ ground arith,
      require-eq_ok (fresh c) _ u is_fresh,
    )

usages-shutter : (o : Option UsageModel) → is_one_of shutter_usages o ≡ true → o ≡ some shutter
usages-shutter none h = cc
usages-shutter (some m) h = ground arith

-- What `set_heating` may write to.
abbrev pub Heats : Target → Text → Type 0
Heats (at_endpoint d e) name =
    (usages name ≡ some boiler) ⊎ (usages name ≡ some re2020_control_boiler)
Heats (at_group g) name = ⊥
Heats (at_area a) name = name ≡ codes "re2020ControlBoiler"

heating_model :
    (model : UsageModel)
    → contains heating_endpoint_usages model ≡ true
    → (model ≡ boiler) ⊎ (model ≡ re2020_control_boiler)
heating_model model h = ground arith

module _ {J W B S : Type 0} (v : Validation J W B) where
  -- A prepared shutter write is for a target of usage shutter.
  prepare_shutter-usage :
      (tid : ℤ) (i : Installation) (config : Config) (input : ShutterInput J) (p : Prepared W)
      → prepare_shutter {S = S} v tid i config input ≡ ok p
      → (name : Text) × (find_usage config input.target ≡ some name) × (usages name ≡ some shutter)
  unfolding prepare_shutter usage_name
  prepare_shutter-usage tid i config input p h =
      let (name, found, h₁) =
        >>=-eq_ok (or_refuse Reason.unknown_target (find_usage config input.target)) _ h in
      let (u, fits, h₂) =
        >>=-eq_ok
          (require (is_one_of shutter_usages (usages name)) (refused Reason.wrong_usage none)) _
          h₁ in
      (
        name,
        or_refuse-eq_ok Reason.unknown_target (find_usage config input.target) name found,
        usages-shutter (usages name) (require-eq_ok _ _ u fits),
      )

  heating_target-usage :
      (tid : ℤ) (i : Installation) (config : Config) (target : Target) (fields : Dict Text J)
      (p : Prepared W)
      → heating_target {S = S} v tid i config target fields ≡ ok p
      → (name : Text) × (find_usage config target ≡ some name) × Heats target name
  unfolding usage_name prepare_area prepare_endpoint
  heating_target-usage tid i config (at_group g) fields p h = cc
  heating_target-usage tid i config (at_area a) fields p h =
      let (name, found, h₁) =
        >>=-eq_ok (or_refuse Reason.unknown_target (find_usage config (at_area a))) _ h in
      let (u, fits, h₂) =
        >>=-eq_ok (require (contains heating_area_usages name) (refused Reason.wrong_usage none)) _
          h₁ in
      let listed = require-eq_ok (contains heating_area_usages name) _ u fits in
      (name, or_refuse-eq_ok Reason.unknown_target _ name found, ground arith)
  heating_target-usage tid i config (at_endpoint d e) fields p h =
      let (name, found, h₁) =
        >>=-eq_ok (or_refuse Reason.unknown_target (find_usage config (at_endpoint d e))) _ h in
      let (model, typed, h₂) = >>=-eq_ok (or_refuse Reason.wrong_usage (usages name)) _ h₁ in
      let (u, fits, h₃) =
        >>=-eq_ok
          (require (contains heating_endpoint_usages model) (refused Reason.wrong_usage none)) _
          h₂ in
      let known = or_refuse-eq_ok Reason.wrong_usage (usages name) model typed in
      let heats =
        heating_model model (require-eq_ok (contains heating_endpoint_usages model) _ u fits) in
      (name, or_refuse-eq_ok Reason.unknown_target _ name found, ground arith)

module _ {V T W S : Type 0} (seconds : Seconds S) (interval now : S) (ending : Ending)
    (cache : Cache V T) (last : Option S) where
  finish-sent :
      (r : Result (Failure S) (Prepared W × Option S)) (request : Request)
      → (finish ending last r).sent ≡ some request
      → (p : Prepared W) × (counted : Option S) × (r ≡ ok (p, counted)) × (p.request ≡ request)
  finish-sent (err (refused reason retry)) request h = cc
  finish-sent (err (raised e)) request h = cc
  finish-sent (ok (p, counted)) request h = (p, counted, refl, ground arith)

  -- A request is sent only after all steps have passed.
  write_call-sent :
      {I : Type 0} (prepare : I → Installation → Config → Result (Failure S) (Prepared W))
      (input : I) (request : Request)
      → (write_call seconds interval prepare now ending cache (some input) last).sent ≡ some request
      → (i : Installation) × (config : Config) × (p : Prepared W) × (cache.installation ≡ some i)
        × (cache.config ≡ some config)
        × (fresh cache ≡ true)
        × (prepare input i config ≡ ok p)
        × (p.request ≡ request)
  unfolding write_call check
  write_call-sent prepare input request h =
      let (p, counted, passed, same) =
        finish-sent (check seconds interval now last cache (prepare input)) request h in
      let ((i, config), parts, h₁) = >>=-eq_ok (synced_parts cache) _ passed in
      let (q, prepared, h₂) = >>=-eq_ok (prepare input i config) _ h₁ in
      let (c, allowed, h₃) = >>=-eq_ok (count seconds interval now last) _ h₂ in
      let (known, described, is_fresh) = synced_parts-eq_ok cache i config parts in
      (i, config, p, known, described, is_fresh, prepared ∙ ground arith, same)

module _ {V T J W B S : Type 0} (v : Validation J W B) (seconds : Seconds S) (interval : S) where
  -- `set_shutter` sends a request only while the cache is connected and synced, and only for a target
  -- that the configuration of the cache gives the usage of a shutter.
  pub set_shutter-sent :
      (tid : ℤ) (now : S) (ending : Ending) (cache : Cache V T) (input : ShutterInput J)
      (last : Option S) (request : Request)
      → (set_shutter v seconds interval tid now ending cache (some input) last).sent ≡ some request
      → (fresh cache ≡ true)
        × ((config : Config) × (name : Text) × (cache.config ≡ some config)
            × (find_usage config input.target ≡ some name)
            × (usages name ≡ some shutter))
  unfolding set_shutter
  set_shutter-sent tid now ending cache input last request h =
      let (i, config, p, known, described, is_fresh, prepared, same) =
        write_call-sent seconds interval now ending cache last
          (λ (input : ShutterInput J) i config. prepare_shutter v tid i config input) input request
          h in
      let (name, found, fits) = prepare_shutter-usage v tid i config input p prepared in
      (is_fresh, (config, name, described, found, fits))

  -- `set_heating` sends a request only while the cache is connected and synced, never for a group, and
  -- only for an endpoint that the configuration calls a boiler or a re2020ControlBoiler, or an area that it
  -- calls a re2020ControlBoiler.
  pub set_heating-sent :
      (tid : ℤ) (now : S) (ending : Ending) (cache : Cache V T) (input : HeatingInput J)
      (last : Option S) (request : Request)
      → (set_heating v seconds interval tid now ending cache (some input) last).sent ≡ some request
      → (fresh cache ≡ true)
        × ((config : Config) × (name : Text) × (cache.config ≡ some config)
            × (find_usage config input.target ≡ some name)
            × Heats input.target name)
  unfolding set_heating prepare_heating
  set_heating-sent tid now ending cache input last request h =
      let (i, config, p, known, described, is_fresh, prepared, same) =
        write_call-sent seconds interval now ending cache last
          (λ (input : HeatingInput J) i config. prepare_heating v tid i config input) input request
          h in
      let (name, found, fits) =
        heating_target-usage v tid i config input.target input.fields p prepared in
      (is_fresh, (config, name, described, found, fits))
