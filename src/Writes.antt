-- ===== src/Writes.antt =====
-- tydomio/mcp_server/writes.py: the write tools, checked, rate-limited and sent once. The validation
-- of a write is a parameter (`Validation`), and so are the floats that the clock gives and the
-- arithmetic on them (`Seconds`). The notes, which are constant texts for each reason, are left out.
pub mod Targets
pub mod Tool
pub mod Rate
pub mod Safety
pub mod Tests
use tydomio.Base.{
  ℕ, ◌+◌, ◌-◌, ◌*◌, ◌/◌, min, Bool, true, false, not, ◌&&◌, ◌||◌, Option, none, some, List, [], ◌∷◌,
  map, ◌==◌, Eq, nat_eq, list_eq, pair_eq, option_eq, contains, ltb, if◌then◌else◌, Result, ok, err,
  ◌>>=◌, ◌>>◌, require,
}
use tydomio.Base.Int.{ℤ, pos, int_eq}
use tydomio.Base.Dict
use tydomio.Base.Dict.{Dict}
use tydomio.Base.Text.{Text, codes}
use tydomio.Error.{Error, is_communication}
use tydomio.Model.{Config}
use tydomio.Usages.{
  UsageModel, UsageWrite, usages, writes, model_eq, write_eq, boiler, re2020_control_boiler,
  shutter, area, area_write, shutter_write,
}
use tydomio.Installation.{
  Installation, EndpointRef, GroupRef, AreaRef, endpoint_pair, group_pair, endpoint, group,
  area_ref,
}
use tydomio.Cache.{Cache, fresh, area_pair}
use tydomio.Requests.{Request, write_endpoint, write_group, write_area}
use tydomio.Writes.Targets.{Target, at_endpoint, at_group, at_area}

pub data Reason : Type 0 where
  not_synced unknown_target wrong_usage invalid_write rate_limited : Reason

-- What the code does with the floats of the clock: `of_int` is the conversion of an int operand, `minus`,
-- `times` and `lt` are operators, `ceil` is `math.ceil`, and `divide` the `/` of two ints.
pub record Seconds (S : Type 0) : Type 0 where
  pub of_int : ℤ → S
  pub minus : S → S → S
  pub times : S → S → S
  pub lt : S → S → Bool
  pub ceil : S → ℤ
  pub divide : ℤ → ℤ → S

-- `_Refused`, or an exception that no step of the tool catches.
pub data Failure (S : Type 0) : Type 0 where
  refused : Reason → Option S → Failure S
  raised : Error → Failure S

-- What pydantic does with the fields of a write: `validate` reads the fields given, `revalidate` reads
-- a write again and gives the body to send.
pub record Validation (J W B : Type 0) : Type 0 where
  pub validate : UsageWrite → Dict Text J → Option W
  pub revalidate : UsageWrite → W → Option B
  pub dumps : B → Text

-- `_validated`
abbrev pub or_refuse {ℓ} : {A : Type ℓ} {S : Type 0} → Reason → Option A → Result (Failure S) A
or_refuse reason none = err (refused reason none)
or_refuse reason (some a) = ok a

-- `_ref`: only an `InvalidTarget` leaves `Installation`.
abbrev pub ref_of {ℓ} : {A : Type ℓ} {S : Type 0} → Result Error A → Result (Failure S) A
ref_of (ok a) = ok a
ref_of (err e) = err (refused unknown_target none)

-- The constructors of the requests raise as they are.
abbrev pub raising {ℓ} : {A : Type ℓ} {S : Type 0} → Result Error A → Result (Failure S) A
raising (ok a) = ok a
raising (err e) = err (raised e)

-- The dict lookup of `_usage`.
unfoldable pub find_usage : Config → Target → Option Text
find_usage config (at_endpoint d e) =
    Dict.lookup (d, e) (Dict.insert_all (map endpoint_pair config.endpoints) [])
find_usage config (at_group g) = Dict.lookup g (Dict.insert_all (map group_pair config.groups) [])
find_usage config (at_area a) = Dict.lookup a (Dict.insert_all (map area_pair config.areas) [])

-- `_usage`
unfoldable pub usage_name : {S : Type 0} → Config → Target → Result (Failure S) Text
unfolding find_usage
usage_name config target = or_refuse unknown_target (find_usage config target)

abbrev pub shutter_usages : List UsageModel
shutter_usages = shutter ∷ []

abbrev pub heating_area_usages : List Text
heating_area_usages = codes "re2020ControlBoiler" ∷ []

-- `HEATING_USAGES - {Area}`
abbrev pub heating_endpoint_usages : List UsageModel
heating_endpoint_usages = boiler ∷ re2020_control_boiler ∷ []

abbrev pub is_one_of : List UsageModel → Option UsageModel → Bool
is_one_of models none = false
is_one_of models (some m) = contains models m

-- The arguments of `set_shutter`: a field is `none` where it was not given, which a given null is not.
pub record ShutterInput (J : Type 0) : Type 0 where
  pub target : Target
  pub command : Option J
  pub position : Option J

pub record HeatingInput (J : Type 0) : Type 0 where
  pub target : Target
  pub fields : Dict Text J

-- The request to send and the write that it carries.
pub record Prepared (W : Type 0) : Type 0 where
  pub request : Request
  pub write : W

-- The fields that exactly one of `command` and `position` gives.
abbrev pub shutter_fields {ℓ} :
    {J : Type ℓ} {S : Type 0} → Option J → Option J → Result (Failure S) (Dict Text J)
shutter_fields (some c) none = ok ((codes "positionCmd", c) ∷ [])
shutter_fields none (some p) = ok ((codes "position", p) ∷ [])
shutter_fields _ _ = err (refused invalid_write none)

-- What `_shutter_write` addresses.
pub data Ref : Type 0 where
  to_endpoint : EndpointRef → Ref
  to_group : GroupRef → Ref

unfoldable pub shutter_ref : {S : Type 0} → Installation → Target → Result (Failure S) Ref
shutter_ref i (at_endpoint d e) = do ref ← ref_of (endpoint i d e shutter); ok (to_endpoint ref)
shutter_ref i (at_group g) = do ref ← ref_of (group i g shutter); ok (to_group ref)
-- the pattern of `set_shutter` has no area; the code would read it as a group
shutter_ref i (at_area a) = do ref ← ref_of (group i a shutter); ok (to_group ref)

-- The endpoint branch, for the model of the usage; `WRITES[model]` has every heating model.
abbrev pub write_of : {S : Type 0} → UsageModel → Result (Failure S) UsageWrite
write_of model = elim (writes model) [ none ↦ err (raised Error.unexpected) | some kind ↦ ok kind ]

module _ {J W B S : Type 0} (v : Validation J W B) where
  -- `WriteEndpoint` or `WriteGroup`
  abbrev pub request_to : ℤ → Ref → UsageWrite → W → Result (Failure S) Request
  request_to tid (to_endpoint ref) kind write =
      raising (write_endpoint v.revalidate v.dumps tid ref kind write)
  request_to tid (to_group ref) kind write =
      raising (write_group v.revalidate v.dumps tid ref kind write)

  -- `_shutter_write`
  unfoldable pub prepare_shutter :
      ℤ → Installation → Config → ShutterInput J → Result (Failure S) (Prepared W)
  unfolding usage_name shutter_ref
  prepare_shutter tid i config input = do
    usage ← usage_name config input.target
    require (is_one_of shutter_usages (usages usage)) (refused wrong_usage none)
    ref ← shutter_ref i input.target
    fields ← shutter_fields input.command input.position
    write ← or_refuse invalid_write (v.validate shutter_write fields)
    request ← request_to tid ref shutter_write write
    ok (record { request = request; write = write })

  -- The area branch of `_heating_write`.
  unfoldable pub prepare_area :
      ℤ → Installation → Text → ℤ → Dict Text J → Result (Failure S) (Prepared W)
  prepare_area tid i usage a fields = do
    require (contains heating_area_usages usage) (refused wrong_usage none)
    ref ← ref_of (area_ref i a)
    write ← or_refuse invalid_write (v.validate area_write fields)
    request ← raising (write_area v.revalidate v.dumps tid ref write)
    ok (record { request = request; write = write })

  unfoldable pub prepare_endpoint :
      ℤ → Installation → UsageModel → ℤ → ℤ → Dict Text J → Result (Failure S) (Prepared W)
  prepare_endpoint tid i model d e fields = do
    require (contains heating_endpoint_usages model) (refused wrong_usage none)
    ref ← ref_of (endpoint i d e model)
    kind ← write_of model
    write ← or_refuse invalid_write (v.validate kind fields)
    request ← raising (write_endpoint v.revalidate v.dumps tid ref kind write)
    ok (record { request = request; write = write })

  abbrev pub heating_target :
      ℤ → Installation → Config → Target → Dict Text J → Result (Failure S) (Prepared W)
  heating_target tid i config (at_group g) fields = err (refused wrong_usage none)
  heating_target tid i config (at_area a) fields = do
    usage ← usage_name config (at_area a)
    prepare_area tid i usage a fields
  heating_target tid i config (at_endpoint d e) fields = do
    usage ← usage_name config (at_endpoint d e)
    model ← or_refuse wrong_usage (usages usage)
    prepare_endpoint tid i model d e fields

  -- `_heating_write`
  unfoldable pub prepare_heating :
      ℤ → Installation → Config → HeatingInput J → Result (Failure S) (Prepared W)
  unfolding usage_name prepare_area prepare_endpoint
  prepare_heating tid i config input = heating_target tid i config input.target input.fields

-- `_synced`
unfoldable pub synced_parts :
    {V T S : Type 0} → Cache V T → Result (Failure S) (Installation × Config)
synced_parts c = do
  i ← or_refuse not_synced c.installation
  config ← or_refuse not_synced c.config
  require (fresh c) (refused not_synced none)
  ok (i, config)

module _ {S : Type 0} (seconds : Seconds S) where
  -- The part of the interval that is still to wait.
  abbrev pub wait_of : S → S → S → S
  wait_of interval last now = seconds.minus interval (seconds.minus now last)

  -- Rounded up to the millisecond, never above the interval.
  abbrev pub retry_after : S → S → S
  retry_after interval wait =
      let rounded =
        seconds.divide (seconds.ceil (seconds.times wait (seconds.of_int (pos 1000)))) (pos 1000) in
      if seconds.lt interval rounded then interval else rounded

  -- `_count`: the time of the last send, after this one was counted.
  unfoldable pub count : S → S → Option S → Result (Failure S) (Option S)
  count interval now none = ok (some now)
  count interval now (some last) =
      let wait = wait_of interval last now in
      if seconds.lt (seconds.of_int (pos 0)) wait
      then err (refused rate_limited (some (retry_after interval wait)))
      else ok (some now)
