-- ===== src/Usages/Fields.antt =====
-- tydomio/model/usages: the fields of each usage. A member of an enum is its text.
use tydomio.Base.{Option, none, some, List, [], ◌∷◌, ◌++◌}
use tydomio.Base.Text.{Text, codes}
use tydomio.Usages.{
  UsageModel, area, boiler, conso, re2020_control_boiler, sensor_sun, shutter, weather,
}

-- The type of a value. A value that is not in the enum of its field is kept as a text.
pub data ValueType : Type 0 where
  number flag text : ValueType
  one_of : List Text → ValueType

-- A field of a `UsageModel`: its `alias`, its type, its unit and its description.
pub record FieldInfo : Type 0 where
  pub alias : Text
  pub value_type : ValueType
  pub unit : Option Text
  pub description : Option Text

abbrev pub field : Text → ValueType → Option Text → Option Text → FieldInfo
field alias value_type unit description = record {
  alias = alias;
  value_type = value_type;
  unit = unit;
  description = description;
}

-- `IndoorHumidity`
abbrev pub indoor_humidity : FieldInfo
indoor_humidity =
    field (codes "hygroIn") number (some (codes "%")) (some (codes "Indoor relative humidity"))

abbrev pub authorization : List Text
authorization = codes "HEATING" ∷ codes "STOP" ∷ []

abbrev pub comfort_mode : List Text
comfort_mode = codes "HEATING" ∷ codes "STOP" ∷ []

abbrev pub local_mode : List Text
local_mode = codes "ABSENCE" ∷ codes "ANTI_FROST" ∷ codes "NORMAL" ∷ codes "STOP" ∷ []

abbrev pub thermic_level : List Text
thermic_level = codes "ANTI_FROST" ∷ codes "STOP" ∷ []

abbrev pub use_mode : List Text
use_mode = codes "MANUAL" ∷ codes "OVERRIDE" ∷ codes "SCHED" ∷ []

abbrev pub thermic_zone_fields : List FieldInfo
thermic_zone_fields =
    field (codes "ambientTemperature") number (some (codes "degC")) none
    ∷ field (codes "authorization") (one_of authorization) none none
    ∷ field (codes "heatSetpoint") number (some (codes "degC")) none
    ∷ field (codes "localMode") (one_of local_mode) none none
    ∷ field (codes "maxHeatSetpoint") number (some (codes "degC")) none
    ∷ field (codes "maxSetpoint") number (some (codes "degC")) none
    ∷ field (codes "minHeatSetpoint") number (some (codes "degC")) none
    ∷ field (codes "minSetpoint") number (some (codes "degC")) none
    ∷ field (codes "openingDetected") flag none none
    ∷ field (codes "overrideRemainingTime") number (some (codes "minute")) none
    ∷ field (codes "overrideSetpoint") number (some (codes "degC")) none
    ∷ field (codes "overrideThermicLevel") (one_of thermic_level) none none
    ∷ field (codes "setpoint") number (some (codes "degC")) none
    ∷ field (codes "thermicLevel") (one_of thermic_level) none none
    ∷ field (codes "useMode") (one_of use_mode) none none
    ∷ []

abbrev pub area_fields : List FieldInfo
area_fields =
    thermic_zone_fields
    ++ (field (codes "anticipCoeff") number (some (codes "min/deg")) none ∷ indoor_humidity ∷ [])

abbrev pub boiler_fields : List FieldInfo
boiler_fields =
    thermic_zone_fields
    ++ (field (codes "batteryCmdDefect") flag none none
        ∷ field (codes "loadSheddingOn") flag none none
        ∷ field (codes "productionDefect") flag none none
        ∷ field (codes "tempSensorDefect") flag none none
        ∷ field (codes "tempSensorOpenCirc") flag none none
        ∷ field (codes "tempSensorShortCut") flag none none
        ∷ field (codes "temperature") number (some (codes "degC")) none
        ∷ [])

abbrev pub conso_fields : List FieldInfo
conso_fields =
    field (codes "energyIndexTi1") number (some (codes "Wh")) none
    ∷ field (codes "energyInstantTi1I") number (some (codes "A")) none
    ∷ field (codes "energyInstantTi1I_Max") number (some (codes "A")) none
    ∷ field (codes "energyInstantTi1I_Min") number (some (codes "A")) none
    ∷ field (codes "energyInstantTi1P") number (some (codes "W")) none
    ∷ field (codes "energyInstantTi1P_Max") number (some (codes "W")) none
    ∷ field (codes "energyInstantTi1P_Min") number (some (codes "W")) none
    ∷ field (codes "energyInstantTotElec") number (some (codes "A")) none
    ∷ field (codes "energyInstantTotElec_Max") number (some (codes "A")) none
    ∷ field (codes "energyInstantTotElec_Min") number (some (codes "A")) none
    ∷ field (codes "energyInstantTotElecP") number (some (codes "W")) none
    ∷ field (codes "energyInstantTotElec_P_Max") number (some (codes "W")) none
    ∷ field (codes "energyInstantTotElec_P_Min") number (some (codes "W")) none
    ∷ field (codes "energyScaleTi1I_Max") number (some (codes "A")) none
    ∷ field (codes "energyScaleTi1I_Min") number (some (codes "A")) none
    ∷ field (codes "energyScaleTi1P_Max") number (some (codes "W")) none
    ∷ field (codes "energyScaleTi1P_Min") number (some (codes "W")) none
    ∷ field (codes "energyScaleTotElec_Max") number (some (codes "A")) none
    ∷ field (codes "energyScaleTotElec_Min") number (some (codes "A")) none
    ∷ field (codes "energyScaleTotElec_P_Max") number (some (codes "W")) none
    ∷ field (codes "energyScaleTotElec_P_Min") number (some (codes "W")) none
    ∷ field (codes "energyTotIndexWatt") number (some (codes "Wh")) none
    ∷ field (codes "jobsMP") number none none
    ∷ field (codes "softPlan") text none none
    ∷ field (codes "softVersion") text none none
    ∷ []

abbrev pub shutter_cmd : List Text
shutter_cmd = codes "DOWN" ∷ codes "STOP" ∷ codes "UP" ∷ []

abbrev pub re2020_control_boiler_fields : List FieldInfo
re2020_control_boiler_fields =
    field (codes "ambientTemperature") number (some (codes "degC")) none
    ∷ field (codes "battLevel") number none none
    ∷ indoor_humidity
    ∷ field (codes "isReference") flag none none
    ∷ field (codes "jobs") number none none
    ∷ field (codes "jobsMP") number none none
    ∷ field (codes "jobsRM") number none none
    ∷ field (codes "nbRFActuators") number none none
    ∷ field (codes "selectedProg") number none none
    ∷ field (codes "shutterCmd") (one_of shutter_cmd) none none
    ∷ field (codes "softPlan") text none none
    ∷ field (codes "softVersion") text none none
    ∷ field (codes "synchroRadio") flag none none
    ∷ field (codes "uid") text none none
    ∷ []

abbrev pub sensor_sun_fields : List FieldInfo
sensor_sun_fields =
    field (codes "battDefect") flag none none
    ∷ field (codes "configSensor") number none none
    ∷ field (codes "configTemp") number none none
    ∷ field (codes "lightPower") number (some (codes "W/m2")) none
    ∷ []

abbrev pub position_cmd : List Text
position_cmd =
    codes "DOWN"
    ∷ codes "DOWN_SLOW"
    ∷ codes "FAVORIT1"
    ∷ codes "FAVORIT2"
    ∷ codes "STOP"
    ∷ codes "UP"
    ∷ codes "UP_SLOW"
    ∷ []

abbrev pub shutter_model_fields : List FieldInfo
shutter_model_fields =
    field (codes "battDefect") flag none none
    ∷ field (codes "downDefect") flag none none
    ∷ field (codes "intrusion") flag none none
    ∷ field (codes "obstacleDefect") flag none none
    ∷ field (codes "onFavPos") flag none none
    ∷ field (codes "position") number (some (codes "%")) (some (codes "0 = closed, 100 = open"))
    ∷ field (codes "thermicDefect") flag none none
    ∷ field (codes "upDefect") flag none none
    ∷ []

abbrev pub weather_condition : List Text
weather_condition =
    codes "DAY_BROKEN_CLOUDS"
    ∷ codes "DAY_CLEAR_SKY"
    ∷ codes "DAY_FEW_CLOUDS"
    ∷ codes "DAY_MIST"
    ∷ codes "DAY_RAIN"
    ∷ codes "DAY_SCATTERED_CLOUDS"
    ∷ codes "DAY_SHOWER_RAIN"
    ∷ codes "DAY_SNOW"
    ∷ codes "DAY_THUNDERSTORM"
    ∷ codes "NIGHT_BROKEN_CLOUDS"
    ∷ codes "NIGHT_CLEAR_SKY"
    ∷ codes "NIGHT_FEW_CLOUDS"
    ∷ codes "NIGHT_MIST"
    ∷ codes "NIGHT_RAIN"
    ∷ codes "NIGHT_SCATTERED_CLOUDS"
    ∷ codes "NIGHT_SHOWER_RAIN"
    ∷ codes "NIGHT_SNOW"
    ∷ codes "NIGHT_THUNDERSTORM"
    ∷ codes "UNAVAILABLE"
    ∷ []

abbrev pub weather_fields : List FieldInfo
weather_fields =
    field (codes "currentPower") number (some (codes "Wh/m2")) none
    ∷ field (codes "dailyPower") number (some (codes "Wh/m2")) none
    ∷ field (codes "maxDailyOutTemp") number (some (codes "degC"))
        (some (codes "Highest outdoor temperature of the day"))
    ∷ field (codes "outTemperature") number (some (codes "degC"))
        (some (codes "Outdoor temperature"))
    ∷ field (codes "weather") (one_of weather_condition) none none
    ∷ []

-- `model_fields`, without `unknown`, which has no alias.
abbrev pub model_fields : UsageModel → List FieldInfo
model_fields area = area_fields
model_fields boiler = boiler_fields
model_fields conso = conso_fields
model_fields re2020_control_boiler = re2020_control_boiler_fields
model_fields sensor_sun = sensor_sun_fields
model_fields shutter = shutter_model_fields
model_fields weather = weather_fields
