-- ===== src/Capture/Policy/Table.antt =====
-- tydomio/capture/policy.py: the table of the rules of each endpoint.
use tydomio.Base.{List, [], ◌∷◌, ◌++◌}
use tydomio.Base.Dict.{Dict}
use tydomio.Base.Text.{Text, codes}
use tydomio.Capture.Policy.Rules.{
  Rule, EndpointPolicy, policy_of, keep_rule, id_rule, name_rule, redact_rule, value_rule, matching,
  word, short_word, version, protocol, bool_value, int_value, number_value, enum_value,
}

abbrev descriptor : Text → List Rule
descriptor prefix =
    keep_rule (prefix ++ codes ".name") word
    ∷ keep_rule (prefix ++ codes ".type") word
    ∷ keep_rule (prefix ++ codes ".permission") word
    ∷ keep_rule (prefix ++ codes ".validity") word
    ∷ keep_rule (prefix ++ codes ".unit") (matching (codes "[A-Za-z0-9_%°/.-]{1,32}"))
    ∷ keep_rule (prefix ++ codes ".shared") bool_value
    ∷ keep_rule (prefix ++ codes ".min") number_value
    ∷ keep_rule (prefix ++ codes ".max") number_value
    ∷ keep_rule (prefix ++ codes ".step") number_value
    ∷ keep_rule (prefix ++ codes ".size") int_value
    ∷ keep_rule (prefix ++ codes ".enum_values[]") enum_value
    ∷ []

abbrev protocol_rules : Text → List Rule
protocol_rules prefix =
    keep_rule (prefix ++ codes ".protocol") protocol
    ∷ keep_rule (prefix ++ codes ".available") bool_value
    ∷ keep_rule (prefix ++ codes ".installed") bool_value
    ∷ keep_rule (prefix ++ codes ".ready") bool_value
    ∷ keep_rule (prefix ++ codes ".status") protocol
    ∷ keep_rule (prefix ++ codes ".installStatus") protocol
    ∷ []

abbrev cmeta : Text → List Rule
cmeta prefix =
    keep_rule (prefix ++ codes ".name") word
    ∷ keep_rule (prefix ++ codes ".permission") word
    ∷ descriptor (prefix ++ codes ".parameters[]")

abbrev data_rules : Text → List Rule
data_rules prefix =
    keep_rule (prefix ++ codes ".name") word
    ∷ keep_rule (prefix ++ codes ".validity") word
    ∷ value_rule (prefix ++ codes ".value")
    ∷ []

abbrev device_ids : List Rule
device_ids =
    id_rule (codes "[].id")
    ∷ id_rule (codes "[].endpoints[].id")
    ∷ keep_rule (codes "[].endpoints[].error") int_value
    ∷ keep_rule (codes "[].endpoints[].link.type") word
    ∷ keep_rule (codes "[].endpoints[].link.subtype") word
    ∷ id_rule (codes "[].endpoints[].link.id")
    ∷ []

abbrev area_ids : List Rule
area_ids = id_rule (codes "[].id") ∷ keep_rule (codes "[].error") int_value ∷ []

abbrev configs_file : EndpointPolicy
configs_file = record {
  rules =
      keep_rule (codes "version") version
      ∷ keep_rule (codes "version_application") version
      ∷ keep_rule (codes "os") version
      ∷ keep_rule (codes "old_tycam") bool_value
      ∷ keep_rule (codes "endpoints[].picto") word
      ∷ keep_rule (codes "endpoints[].first_usage") word
      ∷ keep_rule (codes "endpoints[].last_usage") word
      ∷ keep_rule (codes "endpoints[].skill") word
      ∷ keep_rule (codes "endpoints[].anticipation_start") bool_value
      ∷ keep_rule (codes "endpoints[].widget_behavior.tutorial_id")
          (matching (codes "[A-Za-z0-9_+]{1,64}"))
      ∷ keep_rule (codes "scenarios[].picto") word
      ∷ keep_rule (codes "scenarios[].type") word
      ∷ keep_rule (codes "groups[].picto") word
      ∷ keep_rule (codes "groups[].usage") word
      ∷ keep_rule (codes "groups[].group_all") bool_value
      ∷ keep_rule (codes "groups[].is_group_user") bool_value
      ∷ keep_rule (codes "areas[].picto") word
      ∷ keep_rule (codes "areas[].first_usage") word
      ∷ keep_rule (codes "areas[].last_usage") word
      ∷ keep_rule (codes "areas[].anticipation_start") bool_value
      ∷ keep_rule (codes "moments[].color") int_value
      ∷ keep_rule (codes "zigbee_networks[].is_connected") bool_value
      ∷ keep_rule (codes "zigbee_networks[].type") word
      ∷ id_rule (codes "endpoints[].id_device")
      ∷ id_rule (codes "endpoints[].id_endpoint")
      ∷ id_rule (codes "endpoints[].space_id")
      ∷ id_rule (codes "scenarios[].id")
      ∷ id_rule (codes "scenarios[].rule_id")
      ∷ id_rule (codes "groups[].id")
      ∷ id_rule (codes "areas[].id")
      ∷ id_rule (codes "moments[].id")
      ∷ id_rule (codes "moments[].rule_id")
      ∷ name_rule (codes "endpoints[].name") (codes "endpoint")
      ∷ name_rule (codes "scenarios[].name") (codes "scenario")
      ∷ name_rule (codes "groups[].name") (codes "group")
      ∷ name_rule (codes "areas[].name") (codes "area")
      ∷ name_rule (codes "moments[].name") (codes "moment")
      ∷ name_rule (codes "zigbee_networks[].name") (codes "zigbee")
      ∷ redact_rule (codes "date")
      ∷ redact_rule (codes "id_catalog")
      ∷ redact_rule (codes "zigbee_networks[].extended_pan_id")
      ∷ [];
  opaque = [];
}

abbrev info : EndpointPolicy
info = record {
  rules =
      keep_rule (codes "productName") (matching (codes "[A-Za-z0-9 ._-]{1,32}"))
        ∷ keep_rule (codes "apiMode") bool_value
        ∷ keep_rule (codes "config") version
        ∷ keep_rule (codes "bddStatus") int_value
        ∷ keep_rule (codes "local_claim.status") short_word
        ∷ keep_rule (codes "clock.source") short_word
        ∷ keep_rule (codes "bddEmpty") bool_value
        ∷ keep_rule (codes "pltRegistered") bool_value
        ∷ keep_rule (codes "updateAvailable") bool_value
        ∷ keep_rule (codes "passwordEmpty") bool_value
        ∷ keep_rule (codes "clock.summerOffset") short_word
        ∷ (protocol_rules (codes "protocols[]"))
      ++ (keep_rule (codes "mainReference") version
          ∷ keep_rule (codes "keyReference") version
          ∷ keep_rule (codes "zigbeeReference") version
          ∷ keep_rule (codes "bootReference") version
          ∷ keep_rule (codes "javaVersion") version
          ∷ keep_rule (codes "bootVersion") version
          ∷ keep_rule (codes "oryxVersion") version
          ∷ keep_rule (codes "*VersionSW") version
          ∷ keep_rule (codes "*VersionHW") version
          ∷ keep_rule (codes "*VersionStack") version
          ∷ keep_rule (codes "*\\.json") int_value
          ∷ keep_rule (codes "*\\.dat") int_value
          ∷ id_rule (codes "weather.*.devId")
          ∷ id_rule (codes "weather.*.epId")
          ∷ redact_rule (codes "mac")
          ∷ redact_rule (codes "mainId")
          ∷ redact_rule (codes "urlMediation")
          ∷ redact_rule (codes "maintenance.id")
          ∷ redact_rule (codes "geoloc.*")
          ∷ redact_rule (codes "clock.clock")
          ∷ redact_rule (codes "clock.timezone")
          ∷ redact_rule (codes "local_claim.lastAccess")
          ∷ redact_rule (codes "moments.suspend.to")
          ∷ []);
  opaque = codes "geoloc" ∷ codes "weather" ∷ [];
}

-- `POLICY`
abbrev pub policy : Dict Text EndpointPolicy
policy =
    (codes "/configs/file", configs_file)
    ∷ (
      codes "/devices/meta",
      policy_of ((device_ids) ++ (descriptor (codes "[].endpoints[].metadata[]"))) [],
    )
    ∷ (
      codes "/devices/cmeta",
      policy_of ((device_ids) ++ (cmeta (codes "[].endpoints[].cmetadata[]"))) [],
    )
    ∷ (
      codes "/devices/data",
      policy_of ((device_ids) ++ (data_rules (codes "[].endpoints[].data[]"))) [],
    )
    ∷ (codes "/areas/meta", policy_of ((area_ids) ++ (descriptor (codes "[].metadata[]"))) [])
    ∷ (codes "/areas/cmeta", policy_of ((area_ids) ++ (cmeta (codes "[].cmetadata[]"))) [])
    ∷ (codes "/areas/data", policy_of ((area_ids) ++ (data_rules (codes "[].data[]"))) [])
    ∷ (
      codes "/groups/file",
      policy_of
          (id_rule (codes "groups[].id")
            ∷ id_rule (codes "groups[].devices[].id")
            ∷ id_rule (codes "groups[].devices[].endpoints[].id")
            ∷ id_rule (codes "groups[].areas[].id")
            ∷ [])
          [],
    )
    ∷ (
      codes "/scenarios/file",
      policy_of
          (id_rule (codes "scn[].id")
            ∷ id_rule (codes "scn[].grpAct[].id")
            ∷ keep_rule (codes "scn[].grpAct[].state[].name") word
            ∷ keep_rule (codes "scn[].grpAct[].state[].value") enum_value
            ∷ [])
          [],
    )
    ∷ (
      codes "/moments/file",
      policy_of
          (id_rule (codes "prog[].id")
            ∷ id_rule (codes "event[].progId")
            ∷ id_rule (codes "rdv[].id")
            ∷ id_rule (codes "mom[].id")
            ∷ [])
          (codes "prog[]" ∷ codes "rdv[]" ∷ codes "mom[]" ∷ codes "event[]" ∷ []),
    )
    ∷ (codes "/protocols", policy_of (protocol_rules (codes "[]")) [])
    ∷ (codes "/info", info)
    ∷ []
