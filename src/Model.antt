-- ===== src/Model.antt =====
-- tydomio/model/data.py and tydomio/model/config.py: the data of the Tydom. `V` is the type of a data
-- value, `float | str | None`, which the library hands on without reading it.
use tydomio.Base.{Bool, Option, List}
use tydomio.Base.Int.{ℤ}
use tydomio.Base.Text.{Text}

pub record Data (V : Type 0) : Type 0 where
  pub name : Text
  pub validity : Text
  pub value : V

pub record Endpoint (V : Type 0) : Type 0 where
  pub id : ℤ
  pub error : ℤ
  pub fields : List (Data V)

pub record ModelItem (V : Type 0) : Type 0 where
  pub id : ℤ
  pub endpoints : List (Endpoint V)

abbrev pub DevicesData : Type 0 → Type 0
DevicesData V = List (ModelItem V)

abbrev pub AreasData : Type 0 → Type 0
AreasData V = List (Endpoint V)

pub record ConfigEndpoint : Type 0 where
  pub id_endpoint : ℤ
  pub first_usage : Text
  pub skill : Text
  pub id_device : ℤ
  pub name : Text
  pub anticipation_start : Bool
  pub space_id : Option Text
  pub picto : Text
  pub last_usage : Text
  pub tutorial_id : Text

pub record Moment : Type 0 where
  pub rule_id : Text
  pub color : ℤ
  pub name : Text
  pub id : ℤ

pub record Group : Type 0 where
  pub group_all : Bool
  pub usage : Text
  pub name : Text
  pub id : ℤ
  pub is_group_user : Bool
  pub picto : Text

pub record Area : Type 0 where
  pub first_usage : Text
  pub name : Text
  pub id : ℤ
  pub anticipation_start : Bool
  pub picto : Text
  pub last_usage : Text

pub record Scenario : Type 0 where
  pub rule_id : Text
  pub name : Text
  pub id : ℤ
  pub type : Text
  pub picto : Text

pub record ZigbeeNetwork : Type 0 where
  pub is_connected : Bool
  pub extended_pan_id : Text
  pub name : Text
  pub type : Text

pub record Config : Type 0 where
  pub date : ℤ
  pub version_application : Text
  pub endpoints : List ConfigEndpoint
  pub old_tycam : Bool
  pub moments : List Moment
  pub os : Text
  pub groups : List Group
  pub areas : List Area
  pub scenarios : List Scenario
  pub id_catalog : Text
  pub version : Text
  pub zigbee_networks : List ZigbeeNetwork
