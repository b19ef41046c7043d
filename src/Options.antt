-- ===== src/Options.antt =====
-- The options of a plugin: PluginOption of api/v1alpha1/plugindefinition_types.go and
-- PluginOptionValue of api/v1alpha1/plugin_types.go. How the values are merged is in Options/Merge,
-- which values the central cluster adds in Options/Values, and what the admission webhook
-- demands of them in Options/Validate.
pub mod Merge
pub mod Values
pub mod Validate
pub mod Override
pub mod Sound
mod Examples
use greenhouse.Prelude.{String, Bool, Option}
use greenhouse.Platform.{Fetched}

pub record SecretKeyReference : Type 0 where
  pub name : String
  pub key : String

-- `L` is a metav1.LabelSelector.
pub record ExternalValueSource (L : Type 0) : Type 0 where
  pub kind : String
  pub name : String
  pub selector : Option L
  pub expression : String

pub record PluginValueFromSource (L : Type 0) : Type 0 where
  pub secret : Option SecretKeyReference
  pub ref : Option (ExternalValueSource L)

-- apiextensionsv1.JSON is its raw text.
pub record PluginOptionValue (L : Type 0) : Type 0 where
  pub name : String
  pub value : Option String
  pub value_from : Option (PluginValueFromSource L)
  pub expression : Option String

pub record PluginOption : Type 0 where
  pub name : String
  pub default : Option String
  pub required : Bool
  pub type : String
  pub regex : String

abbrev pub type_string : String
type_string = "string"

abbrev pub type_secret : String
type_secret = "secret"

abbrev pub type_bool : String
type_bool = "bool"

abbrev pub type_int : String
type_int = "int"

abbrev pub type_list : String
type_list = "list"

abbrev pub type_map : String
type_map = "map"

-- The type of what encoding/json decodes into an `any`.
pub data JsonType : Type 0 where
  json_null json_bool json_number json_string json_list json_map : JsonType

-- encoding/json, as far as it is called.
pub record JsonCodec (E : Type 0) : Type 0 where
  pub decode_any : String → Fetched JsonType E  -- json.Unmarshal into an any
  pub decode_string : String → Fetched String E  -- into a string
  pub decode_bool : String → Option E  -- into a bool, and so on: the error
  pub decode_int : String → Option E
  pub decode_list : String → Option E
  pub decode_map : String → Option E
  pub encode_string : String → Fetched String E  -- json.Marshal
