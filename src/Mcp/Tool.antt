-- ===== src/Mcp/Tool.antt =====
-- Tools and their parameters, from include/nexus/mcp/tool_registry.h, and the JSON Schema that
-- src/mcp/mcp_server.cpp builds from them.
use nexus_rpc.Common.{Bool, if◌then◌else◌, Bytes, List, [], ◌∷◌, Option, none, some}
use nexus_rpc.Json.Value.{
  JsonValue, Members, Elements, string, object, array, no_members, no_elements, element, set_member,
}
use nexus_rpc.Mcp.Words.{
  name_key, type_key, description_key, object_text, properties_key, required_key, input_schema_key,
}
use nexus_rpc.Mcp.Words.{content_encoding_key, enum_key, items_key}

-- The fields of a `ToolParameter` but `properties` and `items`.
pub record Attributes : Type 0 where
  pub name : Bytes
  pub type : Bytes
  pub description : Bytes
  pub required : Bool
  pub enum_values : Option (List Bytes)
  pub content_encoding : Bytes
  pub default_value : Bytes

mutual
  pub data ToolParameter : Type 0 where
    parameter : Attributes → ToolParameters → Items → ToolParameter

  pub data ToolParameters : Type 0 where
    no_parameters : ToolParameters
    and_parameter : ToolParameter → ToolParameters → ToolParameters

  -- `items`, which may be null.
  pub data Items : Type 0 where
    no_items : Items
    items : ToolParameter → Items

abbrev pub attributes : ToolParameter → Attributes
attributes (parameter a ps i) = a

-- `ToolDescriptor`; `D` are the descriptors of Protobuf messages, by pointers that may be null.
pub record ToolDescriptor (D : Type 0) : Type 0 where
  pub name : Bytes
  pub service_name : Bytes
  pub method_name : Bytes
  pub description : Bytes
  pub input_schema : ToolParameters
  pub request_descriptor : Option D
  pub response_descriptor : Option D

abbrev pub strings : List Bytes → Elements
strings [] = no_elements
strings (s ∷ ss) = element (string s) (strings ss)

-- The names that are pushed for the required parameters.
unfoldable pub required_names : ToolParameters → Elements
required_names no_parameters = no_elements
required_names (and_parameter p ps) =
    let later = required_names ps in
    if (attributes p).required then element (string (attributes p).name) later else later

-- A member whose text is not empty, and one whose array is not empty.
abbrev pub set_text : Bytes → Bytes → Members → Members
set_text key [] ms = ms
set_text key (c ∷ s) ms = set_member key (string (c ∷ s)) ms

abbrev pub set_elements : Bytes → Elements → Members → Members
set_elements key no_elements ms = ms
set_elements key (element v es) ms = set_member key (array (element v es)) ms

-- The members of a property but those for nested properties and items.
unfoldable pub attribute_members : Attributes → Members
attribute_members a =
    let type = set_member type_key (string a.type) no_members in
    let described = set_text description_key a.description type in
    let encoded = set_text content_encoding_key a.content_encoding described in
    elim a.enum_values [
      | none ↦ encoded
      | some values ↦ set_member enum_key (array (strings values)) encoded
    ]

unfoldable mutual
  pub build_property_schema : ToolParameter → JsonValue
  build_property_schema (parameter a ps i) =
      object (set_items i (set_nested ps (attribute_members a)))

  -- The members for nested properties, if there are any.
  pub set_nested : ToolParameters → Members → Members
  set_nested no_parameters ms = ms
  set_nested (and_parameter p ps) ms =
      let properties =
        set_properties ps (set_member (attributes p).name (build_property_schema p) no_members) in
      set_elements required_key (required_names (and_parameter p ps))
        (set_member properties_key (object properties) ms)

  -- The loop that sets a property for each parameter.
  pub set_properties : ToolParameters → Members → Members
  set_properties no_parameters ms = ms
  set_properties (and_parameter p ps) ms =
      set_properties ps (set_member (attributes p).name (build_property_schema p) ms)

  pub set_items : Items → Members → Members
  set_items no_items ms = ms
  set_items (items p) ms = set_member items_key (build_property_schema p) ms

module _ {D : Type 0} where
  unfoldable pub build_tool_schema : ToolDescriptor D → JsonValue
  build_tool_schema tool =
      let head =
        set_member description_key (string tool.description)
          (set_member name_key (string tool.name) no_members) in
      let type = set_member type_key (string object_text) no_members in
      let properties = object (set_properties tool.input_schema no_members) in
      let schema =
        set_elements required_key (required_names tool.input_schema)
          (set_member properties_key properties type) in
      object (set_member input_schema_key (object schema) head)
