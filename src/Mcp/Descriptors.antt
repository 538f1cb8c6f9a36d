-- ===== src/Mcp/Descriptors.antt =====
-- The schema of a tool from Protobuf descriptors: `buildParameter`, `buildSchema` and `registerTool` of
-- src/mcp/tool_registry.cpp. Messages may refer to each other in a circle, so `build_schema` takes
-- a unit of fuel for each message inside another.
use nexus_rpc.Common.{ℕ, zero, suc, Bool, true, false, ◌||◌, if◌then◌else◌}
use nexus_rpc.Common.{Bytes, List, [], ◌∷◌, ◌++◌, Option, none, some}
use nexus_rpc.Common.ByteMap.{bytes_eq}
use nexus_rpc.Rpc.Message.{Status, ok_status, invalid_argument}
use nexus_rpc.Mcp.Tool.{
  Attributes, ToolParameter, ToolParameters, parameter, no_parameters, and_parameter,
}
use nexus_rpc.Mcp.Tool.{no_items, items, ToolDescriptor}
use nexus_rpc.Mcp.Registry.{ToolRegistry, to_snake_case, register_tool}
use nexus_rpc.Mcp.RegistryWords.{
  null_descriptors, number_type, integer_type, boolean_type, string_type, object_type, array_type,
}
use nexus_rpc.Mcp.RegistryWords.{
  base64, rfc_suffix, duration_suffix, timestamp_name, duration_name, double_name, float_name,
}
use nexus_rpc.Mcp.RegistryWords.{
  int64_name, uint64_name, int32_name, uint32_name, bool_name, string_name, bytes_name,
}

-- The values of `FieldDescriptor::Type` but for enumerations and messages.
pub data Scalar : Type 0 where
  double_field float_field int64_field uint64_field int32_field fixed64_field fixed32_field : Scalar
  bool_field string_field group_field bytes_field uint32_field sfixed32_field sfixed64_field :
      Scalar
  sint32_field sint64_field : Scalar

-- An enumeration has the names of its values, and a message its descriptor.
pub data FieldType (M : Type 0) : Type 0 where
  scalar_field : Scalar → FieldType M
  enum_field : List Bytes → FieldType M
  message_field : M → FieldType M

-- What a `FieldDescriptor` answers; an option that is not set is `none`.
pub record Field (M : Type 0) : Type 0 where
  pub json_name : Bytes
  pub param_description : Option Bytes
  pub param_required : Option Bool
  pub is_map : Bool
  pub is_repeated : Bool
  pub type : FieldType M

-- The message descriptors of the Protobuf library.
pub record Descriptors (M : Type 0) : Type 0 where
  pub full_name : M → Bytes
  pub fields : M → List (Field M)

-- What a method's descriptor and the one of its service answer.
pub record MethodDescriptor (M : Type 0) : Type 0 where
  pub service_name : Bytes
  pub method_name : Bytes
  pub tool_description : Option Bytes
  pub tool_enabled : Option Bool
  pub input_type : M
  pub output_type : M

abbrev pub or_else {ℓ} : {A : Type ℓ} → Option A → A → A
or_else none a = a
or_else (some b) a = b

-- The JSON type of a message, by its name.
unfoldable pub map_message_type : Bytes → Bytes
map_message_type name =
    if bytes_eq name timestamp_name
    then string_type
    else if bytes_eq name duration_name
    then string_type
    else if bytes_eq name double_name || bytes_eq name float_name
    then number_type
    else if bytes_eq name int64_name
        || bytes_eq name uint64_name
        || bytes_eq name int32_name
        || bytes_eq name uint32_name
    then integer_type
    else if bytes_eq name bool_name
    then boolean_type
    else if bytes_eq name string_name || bytes_eq name bytes_name
    then string_type
    else object_type

unfoldable pub scalar_type : Scalar → Bytes
scalar_type double_field = number_type
scalar_type float_field = number_type
scalar_type int64_field = integer_type
scalar_type uint64_field = integer_type
scalar_type int32_field = integer_type
scalar_type fixed64_field = integer_type
scalar_type fixed32_field = integer_type
scalar_type uint32_field = integer_type
scalar_type sfixed32_field = integer_type
scalar_type sfixed64_field = integer_type
scalar_type sint32_field = integer_type
scalar_type sint64_field = integer_type
scalar_type bool_field = boolean_type
scalar_type string_field = string_type
scalar_type bytes_field = string_type
scalar_type group_field = string_type

-- The attributes of a single scalar: bytes are encoded.
unfoldable pub scalar_attributes : Attributes → Scalar → Attributes
scalar_attributes a bytes_field = record a { content_encoding = base64 }
scalar_attributes a type = a

module _ {M : Type 0} where
  -- `getToolDescription`, `isToolEnabled`, `getParamDescription` and `isParamRequired`.
  abbrev pub get_tool_description : MethodDescriptor M → Bytes
  get_tool_description method =
      or_else method.tool_description (method.service_name ++ (46 ∷ method.method_name))

  abbrev pub is_tool_enabled : MethodDescriptor M → Bool
  is_tool_enabled method = or_else method.tool_enabled true

  abbrev pub get_param_description : Field M → Bytes
  get_param_description field = or_else field.param_description []

  abbrev pub is_param_required : Field M → Bool
  is_param_required field = or_else field.param_required false

  module _ (protobuf : Descriptors M) where
    unfoldable pub map_scalar_type : FieldType M → Bytes
    map_scalar_type (scalar_field type) = scalar_type type
    map_scalar_type (enum_field names) = string_type
    map_scalar_type (message_field message) = map_message_type (protobuf.full_name message)

    unfoldable pub map_field_type : Field M → Bytes
    map_field_type field =
        if field.is_map
        then object_type
        else if field.is_repeated
        then array_type
        else map_scalar_type field.type

    -- `param` before nested messages and elements are looked at.
    abbrev pub base_attributes : Field M → Attributes
    base_attributes field = record {
      name = field.json_name;
      type = map_field_type field;
      description = get_param_description field;
      required = is_param_required field;
      enum_values = none;
      content_encoding = [];
      default_value = [];
    }

    -- A single value: an enumeration, bytes, or a message, whose fields `nested` gives.
    abbrev pub single_message : Attributes → Bytes → Option ToolParameters → Option ToolParameter
    single_message a name nested =
        if bytes_eq name timestamp_name
        then some (
            parameter (record a { type = string_type; description = a.description ++ rfc_suffix })
              no_parameters no_items)
        else if bytes_eq name duration_name
        then some (
            parameter
              (record a { type = string_type; description = a.description ++ duration_suffix })
              no_parameters no_items)
        else if bytes_eq (map_message_type name) object_type
        then elim nested [
          | none ↦ none
          | some ps ↦ some (parameter (record a { type = map_message_type name }) ps no_items)
        ]
        else some (parameter (record a { type = map_message_type name }) no_parameters no_items)

    module _ (nested : M → Option ToolParameters) where
      unfoldable pub single_parameter : Attributes → FieldType M → Option ToolParameter
      single_parameter a (enum_field names) =
          some (parameter (record a { enum_values = some names }) no_parameters no_items)
      single_parameter a (scalar_field type) =
          some (parameter (scalar_attributes a type) no_parameters no_items)
      single_parameter a (message_field message) =
          single_message a (protobuf.full_name message) (nested message)

      -- The element schema of a repeated field.
      abbrev pub item_attributes : Field M → Option (List Bytes) → Attributes
      item_attributes field names = record {
        name = [];
        type = map_scalar_type field.type;
        description = get_param_description field;
        required = false;
        enum_values = names;
        content_encoding = [];
        default_value = [];
      }

      abbrev pub item_message : Attributes → Option ToolParameters → Option ToolParameter
      item_message a inside =
          if bytes_eq a.type object_type
          then elim inside [ none ↦ none | some ps ↦ some (parameter a ps no_items) ]
          else some (parameter a no_parameters no_items)

      unfoldable pub build_item : Field M → FieldType M → Option ToolParameter
      build_item field (enum_field names) =
          some (parameter (item_attributes field (some names)) no_parameters no_items)
      build_item field (message_field message) =
          item_message (item_attributes field none) (nested message)
      build_item field (scalar_field type) =
          some (parameter (item_attributes field none) no_parameters no_items)

      abbrev pub with_item : Attributes → Option ToolParameter → Option ToolParameter
      with_item a none = none
      with_item a (some item) = some (parameter a no_parameters (items item))

      -- `buildParameter`; `nested` is `buildSchema`.
      unfoldable pub build_parameter : Field M → Option ToolParameter
      build_parameter field =
          if field.is_map
          then some (parameter (base_attributes field) no_parameters no_items)
          else if field.is_repeated
          then with_item (base_attributes field) (build_item field field.type)
          else single_parameter (base_attributes field) field.type

      abbrev pub add_parameter :
          Option ToolParameter → Option ToolParameters → Option ToolParameters
      add_parameter none ps = none
      add_parameter (some p) none = none
      add_parameter (some p) (some ps) = some (and_parameter p ps)

      unfoldable pub build_parameters : List (Field M) → Option ToolParameters
      build_parameters [] = some no_parameters
      build_parameters (field ∷ fields) =
          add_parameter (build_parameter field) (build_parameters fields)

    -- `buildSchema` of a message; `none` when the fuel is used up.
    unfoldable pub build_schema : ℕ → M → Option ToolParameters
    build_schema zero message = none
    build_schema (suc fuel) message = build_parameters (build_schema fuel) (protobuf.fields message)

    abbrev pub tool_of : MethodDescriptor M → ToolParameters → ToolDescriptor M
    tool_of method schema = record {
      name = to_snake_case method.service_name ++ (46 ∷ to_snake_case method.method_name);
      service_name = to_snake_case method.service_name;
      method_name = method.method_name;
      description = get_tool_description method;
      input_schema = schema;
      request_descriptor = some method.input_type;
      response_descriptor = some method.output_type;
    }

    abbrev pub register_schema :
        MethodDescriptor M
        → ToolRegistry M
        → Option ToolParameters
        → Option (Status × ToolRegistry M)
    register_schema method tools none = none
    register_schema method tools (some schema) = some (register_tool (tool_of method schema) tools)

    -- `registerTool` of a method, by pointers that may be null.
    unfoldable pub register_method :
        ℕ → Option (MethodDescriptor M) → ToolRegistry M → Option (Status × ToolRegistry M)
    register_method fuel none tools =
        some (record { code = invalid_argument; message = null_descriptors }, tools)
    register_method fuel (some method) tools =
        if is_tool_enabled method
        then register_schema method tools (build_schema fuel method.input_type)
        else some (ok_status, tools)
