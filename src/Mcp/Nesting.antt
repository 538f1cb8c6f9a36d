-- ===== src/Mcp/Nesting.antt =====
-- When `buildSchema` comes to an end: messages that are nested without a circle, and those that are not.
use nexus_rpc.Common.{ℕ, zero, suc, ◌<◌, ◌≢◌, refl, arith, Bool, true, false, if◌then◌else◌}
use nexus_rpc.Common.{Bytes, List, [], ◌∷◌, Option, none, some, All}
use nexus_rpc.Mcp.Tool.{Attributes, ToolParameter, ToolParameters}
use nexus_rpc.Mcp.Descriptors.{
  FieldType, scalar_field, Field, Descriptors, message_field, enum_field, base_attributes,
  single_message, single_parameter, item_attributes, item_message, build_item, with_item,
}
use nexus_rpc.Mcp.Descriptors.{build_parameter, add_parameter, build_parameters, build_schema}

either-some {ℓ} :
    {A : Type ℓ} (b : Bool) (x y : Option A) → x ≢ none → y ≢ none → (if b then x else y) ≢ none
either-some true x y h k = h
either-some false x y h k = k

module _ {M : Type 0} (protobuf : Descriptors M) where
  -- The messages whose fields `buildParameter` goes into for this field.
  abbrev pub Inside : FieldType M → (M → Type 0) → Type 0
  Inside (message_field message) P = P message
  Inside (scalar_field type) P = Unit
  Inside (enum_field names) P = Unit

  -- A rank of messages that falls with each field of a message type.
  pub record IsRanked (rank : M → ℕ) : Type 0 where
    pub falls :
        (message : M)
        → All
            (λ field. Inside field.type (λ inside. rank inside < rank message))
            (protobuf.fields message)

  module _ (nested : M → Option ToolParameters) where
    single_message-some :
        (a : Attributes) (name : Bytes) (inside : Option ToolParameters)
        → inside ≢ none
        → single_message protobuf a name inside ≢ none
    single_message-some a name none h e = h refl
    single_message-some a name (some ps) h e = ground (arith, e)

    item_message-some :
        (a : Attributes) (inside : Option ToolParameters)
        → inside ≢ none
        → item_message protobuf nested a inside ≢ none
    item_message-some a none h e = h refl
    item_message-some a (some ps) h e = ground (arith, e)

    single_parameter-some :
        (a : Attributes) (type : FieldType M)
        → Inside type (λ inside. nested inside ≢ none)
        → single_parameter protobuf nested a type ≢ none
    unfolding single_parameter
    single_parameter-some a (scalar_field type) h e = cc
    single_parameter-some a (enum_field names) h e = cc
    single_parameter-some a (message_field message) h e =
        single_message-some a (protobuf.full_name message) (nested message) h e

    build_item-some :
        (field : Field M) (type : FieldType M)
        → Inside type (λ inside. nested inside ≢ none)
        → build_item protobuf nested field type ≢ none
    unfolding build_item
    build_item-some field (scalar_field type) h e = cc
    build_item-some field (enum_field names) h e = cc
    build_item-some field (message_field message) h e =
        item_message-some (item_attributes protobuf nested field none) (nested message) h e

    with_item-some :
        (a : Attributes) (p : Option ToolParameter)
        → p ≢ none
        → with_item protobuf nested a p ≢ none
    with_item-some a none h e = h refl
    with_item-some a (some p) h e = cc

    build_parameter-some :
        (field : Field M)
        → Inside field.type (λ inside. nested inside ≢ none)
        → build_parameter protobuf nested field ≢ none
    unfolding build_parameter
    build_parameter-some field h =
        either-some field.is_map _ _ (λ e. cc)
          (either-some field.is_repeated _ _
            (with_item-some (base_attributes protobuf field)
              (build_item protobuf nested field field.type) (build_item-some field field.type h))
            (single_parameter-some (base_attributes protobuf field) field.type h))

    add_parameter-some :
        (p : Option ToolParameter) (ps : Option ToolParameters)
        → p ≢ none
        → ps ≢ none
        → add_parameter protobuf nested p ps ≢ none
    add_parameter-some none ps h k e = h refl
    add_parameter-some (some p) none h k e = k refl
    add_parameter-some (some p) (some ps) h k e = cc

    build_parameters-some :
        (fields : List (Field M))
        → All (λ field. Inside field.type (λ inside. nested inside ≢ none)) fields
        → build_parameters protobuf nested fields ≢ none
    unfolding build_parameters
    build_parameters-some [] h = λ e. cc
    build_parameters-some (field ∷ fields) h =
        add_parameter-some (build_parameter protobuf nested field)
          (build_parameters protobuf nested fields) (build_parameter-some field h.0)
          (build_parameters-some fields h.1)

  Inside-map :
      (P Q : M → Type 0) (type : FieldType M)
      → ((inside : M) → P inside → Q inside)
      → Inside type P
      → Inside type Q
  Inside-map P Q (scalar_field type) f h = tt
  Inside-map P Q (enum_field names) f h = tt
  Inside-map P Q (message_field message) f h = f message h

  All-map :
      (P Q : M → Type 0) (fields : List (Field M))
      → ((inside : M) → P inside → Q inside)
      → All (λ field. Inside field.type P) fields
      → All (λ field. Inside field.type Q) fields
  All-map P Q [] f h = tt
  All-map P Q (field ∷ fields) f h = (Inside-map P Q field.type f h.0, All-map P Q fields f h.1)

  -- `buildSchema` comes to an end on messages that are nested without a circle: if a rank falls from
  -- each message to the messages of its fields, fuel beyond the rank is enough.
  pub build_schema-some :
      (rank : M → ℕ)
      → IsRanked rank
      → (fuel : ℕ) (message : M) → rank message < fuel
      → build_schema protobuf fuel message ≢ none
  unfolding build_schema
  build_schema-some rank r zero message h = absurd (omega arith)
  build_schema-some rank r (suc fuel) message h =
      build_parameters-some (build_schema protobuf fuel) (protobuf.fields message) (
        All-map (λ inside. rank inside < rank message)
          (λ inside. build_schema protobuf fuel inside ≢ none) (protobuf.fields message)
          (λ inside k. build_schema-some rank r fuel inside (omega arith)) (r.falls message))
