-- ===== src/Mcp/Circles.antt =====
-- Messages that hold each other in a circle have no schema.
use nexus_rpc.Common.{ℕ, zero, suc, ◌≡◌, refl, ap, ◌∙◌, arith, Bool, true, false, if◌then◌else◌}
use nexus_rpc.Common.{Bytes, List, [], ◌∷◌, ◌++◌, Option, none, some}
use nexus_rpc.Mcp.Tool.{Attributes, ToolParameter, ToolParameters}
use nexus_rpc.Mcp.RegistryWords.{object_type}
use nexus_rpc.Mcp.Descriptors.{
  Field, Descriptors, message_field, map_scalar_type, map_message_type, base_attributes,
  single_message, single_parameter, item_attributes, item_message, build_item, with_item,
}
use nexus_rpc.Mcp.Descriptors.{build_parameter, add_parameter, build_parameters, build_schema}

both-none {ℓ} :
    {A : Type ℓ} (b : Bool) (x y : Option A) → x ≡ none → y ≡ none → (if b then x else y) ≡ none
both-none true x y h k = h
both-none false x y h k = k

neither-some {ℓ} :
    {A : Type ℓ} (b : Bool) (x y : Option A) → b ≡ false → y ≡ none → (if b then x else y) ≡ none
neither-some b x y h k = rw h k

module _ {M : Type 0} (protobuf : Descriptors M) where
  -- A field that is no map and holds a message in `P` that is expanded.
  pub record GoesOn (P : M → Type 0) (message : M) : Type 0 where
    pub before : List (Field M)
    pub field : Field M
    pub after : List (Field M)
    pub inside : M
    pub split : protobuf.fields message ≡ before ++ (field ∷ after)
    pub no_map : field.is_map ≡ false
    pub holds : field.type ≡ message_field inside
    pub expanded : map_message_type (protobuf.full_name inside) ≡ object_type
    pub again : P inside

  module _ (nested : M → Option ToolParameters) where
    single_message-none :
        (a : Attributes) (name : Bytes)
        → map_message_type name ≡ object_type
        → single_message protobuf a name none ≡ none
    unfolding map_message_type
    single_message-none a name h = ground (arith, h)

    item_message-none :
        (a : Attributes) → a.type ≡ object_type → item_message protobuf nested a none ≡ none
    item_message-none a h = ground (arith, h)

    single_parameter-none :
        (a : Attributes) (inside : M)
        → map_message_type (protobuf.full_name inside) ≡ object_type
        → nested inside ≡ none
        → single_parameter protobuf nested a (message_field inside) ≡ none
    unfolding single_parameter
    single_parameter-none a inside h e =
        ap (single_message protobuf a (protobuf.full_name inside)) e
        ∙ single_message-none a (protobuf.full_name inside) h

    build_item-none :
        (field : Field M) (inside : M)
        → field.type ≡ message_field inside
        → map_message_type (protobuf.full_name inside) ≡ object_type
        → nested inside ≡ none
        → build_item protobuf nested field (message_field inside) ≡ none
    unfolding build_item map_scalar_type
    build_item-none field inside t h e =
        ap (item_message protobuf nested (item_attributes protobuf nested field none)) e
        ∙ item_message-none (item_attributes protobuf nested field none)
            (ap (map_scalar_type protobuf) t ∙ h)

    build_parameter-none :
        (field : Field M) (inside : M)
        → field.is_map ≡ false
        → field.type ≡ message_field inside
        → map_message_type (protobuf.full_name inside) ≡ object_type
        → nested inside ≡ none
        → build_parameter protobuf nested field ≡ none
    unfolding build_parameter
    build_parameter-none field inside m t h e =
        let a = base_attributes protobuf field in
        let item : with_item protobuf nested a (build_item protobuf nested field field.type)
            ≡ none =
          ap (λ k. with_item protobuf nested a (build_item protobuf nested field k)) t
          ∙ ap (with_item protobuf nested a) (build_item-none field inside t h e) in
        let single : single_parameter protobuf nested a field.type ≡ none =
          ap (single_parameter protobuf nested a) t ∙ single_parameter-none a inside h e in
        neither-some field.is_map _ _ m (both-none field.is_repeated _ _ item single)

    build_parameters-none :
        (before after : List (Field M)) (field : Field M)
        → build_parameter protobuf nested field ≡ none
        → build_parameters protobuf nested (before ++ (field ∷ after)) ≡ none
    unfolding build_parameters
    build_parameters-none [] after field h =
        ap (λ p. add_parameter protobuf nested p (build_parameters protobuf nested after)) h
    build_parameters-none (first ∷ before) after field h =
        ap (add_parameter protobuf nested (build_parameter protobuf nested first))
          (build_parameters-none before after field h)
        ∙ none_added (build_parameter protobuf nested first)
      where
        none_added : (p : Option ToolParameter) → add_parameter protobuf nested p none ≡ none
        none_added none = refl
        none_added (some p) = refl

  -- `buildSchema` does not come to an end on messages that hold each other in a circle: if each message
  -- in `P` has a field, no map, of a message in `P` that is expanded, no fuel is enough for them.
  pub build_schema-none :
      (P : M → Type 0)
      → ((message : M) → P message → GoesOn P message)
      → (fuel : ℕ) (message : M) → P message
      → build_schema protobuf fuel message ≡ none
  unfolding build_schema
  build_schema-none P circle zero message p = refl
  build_schema-none P circle (suc fuel) message p =
      let g = circle message p in
      let inside = build_schema-none P circle fuel g.inside g.again in
      ap (build_parameters protobuf (build_schema protobuf fuel)) g.split
      ∙ build_parameters-none (build_schema protobuf fuel) g.before g.after g.field (
          build_parameter-none (build_schema protobuf fuel) g.field g.inside g.no_map g.holds
            g.expanded inside)
