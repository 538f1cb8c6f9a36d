-- ===== src/Mcp/Registry.antt =====
-- `ToolRegistry` of src/mcp/tool_registry.cpp, without the registration from Protobuf descriptors.
use nexus_rpc.Common.{ℕ, ◌+◌, Bool, false, ◌&&◌, ◌||◌, if◌then◌else◌, leb}
use nexus_rpc.Common.{Bytes, List, [], ◌∷◌, ◌++◌, Option, none, some, length}
use nexus_rpc.Common.ByteMap.{find, set}
use nexus_rpc.Rpc.Decimal.{is_digit}
use nexus_rpc.Rpc.Message.{Status, ok_status, invalid_argument}
use nexus_rpc.Mcp.Tool.{ToolDescriptor}
use nexus_rpc.Mcp.RegistryWords.{empty_name, name_head, name_tail}

abbrev pub is_upper : ℕ → Bool
is_upper c = leb 65 c && leb c 90

abbrev pub is_lower : ℕ → Bool
is_lower c = leb 97 c && leb c 122

-- `followed_by_lower`.
abbrev pub starts_lower : Bytes → Bool
starts_lower [] = false
starts_lower (c ∷ s) = is_lower c

-- `i > 0 && (preceded_by_lower || followed_by_lower)`, from the character in front, if there is one.
abbrev pub starts_word : Option ℕ → Bytes → Bool
starts_word none rest = false
starts_word (some b) rest = is_lower b || is_digit b || starts_lower rest

-- The loop of `toSnakeCase`, behind a character if this is not the first one.
unfoldable pub snake_case : Option ℕ → Bytes → Bytes
snake_case before [] = []
snake_case before (c ∷ s) =
    let later = snake_case (some c) s in
    if is_upper c
    then (if starts_word before s then 95 ∷ (c + 32) ∷ later else (c + 32) ∷ later)
    else c ∷ later

unfoldable pub to_snake_case : Bytes → Bytes
to_snake_case input = snake_case none input

module _ (D : Type 0) where
  -- `tools_`.
  abbrev pub ToolRegistry : Type 0
  ToolRegistry = List (Bytes × ToolDescriptor D)

module _ {D : Type 0} where
  abbrev pub add_new :
      Bytes
      → ToolDescriptor D
      → ToolRegistry D
      → Option (ToolDescriptor D)
      → Status × ToolRegistry D
  add_new name tool tools (some other) =
      (record { code = invalid_argument; message = name_head ++ (name ++ name_tail) }, tools)
  add_new name tool tools none = (ok_status, set name tool tools)

  abbrev pub add_named : Bytes → ToolDescriptor D → ToolRegistry D → Status × ToolRegistry D
  add_named [] tool tools = (record { code = invalid_argument; message = empty_name }, tools)
  add_named (c ∷ s) tool tools = add_new (c ∷ s) tool tools (find (c ∷ s) tools)

  -- `registerTool` of a tool; `emplace` of a new name is a write.
  unfoldable pub register_tool : ToolDescriptor D → ToolRegistry D → Status × ToolRegistry D
  register_tool tool tools = add_named tool.name tool tools

  unfoldable pub list_tools : ToolRegistry D → List (ToolDescriptor D)
  list_tools [] = []
  list_tools ((name, tool) ∷ tools) = tool ∷ list_tools tools

  unfoldable pub find_tool : Bytes → ToolRegistry D → Option (ToolDescriptor D)
  find_tool name tools = find name tools

  -- `size`.
  unfoldable pub size : ToolRegistry D → ℕ
  size tools = length tools
