-- ===== src/Mcp/RegistryLaws.antt =====
-- The registry of tools as a map.
use nexus_rpc.Common.{ℕ, suc, ◌≡◌, ◌≢◌, refl, ◌∙◌, arith, true, false, Bool-cases, inl, inr, ◌⊎◌}
use nexus_rpc.Common.{Bytes, List, [], ◌∷◌, Option, none, some, length, if◌then◌else◌}
use nexus_rpc.Common.ByteMap.{
  bytes_eq, bytes_eq_iff, bytes_lt, bytes_lt_total, find, set, find-set, IsSorted, set-IsSorted,
}
use nexus_rpc.Rpc.Message.{Status, is_ok}
use nexus_rpc.Mcp.Tool.{ToolDescriptor}
use nexus_rpc.Mcp.Registry.{ToolRegistry, register_tool, add_new, add_named, find_tool, size}

module _ {D : Type 0} where
  -- Each tool is stored under its name, which is not empty.
  abbrev pub IsNamed : List (Bytes × ToolDescriptor D) → Type 0
  IsNamed [] = Unit
  IsNamed ((name, tool) ∷ tools) = (tool.name ≡ name) × (name ≢ []) × IsNamed tools

  pub record IsRegistry (tools : ToolRegistry D) : Type 0 where
    pub sorted : IsSorted tools
    pub named : IsNamed tools

  set-IsNamed :
      (name : Bytes) (tool : ToolDescriptor D) (tools : ToolRegistry D)
      → tool.name ≡ name
      → name ≢ []
      → IsNamed tools
      → IsNamed (set name tool tools)
  set-IsNamed name tool [] e n h = (e, n, tt)
  set-IsNamed name tool ((k, t) ∷ tools) e n h = elim (Bool-cases (bytes_lt name k)) [
    | inl before ↦ rw before ((e, n, h))
    | inr after ↦ elim (Bool-cases (bytes_lt k name)) [
      | inl later ↦ rw (after, later) ((h.0, h.1, set-IsNamed name tool tools e n h.2))
      | inr same ↦ rw (after, same) ((e ∙ bytes_lt_total name k after same, h.1, h.2))
    ]
  ]

  set-length :
      (name : Bytes) (tool : ToolDescriptor D) (tools : ToolRegistry D)
      → find name tools ≡ none
      → length (set name tool tools) ≡ suc (length tools)
  set-length name tool [] h = refl
  set-length name tool ((k, t) ∷ tools) h =
      ground (arith, set-length name tool tools, bytes_lt_total k name, bytes_eq_iff k name)

  -- What `registerTool` does with a name: a new name that is not empty is bound to the tool, and the
  -- others keep theirs; any other name is refused, and nothing changes.
  pub record Registered (tool : ToolDescriptor D) (name : Bytes) (before after : ToolRegistry D)
      : Type 0 where
    pub not_empty : name ≢ []
    pub new : find_tool name before ≡ none
    pub one_more : size after ≡ suc (size before)
    pub found :
        (other : Bytes)
        → find_tool other after
          ≡ (if bytes_eq name other then some tool else find_tool other before)
    pub keeps : IsRegistry before → tool.name ≡ name → IsRegistry after

  pub record Refused (tool : ToolDescriptor D) (name : Bytes) (before after : ToolRegistry D)
      : Type 0 where
    pub taken : (name ≡ []) ⊎ ((other : ToolDescriptor D) × (find_tool name before ≡ some other))
    pub same : after ≡ before

  -- The outcome of a registration, by its status.
  abbrev pub Outcome : ToolDescriptor D → Bytes → ToolRegistry D → Status × ToolRegistry D → Type 0
  Outcome tool name before (status, after) =
      ((is_ok status ≡ true) × Registered tool name before after)
      ⊎ ((is_ok status ≡ false) × Refused tool name before after)

  add_new-Outcome :
      (c : ℕ) (s : Bytes) (tool : ToolDescriptor D) (tools : ToolRegistry D)
      (found : Option (ToolDescriptor D))
      → find (c ∷ s) tools ≡ found
      → Outcome tool (c ∷ s) tools (add_new (c ∷ s) tool tools found)
  unfolding find_tool size
  add_new-Outcome c s tool tools (some other) e =
      inr (refl, record { taken = inr (other, e); same = refl })
  add_new-Outcome c s tool tools none e = inl (
    refl,
    record {
      not_empty = λ h. cc;
      new = e;
      one_more = set-length (c ∷ s) tool tools e;
      found = λ other. find-set (c ∷ s) other tool tools;
      keeps = λ r same. record {
        sorted = set-IsSorted (c ∷ s) tool tools r.sorted;
        named = set-IsNamed (c ∷ s) tool tools same (λ h. cc) r.named;
      };
    },
  )

  add_named-Outcome :
      (name : Bytes) (tool : ToolDescriptor D) (tools : ToolRegistry D)
      → Outcome tool name tools (add_named name tool tools)
  add_named-Outcome [] tool tools = inr (refl, record { taken = inl refl; same = refl })
  add_named-Outcome (c ∷ s) tool tools = add_new-Outcome c s tool tools (find (c ∷ s) tools) refl

  -- `registerTool` either succeeds, and then the name was new and not empty, it finds the tool from
  -- then on, every other name finds what it found before, there is one tool more, and the registry keeps
  -- its invariant (names ascending, each tool under its own name), or it fails, and then the name is
  -- empty or taken and nothing changes.
  pub register_tool-Outcome :
      (tool : ToolDescriptor D) (tools : ToolRegistry D)
      → Outcome tool tool.name tools (register_tool tool tools)
  unfolding register_tool
  register_tool-Outcome tool tools = add_named-Outcome tool.name tool tools
