-- ===== src/Mcp/Listing.antt =====
-- What the registry of src/mcp/tool_registry.cpp lists after any registrations.
use nexus_rpc.Common.{
  ◌≡◌, ◌≢◌, ◌↔◌, refl, sym, subst, ap, ◌∙◌, arith, Bool, true, false, ◌&&◌, if◌then◌else◌,
  Bool-cases, inl, inr, ◌⊎◌,
}
use nexus_rpc.Common.{Bytes, List, [], ◌∷◌, Option, none, some, All}
use mathlib.Core.List.{Memᴰ}
use mathlib.Core.List.Memᴰ
use nexus_rpc.Common.ByteMap.{
  bytes_eq, bytes_eq_iff, bytes_lt, bytes_lt_irrefl, find, IsSorted, Above,
}
use nexus_rpc.Rpc.Message.{Status}
use nexus_rpc.Mcp.Tool.{ToolDescriptor}
use nexus_rpc.Mcp.Registry.{ToolRegistry, register_tool, list_tools, find_tool}
use nexus_rpc.Mcp.RegistryLaws.{IsNamed, IsRegistry, Outcome, register_tool-Outcome}

abbrev is_named : Bytes → Bool
is_named [] = false
is_named (c ∷ s) = true

and_false : (b : Bool) → (b && false) ≡ false
and_false true = refl
and_false false = refl

named : (name : Bytes) → name ≢ [] → is_named name ≡ true
named [] h = absurd (h refl)
named (c ∷ s) h = refl

lt-ne : (xs ys : Bytes) → bytes_lt xs ys ≡ true → bytes_eq xs ys ≡ false
lt-ne xs ys h = ground (arith, bytes_eq_iff xs ys, bytes_lt_irrefl xs)

if_some-cases :
    {A : Type 0} {x y : A} {rest : Option A} (b : Bool)
    → (if b then some x else rest) ≡ some y
    → (x ≡ y) ⊎ (rest ≡ some y)
if_some-cases true h = inl cc
if_some-cases false h = inr h

module _ {D : Type 0} where
  -- Registrations one after the other, whatever they answer.
  abbrev pub register_all : List (ToolDescriptor D) → ToolRegistry D → ToolRegistry D
  register_all [] tools = tools
  register_all (tool ∷ later) tools = register_all later (register_tool tool tools).1

  -- The first tool of a name; a tool without a name is none.
  abbrev pub first_named : Bytes → List (ToolDescriptor D) → Option (ToolDescriptor D)
  first_named name [] = none
  first_named name (tool ∷ later) =
      let rest = first_named name later in
      if is_named tool.name && bytes_eq tool.name name then some tool else rest

  -- Each name is below all later ones.
  abbrev pub IsAscending : List (ToolDescriptor D) → Type 0
  IsAscending [] = Unit
  IsAscending (tool ∷ tools) =
      All (λ later. bytes_lt tool.name later.name ≡ true) tools × IsAscending tools

  abbrev or_first :
      Option (ToolDescriptor D) → Option (ToolDescriptor D) → Option (ToolDescriptor D)
  or_first none o = o
  or_first (some tool) o = some tool

  register-IsRegistry :
      (tool : ToolDescriptor D) (tools : ToolRegistry D)
      → IsRegistry tools
      → IsRegistry (register_tool tool tools).1
  register-IsRegistry tool tools r =
      outcome (register_tool tool tools).0 (register_tool tool tools).1
        (register_tool-Outcome tool tools)
    where
      outcome :
          (status : Status) (after : ToolRegistry D)
          → Outcome tool tool.name tools (status, after)
          → IsRegistry after
      outcome status after (inl h) = h.1.keeps r refl
      outcome status after (inr h) = subst IsRegistry (sym h.1.same) r

  register_all-IsRegistry :
      (ts : List (ToolDescriptor D)) (tools : ToolRegistry D)
      → IsRegistry tools
      → IsRegistry (register_all ts tools)
  register_all-IsRegistry [] tools r = r
  register_all-IsRegistry (t ∷ ts) tools r =
      register_all-IsRegistry ts (register_tool t tools).1 (register-IsRegistry t tools r)

  registered-find :
      (tool : ToolDescriptor D) (tools : ToolRegistry D) (name : Bytes)
      (rest : Option (ToolDescriptor D))
      → or_first (find_tool name (register_tool tool tools).1) rest
        ≡ or_first
            (find_tool name tools)
            (if is_named tool.name && bytes_eq tool.name name then some tool else rest)
  registered-find tool tools name rest =
      outcome (register_tool tool tools).0 (register_tool tool tools).1
        (register_tool-Outcome tool tools)
    where
      outcome :
          (status : Status) (after : ToolRegistry D)
          → Outcome tool tool.name tools (status, after)
          → or_first (find_tool name after) rest
            ≡ or_first
                (find_tool name tools)
                (if is_named tool.name && bytes_eq tool.name name then some tool else rest)
      outcome status after (inl h) = elim (Bool-cases (bytes_eq tool.name name)) [
        | inl same ↦
            let free : find_tool name tools ≡ none =
              ap (λ n. find_tool n tools) (sym ((bytes_eq_iff tool.name name).0 same)) ∙ h.1.new in
            rw (h.1.found name, same, free, named tool.name h.1.not_empty) refl
        | inr other ↦ rw (h.1.found name, other, and_false (is_named tool.name)) refl
      ]
      outcome status after (inr h) =
          ap (λ t. or_first (find_tool name t) rest) h.1.same ∙ refused h.1.taken
        where
          refused :
              (tool.name ≡ [])
                ⊎ ((other : ToolDescriptor D) × (find_tool tool.name tools ≡ some other))
              → or_first (find_tool name tools) rest
                ≡ or_first
                    (find_tool name tools)
                    (if is_named tool.name && bytes_eq tool.name name then some tool else rest)
          refused (inl e) = rw e refl
          refused (inr (other, e)) = elim (Bool-cases (bytes_eq tool.name name)) [
            | inl same ↦
                let taken : find_tool name tools ≡ some other =
                  ap (λ n. find_tool n tools) (sym ((bytes_eq_iff tool.name name).0 same)) ∙ e in
                rw taken refl
            | inr differs ↦ rw (differs, and_false (is_named tool.name)) refl
          ]

  or_first-none : (o : Option (ToolDescriptor D)) → o ≡ or_first o none
  or_first-none none = refl
  or_first-none (some tool) = refl

  register_all-find :
      (ts : List (ToolDescriptor D)) (tools : ToolRegistry D) (name : Bytes)
      → find_tool name (register_all ts tools)
        ≡ or_first (find_tool name tools) (first_named name ts)
  register_all-find [] tools name = or_first-none (find_tool name tools)
  register_all-find (t ∷ ts) tools name =
      register_all-find ts (register_tool t tools).1 name
      ∙ registered-find t tools name (first_named name ts)

  lower_key :
      (k : Bytes) (tools : ToolRegistry D)
      → Above k tools
      → IsNamed tools
      → All (λ later. bytes_lt k later.name ≡ true) (list_tools tools)
  unfolding list_tools
  lower_key k [] a n = tt
  lower_key k ((name, tool) ∷ tools) a n = (ap (bytes_lt k) n.0 ∙ a.0, lower_key k tools a.1 n.2)

  listed-IsAscending :
      (tools : ToolRegistry D) → IsSorted tools → IsNamed tools → IsAscending (list_tools tools)
  unfolding list_tools
  listed-IsAscending [] s n = tt
  listed-IsAscending ((name, tool) ∷ tools) s n = (
    subst (λ k. All (λ later. bytes_lt k later.name ≡ true) (list_tools tools)) (sym n.0)
        (lower_key name tools s.0 n.2),
    listed-IsAscending tools s.1 n.2,
  )

  found-Memᴰ :
      (tools : ToolRegistry D) (name : Bytes) (tool : ToolDescriptor D)
      → find name tools ≡ some tool
      → Memᴰ tool (list_tools tools)
  unfolding list_tools
  found-Memᴰ [] name tool h = absurd cc
  found-Memᴰ ((k, t) ∷ tools) name tool h = elim (if_some-cases (bytes_eq k name) h) [
    | inl e ↦ Memᴰ.head (sym e)
    | inr e ↦ Memᴰ.tail (found-Memᴰ tools name tool e)
  ]

  lower_name :
      (k : Bytes) (tools : List (ToolDescriptor D)) (tool : ToolDescriptor D)
      → All (λ later. bytes_lt k later.name ≡ true) tools
      → Memᴰ tool tools
      → bytes_lt k tool.name ≡ true
  lower_name k [] tool a m = absurd (Memᴰ.not-nil m)
  lower_name k (t ∷ tools) tool a m = elim (Memᴰ.cases_cons m) [
    | inl e ↦ ap (λ x. bytes_lt k x.name) e ∙ a.0
    | inr later ↦ lower_name k tools tool a.1 later
  ]

  Memᴰ-found :
      (tools : ToolRegistry D) (tool : ToolDescriptor D)
      → IsSorted tools
      → IsNamed tools
      → Memᴰ tool (list_tools tools)
      → find tool.name tools ≡ some tool
  unfolding list_tools
  Memᴰ-found [] tool s n m = absurd (Memᴰ.not-nil m)
  Memᴰ-found ((k, t) ∷ tools) tool s n m = elim (Memᴰ.cases_cons m) [
    | inl e ↦
        let same : bytes_eq k tool.name ≡ true =
          (bytes_eq_iff k tool.name).1 (sym n.0 ∙ ap (λ x. x.name) (sym e)) in
        rw same (ap some (sym e))
    | inr later ↦
        let below = lower_name k (list_tools tools) tool (lower_key k tools s.0 n.2) later in
        rw (lt-ne k tool.name below) (Memᴰ-found tools tool s.1 n.2 later)
  ]

  -- Whatever is registered, one tool after the other, from an empty registry on, `listTools` gives tools
  -- by strictly ascending names, and it gives a tool exactly when it has a name and is the first tool of
  -- that name that was registered.
  pub list_tools-register_all :
      (ts : List (ToolDescriptor D))
      → IsAscending (list_tools (register_all ts []))
        × ((t : ToolDescriptor D)
            → Memᴰ t (list_tools (register_all ts [])) ↔ (first_named t.name ts ≡ some t))
  unfolding find_tool
  list_tools-register_all ts =
      let r = register_all-IsRegistry ts [] (record { sorted = tt; named = tt }) in
      (
        listed-IsAscending (register_all ts []) r.sorted r.named,
        λ t. (
          (λ m.
              sym (register_all-find ts [] t.name)
              ∙ Memᴰ-found (register_all ts []) t r.sorted r.named m),
          λ e. found-Memᴰ (register_all ts []) t.name t (register_all-find ts [] t.name ∙ e),
        ),
      )
