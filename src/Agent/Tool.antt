-- ===== src/Agent/Tool.antt =====
-- internal/agent/tool/tool.go: the results of tools and their registry. A tool's own code is a
-- parameter: it takes the arguments and changes the state W of the world.
use dfgo.Prelude.{String, Bool, true, List, [], ◌∷◌, ◌++◌, some, none}
use dfgo.Prelude.Dict.{Dict, get, put}
use dfgo.Prelude.Result as Go
use dfgo.Prelude.Text.{append}
use dfgo.Llm.Message.{ToolDef}

-- `tool.Result`
pub record Result : Type 0 where
  pub content : String
  pub full_output : String
  pub is_error : Bool

unfoldable pub error_result : String → Result
error_result msg = record { content = msg; full_output = msg; is_error = true }

pub record Tool (W : Type 0) : Type 0 where
  pub name : String
  pub description : String
  pub parameters : String
  -- `Execute`: the text of the error where one is returned
  pub run : String → W → Go.Result String Result × W

pub record Registry (W : Type 0) : Type 0 where
  pub tools : Dict (Tool W)
  pub order : List String

module _ {W : Type 0} where
  abbrev pub new_registry : Registry W
  new_registry = record { tools = []; order = [] }

  unfoldable pub register : Tool W → Registry W → Registry W
  register t r = record r {
    tools = put r.tools t.name t;
    order = elim (get r.tools t.name) [ none ↦ r.order ++ t.name ∷ [] | some old ↦ r.order ];
  }

  abbrev pub tool_def : Tool W → ToolDef
  tool_def t = record { name = t.name; description = t.description; parameters = t.parameters }

  -- A name without a tool would be a nil interface, at which Go panics; it is passed over here.
  abbrev pub defs_of : Dict (Tool W) → List String → List ToolDef
  defs_of tools [] = []
  defs_of tools (name ∷ names) =
      let rest = defs_of tools names in
      elim (get tools name) [ none ↦ rest | some t ↦ tool_def t ∷ rest ]

  unfoldable pub tool_defs : Registry W → List ToolDef
  tool_defs r = defs_of r.tools r.order

  unfoldable pub execute : Registry W → String → String → W → Go.Result String Result × W
  unfolding error_result
  execute r name args w = elim (get r.tools name) [
    | none ↦ (Go.ok (error_result (append "unknown tool: " name)), w)
    | some t ↦ t.run args w
  ]
