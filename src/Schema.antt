-- ===== src/Schema.antt =====
-- schema/models.py: the workflow document that the compiler reads. Entries that only the command
-- line or the persistence layer reads (names, prompts, labels, provider settings) are left out.
use ravana.Prelude.{ℕ, String, Bool, true, false, Option, none, some, List}
use ravana.Prelude.Int.{ℤ}
use ravana.Dict.{Dict}
use ravana.Value.{State}

pub data MergePolicy : Type 0 where
  overwrite merge_object append : MergePolicy

pub data ConcurrencyStrategy : Type 0 where
  queue cancel_previous allow : ConcurrencyStrategy

pub data ToolkitType : Type 0 where
  web_search code_interpreter db api_connector mcp_server : ToolkitType

pub record ConcurrencyConfig : Type 0 where
  pub group : String
  pub strategy : ConcurrencyStrategy

-- `fields` is the alias `schema` of the document: each key's merge policy
pub record StateConfig : Type 0 where
  pub fields : Dict MergePolicy
  pub initial : State

pub record ToolkitConfig : Type 0 where
  pub id : String
  pub type : ToolkitType
  pub auth_ref : Option String
  pub description : Option String

pub record SkillConfig : Type 0 where
  pub id : String
  pub instructions : String

pub record HitlConfig : Type 0 where
  pub enabled : Bool
  pub trigger_condition : String
  pub prompt_template : Option String
  pub assignee : Option String

-- `output_schema` is kept by the names of its `properties`
pub record AgentConfig : Type 0 where
  pub id : String
  pub toolkits : List String
  pub skills : List String
  pub hitl : Option HitlConfig
  pub output_schema : Option (List String)

-- A field of a model: absent from `model_fields_set`, or set (to `null` too).
pub data Setting {ℓ} (A : Type ℓ) : Type ℓ where
  omitted : Setting A
  explicit : Option A → Setting A

pub data Join : Type 0 where
  any all : Join

pub record GraphNode : Type 0 where
  pub id : String
  pub agent : Option String
  pub sub_workflow : Option String
  pub on_enter : Option String
  pub toolkits : Option (List String)
  pub hitl : Setting HitlConfig
  pub output_schema : Setting (List String)
  pub join : Join

pub record GraphEdge : Type 0 where
  pub source : String
  pub to : List String
  pub condition : Option String
  pub is_default : Bool
  pub priority : ℤ

-- The source's guards are integers that nothing bounds below; here they are not negative.
pub record GraphGuards : Type 0 where
  pub max_total_steps : ℕ
  pub max_loop_iterations : Dict ℕ
  pub max_tool_calls_per_turn : ℕ
  pub max_output_repairs : ℕ
  pub max_retries_per_node : ℕ
  pub max_tokens_total : Option ℕ

pub record GraphConfig : Type 0 where
  pub entry : String
  pub nodes : List GraphNode
  pub edges : List GraphEdge
  pub guards : GraphGuards

pub record DefinitionOfDone : Type 0 where
  pub evaluated_by : String
  pub criteria : List String

pub record WorkflowSpec : Type 0 where
  pub concurrency : Option ConcurrencyConfig
  pub state : StateConfig
  pub toolkits : List ToolkitConfig
  pub skills : List SkillConfig
  pub agents : List AgentConfig
  pub graph : GraphConfig
  pub definition_of_done : Option DefinitionOfDone

abbrev pub terminal : String
terminal = "__terminal__"

-- GraphNode._exactly_one_backing: the node is refused when both or neither is set
unfoldable pub exactly_one_backing : GraphNode → Bool
exactly_one_backing n = xor_some n.agent n.sub_workflow
  where
    xor_some : Option String → Option String → Bool
    xor_some (some a) none = true
    xor_some none (some s) = true
    xor_some (some a) (some s) = false
    xor_some none none = false
