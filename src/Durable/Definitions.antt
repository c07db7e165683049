-- ===== src/Durable/Definitions.antt =====
-- src/xyberos/durable/definitions.py: the definition that a claimed execution was submitted with.
use xyberos.Prelude.{String, Option, none, some, List, if◌then◌else◌, ◌==◌, string_eq, not}
use xyberos.Errors.{Result, ok, err, durable_version}
use xyberos.Execution.Models.{Workflow}
use xyberos.Durable.Rows.{Claim}
use xyberos.Durable.Store.Submission.{Shape, definition_fingerprint}

-- A mapping by `workflow_key` and a function are alike: what a name and a version stand for
abbrev pub DefinitionLookup : Type 0 → Type 0
DefinitionLookup V = String → String → Option (Workflow V)

module _ {V : Type 0} (sorted : List String → List String) (digest : Shape → String) where
  abbrev matching : Claim → Option (Workflow V) → Result (Workflow V)
  matching claim none = err durable_version
  matching claim (some workflow) =
      if not (definition_fingerprint sorted digest workflow == claim.fingerprint)
      then err durable_version
      else ok workflow

  unfoldable pub require_definition : DefinitionLookup V → Claim → Result (Workflow V)
  require_definition lookup claim = matching claim (lookup claim.workflow claim.version)
