-- ===== src/Exec/Statement.antt =====
-- A VISUALISE statement from src/ggsql_parser.cpp to src/ggsql_exec.cpp, the scalar form of a query, and
-- the settings that src/ggsql_extension.cpp registers.
use ggsql_duckdb.Prelude.{
  Bool, false, Option, none, some, List, [], ◌∷◌, text_eq, codes, if◌then◌else◌,
}
use ggsql_duckdb.Server.Registry.{Text, Bytes}
use ggsql_duckdb.Exec.Run.{Crates, World}
use ggsql_duckdb.Exec.Query.{
  Attempt, returned, thrown, Settings, OutputConfig, resolve_output_config, Moment, run_ggsql_query,
}

-- The defaults of the two settings.
abbrev pub default_settings : Settings
default_settings = record { ggsql_output = some (codes "silent"); ggsql_writer_options = some [] }

pub data StatementReturnType : Type 0 where
  nothing query_result : StatementReturnType

-- The function of the plan is always `ggsql_run`.
pub record PlanResult : Type 0 where
  pub parameters : List (Option Text)
  pub requires_valid_transaction : Bool
  pub return_type : StatementReturnType

abbrev pub silent_config : Attempt OutputConfig → Attempt Bool
silent_config (thrown e) = thrown e
silent_config (returned cfg) = returned (text_eq cfg.writer (codes "silent"))

abbrev pub planned : Text → Attempt Bool → Attempt PlanResult
planned query (thrown e) = thrown e
planned query (returned silent) = returned (record {
  parameters = some query ∷ [];
  requires_valid_transaction = false;
  return_type = if silent then nothing else query_result;
})

-- `input.inputs[0]`, or what stands for NULL where there is none
abbrev pub first_input : List (Option Text) → Option Text
first_input [] = none
first_input (input ∷ inputs) = input

-- `GgsqlRunInit`: `emitted` of a new state
abbrev pub ggsql_run_init : Bool
ggsql_run_init = false

module _ (lower_text : Text → Text) where
  unfoldable pub is_silent_output_mode : Settings → Attempt Bool
  is_silent_output_mode settings = silent_config (resolve_output_config lower_text settings)

  unfoldable pub plan_function : Settings → Text → Attempt PlanResult
  plan_function settings query = planned query (is_silent_output_mode settings)

  module _ {Spec Options Writer : Type 0} (crates : Crates Spec Options Writer) where
    abbrev pub scalar_with : Moment → Attempt OutputConfig → Text → World → Attempt Bytes × World
    scalar_with m (thrown e) query w = (thrown e, w)
    scalar_with m (returned cfg) query w = run_ggsql_query crates m query cfg w

    -- `GgsqlScalarFun` on one row
    unfoldable pub ggsql_scalar : Settings → Moment → Text → World → Attempt Bytes × World
    ggsql_scalar settings m query w =
        scalar_with m (resolve_output_config lower_text settings) query w
