-- ===== src/Cue/Merge.antt =====
-- The method Merge: a configuration with the defaults of its schema for what it lacks.
use mpas_product_controller.Base.{ℕ, String, List, [], map}
use mpas_product_controller.Kube.Errors.{wrap}
use mpas_product_controller.Kube.Action.{Outcome, mapped, and_then}
use mpas_product_controller.Cue.File.{File, Library, value_of, schema_version_of, export}
use mpas_product_controller.Cue.Delta.{fields_delta}
use mpas_product_controller.Cue.Defaults.{Made, make_values}
use mpas_product_controller.Cue.Delta
use mpas_product_controller.Cue.Defaults

-- `scoped` is the value that BuildFile makes of the declarations in the scope of the file, and
-- `validate_all` is Validate with the default options.
pub record Env (Value : Type 0) : Type 0 where
  pub lib : Library Value
  pub delta : Delta.Values Value
  pub defaults : Defaults.Values Value
  pub scoped : File Value → List Made → Value
  pub validate_all : Value → Outcome (Unit {0})

abbrev wrapped : {A : Type 0} → String → Outcome A → Outcome A
wrapped context = mapped (λ a. a) (wrap context)

module _ {Value : Type 0} (env : Env Value) where
  -- The value of the configuration with the declarations, exported where it is valid.
  unfoldable pub completed : File Value → List Made → Outcome (File Value)
  completed f decls =
      let v = env.lib.unify (value_of env.lib f) (env.scoped f decls) in
      and_then (env.validate_all v) λ _. export env.lib f.name v

  -- Merge with no parents, as it is called. The fuel bounds the depth of the schema.
  unfoldable pub merge : ℕ → File Value → File Value → Outcome (File Value)
  unfolding completed
  merge fuel f schema =
      and_then
        (wrapped "failed to generate delta"
          (fields_delta env.delta fuel (value_of env.lib schema) (value_of env.lib f) []))
        λ missing.
          and_then (wrapped "failed to get schema version" (schema_version_of env.lib schema))
            λ found.
              and_then
                (wrapped "failed to generate defaults" (
                  make_values env.defaults (map env.defaults.route_text missing) found.0 fuel
                    (value_of env.lib schema) []))
                (completed f)
