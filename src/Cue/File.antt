-- ===== src/Cue/File.antt =====
-- The methods of File, and the functions New and Export.
use mpas_product_controller.Base.{
  ℕ, String, Bool, true, false, ◌==◌, if◌then◌else◌, Option, none, some, List, [], ◌∷◌,
}
use mpas_product_controller.Kube.Errors.{text, wrap, error_text}
use mpas_product_controller.Kube.Action.{and_then, Outcome, done, fails, panics}
use mpas_product_controller.Cue.Private.{Decl, Heap, remove_private_fields}

-- ast.File: the declarations with the structs below them, and the comments.
pub record Syntax : Type 0 where
  pub decls : List Decl
  pub heap : Heap
  pub comments : String

-- File; the context has no part in what the methods give.
pub record File (Value : Type 0) : Type 0 where
  pub name : String
  pub schema_version : String
  pub tree : Syntax
  pub value : Value

-- The library: `parse` is ParseFile of a path or of the given text, `build` BuildFile, `exists` and
-- `doc` and `unify` the methods of Value, `version_text` the look-up of #SchemaVersion as a text.
-- `evaluated` is Syntax with the options of an evaluation, with the attributes or without, and
-- `exported` with those of Export, `none` where it is not a struct. `validate_partly` is Validate with
-- Concrete(false), `fields` the values of Fields, and `validate_concrete` Validate with
-- Concrete(true).
pub record Library (Value : Type 0) : Type 0 where
  pub parse : String → Option String → Outcome Syntax
  pub build : Syntax → Value
  pub exists : Value → Bool
  pub doc : Value → String
  pub unify : Value → Value → Value
  pub version_text : Value → Outcome String
  pub evaluated : Bool → Value → Option (List Decl × Heap)
  pub exported : Value → Option (List Decl × Heap)
  pub validate_partly : Value → Outcome (Unit {0})
  pub fields : Value → Outcome (List Value)
  pub validate_concrete : Value → Outcome (Unit {0})

module _ {Value : Type 0} (lib : Library Value) where
  -- An error of New has lost its chain: only its text is kept.
  abbrev pub parsed : String → Outcome Syntax → Outcome (File Value)
  parsed name (done tree) =
      done (record { name = name; schema_version = ""; tree = tree; value = lib.build tree })
  parsed name (fails e) = fails (text (error_text (wrap "failed to parse cue file" e)))
  parsed name panics = panics

  unfoldable pub new_file : String → String → Option String → Outcome (File Value)
  new_file name path src = parsed name (lib.parse path src)

  -- The method value; a value that does not exist is built from the tree.
  abbrev pub value_of : File Value → Value
  value_of f = if lib.exists f.value then f.value else lib.build f.tree

  -- SchemaVersion: the version, with the file that remembers it.
  unfoldable pub schema_version_of : File Value → Outcome (String × File Value)
  schema_version_of f =
      if f.schema_version == ""
      then and_then (lib.version_text (value_of f)) (λ v. done (v, record f { schema_version = v }))
      else done (f.schema_version, f)

  -- The new tree of an evaluation, its value and the comments of the value before it.
  abbrev pub evaluation : File Value → Option (List Decl × Heap) → Outcome (File Value)
  evaluation f none = fails (text "node is of unknown type *ast.StructLit")
  evaluation f (some (decls, heap)) = done (record f {
    tree = record { decls = decls; heap = heap; comments = lib.doc (value_of f) };
    value = lib.build (record { decls = decls; heap = heap; comments = "" });
  })

  -- The function eval, with the attributes or without.
  unfoldable pub eval_with : Bool → File Value → Outcome (File Value)
  eval_with attributes f = evaluation f (lib.evaluated attributes (value_of f))

  -- Eval
  abbrev pub eval : File Value → Outcome (File Value)
  eval = eval_with false

  -- The file with other declarations, which are built anew.
  abbrev pub rebuilt : File Value → List Decl × Heap → File Value
  rebuilt f (decls, heap) =
      let value = lib.build (record { decls = decls; heap = heap; comments = f.tree.comments }) in
      record f {
        tree = record { decls = decls; heap = heap; comments = lib.doc value };
        value = value;
      }

  -- EvalWithoutPrivateFields, with the fuel of the removal.
  unfoldable pub eval_without_private_fields : ℕ → File Value → Outcome (File Value)
  unfolding eval_with
  eval_without_private_fields fuel f = and_then (eval_with true f) λ g.
      and_then (remove_private_fields fuel g.tree.decls g.tree.heap) λ left. done (rebuilt g left)

  abbrev pub exported_as : String → Value → Option (List Decl × Heap) → Outcome (File Value)
  exported_as name v none = fails (text "syntax was of unknown type *ast.StructLit")
  exported_as name v (some (decls, heap)) = done (record {
    name = name;
    schema_version = "";
    tree = record { decls = decls; heap = heap; comments = lib.doc v };
    value = v;
  })

  -- Export
  unfoldable pub export : String → Value → Outcome (File Value)
  export name v = exported_as name v (lib.exported v)

  -- The loop of Unify.
  abbrev pub unified : Value → List (File Value) → Value
  unified v [] = v
  unified v (f ∷ fs) = unified (lib.unify v (value_of f)) fs

  -- The method Unify.
  unfoldable pub unify_all : File Value → List (File Value) → Outcome (File Value)
  unfolding export
  unify_all f fs =
      and_then (lib.validate_partly (unified (value_of f) fs))
        λ _. export f.name (unified (value_of f) fs)

  abbrev pub failed_field : Outcome (Unit {0}) → Outcome (Unit {0}) → Outcome (Unit {0})
  failed_field (done u) rest = rest
  failed_field (fails e) rest = fails (wrap "failed" e)
  failed_field panics rest = panics

  -- The loop of Vet.
  abbrev pub vet_fields : List Value → Outcome (Unit {0})
  vet_fields [] = done tt
  vet_fields (v ∷ vs) = let rest = vet_fields vs in failed_field (lib.validate_concrete v) rest

  -- Vet, on the value as it is remembered.
  unfoldable pub vet : File Value → Outcome (Unit {0})
  vet f = and_then (lib.fields f.value) vet_fields

  -- Validate
  unfoldable pub validate : File Value → File Value → Outcome (Unit {0})
  unfolding unify_all vet
  validate f schema = and_then (unify_all f (schema ∷ [])) vet
