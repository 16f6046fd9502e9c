-- ===== src/Cue/Tests.antt =====
-- The removal of private fields, tests and witnesses.
use mpas_product_controller.Base.{
  String, false, map, ◌==◌, ◌≡◌, ◌≢◌, refl, true, not, keep, [], ◌∷◌, some, none, List,
  if◌then◌else◌, ◌++◌,
}
use mpas_product_controller.Kube.Errors.{external}
use mpas_product_controller.Kube.Action.{done, fails, panics}
use mpas_product_controller.Cue.Private.{
  Decl, field, Heap, is_private, cut, loop, remove_private_fields,
}
use mpas_product_controller.Cue.Sweep.{swept, is_fatal, remove_private_fields_lem}
use mpas_product_controller.Cue.File.{File, Library, eval_without_private_fields}
use mpas_product_controller.Cue.Delta.{fields_delta, fields_delta_flat, is_missing}
use mpas_product_controller.Cue.Delta
use mpas_product_controller.Cue.Validity.{eval_without_private_fields-keep}
use mpas_product_controller.Cue.Depth.{IsWithin, remove_private_fields_total}

abbrev secret : Decl
secret = field ("@private(true)" ∷ []) none

abbrev public : Decl
public = field [] none

-- A field with a struct, at the address 1.
abbrev nested : Decl
nested = field [] (some 1)

abbrev no_structs : Heap
no_structs address = []

-- Two private fields in a row.
abbrev adjacent : List Decl
adjacent = secret ∷ secret ∷ public ∷ []

second_stays : remove_private_fields 1 adjacent no_structs ≡ done (secret ∷ public ∷ [], no_structs)
unfolding remove_private_fields cut loop
second_stays = refl

two_panic : remove_private_fields 1 (secret ∷ public ∷ secret ∷ []) no_structs ≡ panics
unfolding remove_private_fields cut loop
two_panic = refl

remove_private_fields_lem_example :
    remove_private_fields 1 adjacent no_structs
    ≡ (if is_fatal adjacent then panics else done (swept adjacent, no_structs))
remove_private_fields_lem_example =
    remove_private_fields_lem 0 adjacent no_structs (tt, (tt, (tt, tt)))

abbrev apart : List Decl
apart = secret ∷ public ∷ secret ∷ public ∷ []

one_level : IsWithin 2 no_structs (nested ∷ [])
one_level attrs address c = λ inner below k. elim k [ ]

remove_private_fields_total_example :
    remove_private_fields 2 (nested ∷ []) no_structs ≢ fails (external "e")
remove_private_fields_total_example =
    remove_private_fields_total 2 (nested ∷ []) no_structs (external "e") one_level

-- The value of a file is its declarations.
abbrev lib : Library (List Decl)
lib = record {
  parse = λ path src. done (record { decls = apart; heap = no_structs; comments = "" });
  build = λ s. s.decls;
  exists = λ v. true;
  doc = λ v. "";
  unify = λ v w. v ++ w;
  version_text = λ v. done "1.0.0";
  evaluated = λ attributes v. some (v, no_structs);
  exported = λ v. some (v, no_structs);
  validate_partly = λ v. done tt;
  fields = λ v. done (v ∷ []);
  validate_concrete = λ v. done tt;
}

abbrev values : File (List Decl)
values = record {
  name = "shop";
  schema_version = "";
  tree = record { decls = apart; heap = no_structs; comments = "" };
  value = apart;
}

eval_without_private_fields-keep_example :
    (g : File (List Decl)) × (eval_without_private_fields lib 1 values ≡ done g)
    × (g.tree.decls ≡ keep (λ d. not (is_private d)) apart)
    × (g.value ≡ keep (λ d. not (is_private d)) apart)
eval_without_private_fields-keep_example =
    eval_without_private_fields-keep lib 0 values apart no_structs refl (tt, (tt, (tt, (tt, tt))))
      refl refl

-- A schema with the two fields of which the configuration has the first.
abbrev two_fields : Delta.Values String
two_fields = record {
  fields = λ v. done (("replicas", "int") ∷ ("image", "string") ∷ []);
  is_private = λ v. false;
  look_up = λ v path. elim path [ [] ↦ v | selector ∷ rest ↦ selector ];
  exists = λ v. v == "replicas";
  is_struct = λ v. false;
}

fields_delta_flat_example :
    fields_delta two_fields 1 "schema" "config" []
    ≡ done (
        map
          (λ f. f.0 ∷ [])
          (keep
            (is_missing two_fields "config" [])
            (("replicas", "int") ∷ ("image", "string") ∷ [])))
fields_delta_flat_example =
    fields_delta_flat two_fields 0 "schema" "config" []
      (("replicas", "int") ∷ ("image", "string") ∷ []) refl (refl, (refl, tt))
