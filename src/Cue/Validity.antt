-- ===== src/Cue/Validity.antt =====
-- What the validation of a configuration tells, and what is left of its private fields.
use mpas_product_controller.Base.{
  ℕ, suc, ◌≡◌, refl, ◌↔◌, inl, inr, true, false, not, some, List, [], ◌∷◌, keep, arith, All,
  Option-cases,
}
use mpas_product_controller.Kube.Action.{Outcome-cases, done}
use mpas_product_controller.Cue.Private.{Decl, Heap, is_private}
use mpas_product_controller.Cue.Sweep.{IsFlat, is_apart, is_fatal, remove_private_fields-keep}
use mpas_product_controller.Cue.File.{
  File, Library, value_of, rebuilt, eval_without_private_fields, export, unify_all, vet_fields, vet,
  validate,
}

module _ {Value : Type 0} (lib : Library Value) where
  -- The values meet, as a struct, and each field of what they have in common is concrete.
  pub record Fits (config schema : Value) : Type 0 where
    pub tree : List Decl × Heap
    pub values : List Value
    pub meets : lib.validate_partly (lib.unify config schema) ≡ done tt
    pub is_struct : lib.exported (lib.unify config schema) ≡ some tree
    pub has_fields : lib.fields (lib.unify config schema) ≡ done values
    pub concrete : All (λ v. lib.validate_concrete v ≡ done tt) values

  each_concrete :
      (vs : List Value)
      → vet_fields lib vs ≡ done tt
      → All (λ v. lib.validate_concrete v ≡ done tt) vs
  each_concrete [] h = tt
  each_concrete (v ∷ vs) h = elim (Outcome-cases (lib.validate_concrete v)) [
    | inl (_, e) ↦ (e, each_concrete vs (ground arith))
    | inr bad ↦ absurd (ground arith)
  ]

  each_vetted :
      (vs : List Value)
      → All (λ v. lib.validate_concrete v ≡ done tt) vs
      → vet_fields lib vs ≡ done tt
  each_vetted [] h = refl
  each_vetted (v ∷ vs) (e, es) = rw (e, each_vetted vs es) refl

  fits :
      (f schema : File Value)
      → validate lib f schema ≡ done tt
      → Fits (value_of lib f) (value_of lib schema)
  unfolding validate unify_all export vet
  fits f schema h =
      elim (Outcome-cases
        (lib.validate_partly (lib.unify (value_of lib f) (value_of lib schema)))) [
          | inl (_, a) ↦
              elim (Option-cases
                (lib.exported (lib.unify (value_of lib f) (value_of lib schema)))) [
                  | inl b ↦ absurd (ground arith)
                  | inr (tree, b) ↦
                      elim (Outcome-cases
                        (lib.fields (lib.unify (value_of lib f) (value_of lib schema)))) [
                          | inl (values, c) ↦ record {
                            tree = tree;
                            values = values;
                            meets = a;
                            is_struct = b;
                            has_fields = c;
                            concrete = each_concrete values (ground arith);
                          }
                          | inr bad ↦ absurd (ground arith)
                        ]
                ]
          | inr bad ↦ absurd (ground arith)
        ]

  validated :
      (f schema : File Value)
      → Fits (value_of lib f) (value_of lib schema)
      → validate lib f schema ≡ done tt
  unfolding validate unify_all export vet
  validated f schema k = rw (k.meets, k.is_struct, k.has_fields) (each_vetted k.values k.concrete)

  -- A configuration is valid for a schema exactly when their values meet in a struct whose fields are
  -- all concrete.
  pub validate_iff :
      (f schema : File Value)
      → (validate lib f schema ≡ done tt) ↔ Fits (value_of lib f) (value_of lib schema)
  validate_iff f schema = (fits f schema, validated f schema)

  -- Where the evaluated configuration has no structs in it, no private field right behind another, and
  -- no second private field at its end, EvalWithoutPrivateFields gives the file of the declarations
  -- that are not private, with the value that is built from them.
  pub eval_without_private_fields-keep :
      (fuel : ℕ) (f : File Value) (decls : List Decl) (heap : Heap)
      → lib.evaluated true (value_of lib f) ≡ some (decls, heap)
      → All IsFlat decls
      → is_apart decls ≡ true
      → is_fatal decls ≡ false
      → (g : File Value) × (eval_without_private_fields lib (suc fuel) f ≡ done g)
        × (g.tree.decls ≡ keep (λ d. not (is_private d)) decls)
        × (g.value
            ≡ lib.build (record {
              decls = keep (λ d. not (is_private d)) decls;
              heap = heap;
              comments = lib.doc (value_of lib f);
            }))
  unfolding eval_without_private_fields
  eval_without_private_fields-keep fuel f decls heap e flat apart fatal = (
    rebuilt lib
        (record f {
          tree = record { decls = decls; heap = heap; comments = lib.doc (value_of lib f) };
          value = lib.build (record { decls = decls; heap = heap; comments = "" });
        })
        (keep (λ d. not (is_private d)) decls, heap),
    rw (e, remove_private_fields-keep fuel decls heap flat apart fatal) refl,
    refl,
    refl,
  )
