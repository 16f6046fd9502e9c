-- ===== src/Cue/Delta.antt =====
-- The function fieldsDelta: the fields of a schema that a configuration lacks.
use mpas_product_controller.Base.{
  ℕ, zero, suc, ◌≡◌, refl, inl, inr, String, Bool, true, false, not, ◌&&◌, if◌then◌else◌, List, [],
  ◌∷◌, ◌++◌, map, keep, All, Bool-cases,
}
use mpas_product_controller.Kube.Errors.{Error, text}
use mpas_product_controller.Kube.Action.{Outcome, done, fails, and_then}

-- A path is the list of its selectors.
abbrev pub Route : Type 0
Route = List String

-- What the function reads of a value: `fields` gives the selectors and values of Fields, `is_private`
-- whether there is the attribute, and `is_struct` whether the syntax is a struct.
pub record Values (Value : Type 0) : Type 0 where
  pub fields : Value → Outcome (List (String × Value))
  pub is_private : Value → Bool
  pub look_up : Value → Route → Value
  pub exists : Value → Bool
  pub is_struct : Value → Bool

module _ {Value : Type 0} (lib : Values Value) where
  abbrev pub lacking : Value → Route → String → List Route
  lacking config path selector =
      if lib.exists (lib.look_up config path) then [] else (selector ∷ []) ∷ []

  -- The recursive call, on what the path leads to in the schema that this call was given; the path
  -- is put before what it finds.
  abbrev pub below :
      (Value → Route → Outcome (List Route)) → Value → Route → Value → Outcome (List Route)
  below nested schema path value =
      if lib.is_struct value
      then and_then (nested (lib.look_up schema path) path)
          (λ found. done (map (λ p. path ++ p) found))
      else done []

  -- The loop over the fields; `parents` is the path from the root of the configuration.
  unfoldable pub walk :
      (Value → Route → Outcome (List Route))
      → Value
      → Value
      → Route
      → List (String × Value)
      → Outcome (List Route)
  walk nested schema config parents [] = done []
  walk nested schema config parents ((selector, value) ∷ rest) =
      let path = parents ++ (selector ∷ []) in
      let following = walk nested schema config parents rest in
      if lib.is_private value
      then following
      else and_then (below nested schema path value)
          λ inner. and_then following λ more. done (lacking config path selector ++ (inner ++ more))

  -- fieldsDelta. The fuel bounds the depth of the schema.
  unfoldable pub fields_delta : ℕ → Value → Value → Route → Outcome (List Route)
  unfolding walk
  fields_delta zero schema config parents = fails (text "out of fuel")
  fields_delta (suc fuel) schema config parents =
      let nested = λ (inner : Value) (path : Route). fields_delta fuel inner config path in
      and_then (lib.fields schema) (walk nested schema config parents)

  -- A field of the schema that is not private and is not in the configuration.
  abbrev pub is_missing : Value → Route → String × Value → Bool
  is_missing config parents (selector, value) =
      not (lib.is_private value)
      && not (lib.exists (lib.look_up config (parents ++ (selector ∷ []))))

  walk_flat :
      (nested : Value → Route → Outcome (List Route)) (schema config : Value) (parents : Route)
      (fields : List (String × Value))
      → All (λ f. lib.is_struct f.1 ≡ false) fields
      → walk nested schema config parents fields
        ≡ done (map (λ f. f.0 ∷ []) (keep (is_missing config parents) fields))
  unfolding walk
  walk_flat nested schema config parents [] flat = refl
  walk_flat nested schema config parents ((selector, value) ∷ rest) (f, flat) =
      let ih = walk_flat nested schema config parents rest flat in
      elim (Bool-cases (lib.is_private value)) [
        | inl p ↦ rw (p, ih) refl
        | inr p ↦ elim (Bool-cases (lib.exists (lib.look_up config (parents ++ (selector ∷ []))))) [
          | inl e ↦ rw (p, f, ih, e) refl
          | inr e ↦ rw (p, f, ih, e) refl
        ]
      ]

  -- For a schema whose fields are no structs, and with any fuel but none, the delta is the list of its
  -- fields that are not private and that the configuration lacks, in the order of the schema.
  pub fields_delta_flat :
      (fuel : ℕ) (schema config : Value) (parents : Route) (fields : List (String × Value))
      → lib.fields schema ≡ done fields
      → All (λ f. lib.is_struct f.1 ≡ false) fields
      → fields_delta (suc fuel) schema config parents
        ≡ done (map (λ f. f.0 ∷ []) (keep (is_missing config parents) fields))
  unfolding fields_delta
  fields_delta_flat fuel schema config parents fields e flat = rw e (
      walk_flat (λ inner path. fields_delta fuel inner config path) schema config parents fields
        flat)

  -- A struct a with a struct b in it makes the function ask the struct a for the path a.b from the
  -- root: where the fields of what it finds there cannot be listed, the function fails.
  pub fields_delta_nested :
      (fuel : ℕ) (schema config : Value) (a b : String) (outer inner : Value)
      (rest more : List (String × Value)) (e : Error)
      → lib.fields schema ≡ done ((a, outer) ∷ rest)
      → lib.is_private outer ≡ false
      → lib.is_struct outer ≡ true
      → lib.fields (lib.look_up schema (a ∷ [])) ≡ done ((b, inner) ∷ more)
      → lib.is_private inner ≡ false
      → lib.is_struct inner ≡ true
      → lib.fields (lib.look_up (lib.look_up schema (a ∷ [])) (a ∷ b ∷ [])) ≡ fails e
      → fields_delta (suc (suc (suc fuel))) schema config [] ≡ fails e
  unfolding fields_delta walk
  fields_delta_nested fuel schema config a b outer inner rest more e h1 h2 h3 h4 h5 h6 h7 =
      rw (h1, h2, h3, h4, h5, h6, h7) refl
