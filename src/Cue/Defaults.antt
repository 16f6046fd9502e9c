-- ===== src/Cue/Defaults.antt =====
-- The functions generateDefaults and makeValues: the declarations for the missing fields. A value that
-- was made is never nil, so the code for a nil value is never reached.
use mpas_product_controller.Base.{
  ℕ, zero, suc, ◌≡◌, refl, sym, ◌∙◌, ap, inl, inr, String, Bool, false, ◌==◌, ◌<>◌, if◌then◌else◌,
  Option, some, none, List, [], ◌∷◌, ◌++◌, map, keep, any, arith, Bool-cases,
}
use mpas_product_controller.Kube.Errors.{text}
use mpas_product_controller.Kube.Action.{Outcome, Outcome-cases, done, fails, panics, and_then}
use mpas_product_controller.Cue.Delta.{Route}

-- A declaration that is made: a field with its label, its value, its attributes and its comments. A
-- value is a struct or the text of another expression.
mutual
  pub data Made : Type 0 where
    made : String → Expr → List String → String → Made

  pub data Expr : Type 0 where
    raw : String → Expr
    struct : MadeList → Expr

  pub data MadeList : Type 0 where
    end : MadeList
    more : Made → MadeList → MadeList

abbrev pub label_of : Made → String
label_of (made label value attrs doc) = label

abbrev pub packed : List Made → MadeList
packed [] = end
packed (d ∷ ds) = more d (packed ds)

-- The syntax of a value: a struct or another expression, with its text, or neither.
pub data Shape : Type 0 where
  struct_literal expression : String → Shape
  neither : Shape

-- What the functions read of a value. `default_shape` is the syntax of the default, `none` where
-- there is no default; `fallback` is the syntax of what Default gives in that case. `fields` gives the
-- selectors and values of Fields, `route_text` prints a path, and an attribute is a name and its
-- contents.
pub record Values (Value : Type 0) : Type 0 where
  pub fields : Value → Outcome (List (String × Value))
  pub route_text : Route → String
  pub default_shape : Value → Option Shape
  pub fallback : Value → Shape
  pub is_concrete : Value → Bool
  pub shape : Value → Shape
  pub label : Value → String
  pub attributes : Value → List (String × String)
  pub doc : Value → String

abbrev pub attribute : String → String × String → String
attribute version (name, contents) =
    "@" <> name <> "(" <> contents <> ",schema_version=\"" <> version <> "\")"

module _ {Value : Type 0} (lib : Values Value) (paths : List String) (version : String) where
  abbrev pub from_shape : Shape → Outcome Expr
  from_shape (expression t) = done (raw t)
  from_shape (struct_literal t) = done (raw t)
  from_shape neither = fails (text "unknown type")

  -- A value with no default that is concrete: the fields of a struct, or the expression.
  abbrev pub concrete : (Value → Route → Outcome (List Made)) → Route → Value → Shape → Outcome Expr
  concrete nested route value (struct_literal t) =
      and_then (nested value route) (λ made_fields. done (struct (packed made_fields)))
  concrete nested route value (expression t) = done (raw t)
  concrete nested route value neither = fails (text "unknown type")

  abbrev pub expression_of :
      (Value → Route → Outcome (List Made)) → Route → Value → Option Shape → Outcome Expr
  expression_of nested route value (some default) = from_shape default
  expression_of nested route value none =
      let whole = concrete nested route value (lib.shape value) in
      if lib.is_concrete value then whole else from_shape (lib.fallback value)

  abbrev pub is_wanted : Route → String × Value → Bool
  is_wanted parents (selector, value) =
      any (λ p. p == lib.route_text (parents ++ (selector ∷ []))) paths

  -- The loop over the fields.
  unfoldable pub make_all :
      (Value → Route → Outcome (List Made)) → Route → List (String × Value) → Outcome (List Made)
  make_all nested parents [] = done []
  make_all nested parents ((selector, value) ∷ rest) =
      let following = make_all nested parents rest in
      if is_wanted parents (selector, value)
      then (and_then
          (expression_of nested (parents ++ (selector ∷ [])) value (lib.default_shape value))
          λ e. and_then following λ others. done (
            made (lib.label value) e (map (attribute version) (lib.attributes value))
              (lib.doc value)
            ∷ others))
      else following

  -- generateDefaults and makeValues, from the value whose fields are listed. The fuel bounds its depth.
  unfoldable pub make_values : ℕ → Value → Route → Outcome (List Made)
  unfolding make_all
  make_values zero value parents = fails (text "out of fuel")
  make_values (suc fuel) value parents =
      and_then (lib.fields value) (make_all (make_values fuel) parents)

  abbrev list_of : Outcome (List Made) → List Made
  list_of (done ds) = ds
  list_of (fails e) = []
  list_of panics = []

  left_out :
      (nested : Value → Route → Outcome (List Made)) (parents : Route) (selector : String)
      (value : Value) (rest : List (String × Value))
      → is_wanted parents (selector, value) ≡ false
      → make_all nested parents rest ≡ make_all nested parents ((selector, value) ∷ rest)
  unfolding make_all
  left_out nested parents selector value rest w = rw w refl

  make_all_labels :
      (nested : Value → Route → Outcome (List Made)) (parents : Route)
      (fields : List (String × Value)) (decls : List Made)
      → make_all nested parents fields ≡ done decls
      → map label_of decls ≡ map (λ f. lib.label f.1) (keep (is_wanted parents) fields)
  unfolding make_all
  make_all_labels nested parents [] decls h = ap (λ r. map label_of (list_of r)) (sym h)
  make_all_labels nested parents ((selector, value) ∷ rest) decls h =
      elim (Bool-cases (is_wanted parents (selector, value))) [
        | inl w ↦
            elim (Outcome-cases
              (expression_of nested (parents ++ (selector ∷ [])) value (lib.default_shape value))) [
                | inl (e, x) ↦ elim (Outcome-cases (make_all nested parents rest)) [
                  | inl (others, y) ↦
                      ap (λ r. map label_of (list_of r)) (sym h)
                      ∙ rw (w, x, y)
                          (ap (λ t. lib.label value ∷ t)
                            (make_all_labels nested parents rest others y))
                  | inr bad ↦ absurd (ground arith)
                ]
                | inr bad ↦ absurd (ground arith)
              ]
        | inr w ↦ rw w (
            make_all_labels nested parents rest decls
              (left_out nested parents selector value rest w ∙ h))
      ]

  -- Where the declarations are made, they are for the fields of the value whose paths are wanted, in
  -- the order of the value, each with the label of its field, and for no others.
  pub make_values_labels :
      (fuel : ℕ) (value : Value) (parents : Route) (fields : List (String × Value))
      (decls : List Made)
      → lib.fields value ≡ done fields
      → make_values (suc fuel) value parents ≡ done decls
      → map label_of decls ≡ map (λ f. lib.label f.1) (keep (is_wanted parents) fields)
  unfolding make_values
  make_values_labels fuel value parents fields decls e h =
      make_all_labels (make_values fuel) parents fields decls
        (ap (λ r. and_then r (make_all (make_values fuel) parents)) (sym e) ∙ h)
