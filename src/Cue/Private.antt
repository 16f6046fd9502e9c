-- ===== src/Cue/Private.antt =====
-- The function removePrivateFields, on the slices that it cuts while it ranges over them.
use mpas_product_controller.Base.{
  ℕ, zero, suc, ◌-◌, String, Bool, false, ltb, nat_eq, ◌==◌, if◌then◌else◌, Option, none, some,
  List, [], ◌∷◌, ◌++◌, length, get_elem?,
}
use mpas_product_controller.Kube.Errors.{text}
use mpas_product_controller.Kube.Action.{and_then, Outcome, done, fails, panics}

-- A declaration: a field with the texts of its attributes and, where its value is a struct, the
-- address of the struct, or another declaration.
pub data Decl : Type 0 where
  field : List String → Option ℕ → Decl
  other : Decl

-- The declarations of the structs, by their addresses.
abbrev pub Heap : Type 0
Heap = ℕ → List Decl

abbrev pub put : ℕ → List Decl → Heap → Heap
put address decls heap a = if nat_eq a address then decls else heap a

abbrev pub take : {A : Type 0} → ℕ → List A → List A
take zero xs = []
take (suc n) [] = []
take (suc n) (x ∷ xs) = x ∷ take n xs

abbrev pub drop : {A : Type 0} → ℕ → List A → List A
drop zero xs = xs
drop (suc n) [] = []
drop (suc n) (x ∷ xs) = drop n xs

-- A slice that starts at the start of its array.
pub record Slice : Type 0 where
  pub array : List Decl
  pub size : ℕ

abbrev pub first_is_private : List String → Bool
first_is_private [] = false
first_is_private (attr ∷ attrs) = attr == "@private(true)"

abbrev pub is_private : Decl → Bool
is_private (field attrs value) = first_is_private attrs
is_private other = false

-- `append(values[:i], values[i+1:]...)`: the elements from i + 1 on move one place down in the
-- array, the last one stays where it was as well, and the slice is shorter; `values[i+1:]` panics
-- where i + 1 is above the size.
unfoldable pub cut : ℕ → Slice → Outcome Slice
cut i values =
    if ltb values.size (suc i)
    then panics
    else done (record {
      array =
          take i values.array
          ++ (drop (suc i) (take values.size values.array) ++ drop (values.size - 1) values.array);
      size = values.size - 1;
    })

abbrev pub pruned : Decl → ℕ → Slice → Outcome Slice
pruned decl i values = if is_private decl then cut i values else done values

-- The struct that is the value of a field, also of a field that was cut.
abbrev pub descend : (ℕ → Heap → Outcome Heap) → Decl → Heap → Outcome Heap
descend visit (field attrs (some address)) heap = visit address heap
descend visit (field attrs none) heap = done heap
descend visit other heap = done heap

-- The body for the element at i, and the rest of the loop.
abbrev pub turn :
    (ℕ → Heap → Outcome Heap)
    → (Slice → Heap → Outcome (Slice × Heap))
    → Option Decl
    → ℕ
    → Slice
    → Heap
    → Outcome (Slice × Heap)
turn visit rest none i values heap = panics
turn visit rest (some decl) i values heap =
    and_then (pruned decl i values)
      λ cut_values. and_then (descend visit decl heap) λ visited. rest cut_values visited

-- The loop ranges over the array with the size that the slice had at first: so many turns are left
-- from i on.
unfoldable pub loop : (ℕ → Heap → Outcome Heap) → ℕ → ℕ → Slice → Heap → Outcome (Slice × Heap)
loop visit zero i values heap = done (values, heap)
loop visit (suc left) i values heap =
    turn visit (loop visit left (suc i)) (get_elem? values.array i) i values heap

-- The recursive call on the declarations of a struct.
abbrev pub visited_by : (List Decl → Heap → Outcome (List Decl × Heap)) → ℕ → Heap → Outcome Heap
visited_by remove address heap =
    and_then (remove (heap address) heap) λ (elts, left). done (put address elts left)

-- removePrivateFields on a slice, which gives the slice that is left. The fuel bounds the depth of
-- the structs.
unfoldable pub remove_private_fields : ℕ → List Decl → Heap → Outcome (List Decl × Heap)
unfolding loop
remove_private_fields zero decls heap = fails (text "out of fuel")
remove_private_fields (suc fuel) decls heap =
    and_then
      (loop (visited_by (remove_private_fields fuel)) (length decls) 0
        (record { array = decls; size = length decls }) heap)
      λ (values, left). done (take values.size values.array, left)
