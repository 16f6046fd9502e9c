-- ===== src/Cue/Depth.antt =====
-- How much fuel the removal of private fields needs.
use mpas_product_controller.Base.{
  ℕ, zero, suc, ◌-◌, ◌≡◌, ◌≢◌, refl, subst, ◌⊎◌, inl, inr, Bool, true, false, ltb, nat_eq, Option,
  none, some, List, [], ◌∷◌, ◌++◌, length, String, get_elem?, arith, Contains, Contains-get_elem?,
  if◌then◌else◌,
}
use mpas_product_controller.Kube.Errors.{Error}
use mpas_product_controller.Kube.Action.{and_then, Outcome, done, fails, panics}
use mpas_product_controller.Cue.Private.{
  Decl, field, other, Heap, Slice, put, take, drop, is_private, cut, pruned, descend, turn, loop,
  visited_by, remove_private_fields,
}

-- The structs below the declarations are at most so many levels deep.
abbrev pub IsWithin : ℕ → Heap → List Decl → Type 0
IsWithin zero heap decls = ⊥
IsWithin (suc n) heap decls =
    (attrs : List String) (address : ℕ)
    → Contains (field attrs (some address)) decls
    → IsWithin n heap (heap address)

-- Each element of the first list is in the second.
abbrev Sub : List Decl → List Decl → Type 0
Sub xs ys = (d : Decl) → Contains d xs → Contains d ys

-- Each struct has lost elements at most.
abbrev Smaller : Heap → Heap → Type 0
Smaller new old = (address : ℕ) → Sub (new address) (old address)

-- No error, and a value meets the predicate.
abbrev Ends : {A : Type 0} → (A → Type 0) → Outcome A → Type 0
Ends P (done a) = P a
Ends P (fails e) = ⊥
Ends P panics = Unit

Ends-and_then :
    {A B : Type 0} (P : A → Type 0) (Q : B → Type 0) (r : Outcome A) (f : A → Outcome B)
    → Ends P r
    → ((a : A) → P a → Ends Q (f a))
    → Ends Q (and_then r f)
Ends-and_then P Q (done a) f p k = k a p
Ends-and_then P Q (fails e) f p k = p
Ends-and_then P Q panics f p k = tt

IsWithin-Smaller :
    (n : ℕ) (new old : Heap) (xs ys : List Decl)
    → Smaller new old
    → Sub xs ys
    → IsWithin n old ys
    → IsWithin n new xs
IsWithin-Smaller zero new old xs ys smaller sub h = h
IsWithin-Smaller (suc n) new old xs ys smaller sub h = λ attrs address c.
    IsWithin-Smaller n new old (new address) (old address) smaller (smaller address)
      (h attrs address (sub (field attrs (some address)) c))

Contains-append :
    (d : Decl) (xs ys : List Decl) → Contains d (xs ++ ys) → Contains d xs ⊎ Contains d ys
Contains-append d [] ys c = inr c
Contains-append d (x ∷ xs) ys (inl e) = inl (inl e)
Contains-append d (x ∷ xs) ys (inr c) = elim (Contains-append d xs ys c) [
  | inl a ↦ inl (inr a)
  | inr b ↦ inr b
]

take-Sub : (n : ℕ) (xs : List Decl) → Sub (take n xs) xs
take-Sub zero xs d c = elim c [ ]
take-Sub (suc n) [] d c = c
take-Sub (suc n) (x ∷ xs) d (inl e) = inl e
take-Sub (suc n) (x ∷ xs) d (inr c) = inr (take-Sub n xs d c)

drop-Sub : (n : ℕ) (xs : List Decl) → Sub (drop n xs) xs
drop-Sub zero xs d c = c
drop-Sub (suc n) [] d c = c
drop-Sub (suc n) (x ∷ xs) d c = inr (drop-Sub n xs d c)

cut-Ends : (i : ℕ) (values : Slice) → Ends (λ (v : Slice). Sub v.array values.array) (cut i values)
unfolding cut
cut-Ends i values = go (ltb values.size (suc i))
  where
    shifted :
        Sub
          (take i values.array
            ++ (drop (suc i) (take values.size values.array)
                ++ drop (values.size - 1) values.array))
          values.array
    shifted d c = elim (Contains-append d (take i values.array) _ c) [
      | inl a ↦ take-Sub i values.array d a
      | inr more ↦ elim (Contains-append d (drop (suc i) (take values.size values.array)) _ more) [
        | inl a ↦
            take-Sub values.size values.array d
              (drop-Sub (suc i) (take values.size values.array) d a)
        | inr a ↦ drop-Sub (values.size - 1) values.array d a
      ]
    ]

    go :
        (b : Bool)
        → Ends
            (λ (v : Slice). Sub v.array values.array)
            (if b
              then panics
              else done (record {
                array =
                    take i values.array
                    ++ (drop (suc i) (take values.size values.array)
                        ++ drop (values.size - 1) values.array);
                size = values.size - 1;
              }))
    go true = tt
    go false = shifted

pruned-Ends :
    (d : Decl) (i : ℕ) (values : Slice)
    → Ends (λ (v : Slice). Sub v.array values.array) (pruned d i values)
pruned-Ends d i values = go (is_private d)
  where
    go :
        (b : Bool)
        → Ends (λ (v : Slice). Sub v.array values.array) (if b then cut i values else done values)
    go true = cut-Ends i values
    go false = λ x c. c

module _ (n : ℕ) (visit : ℕ → Heap → Outcome Heap) (decls : List Decl) (start : Heap) where
  -- The loop keeps to the elements it began with.
  loop-Ends :
      ((address : ℕ) (heap : Heap)
        → IsWithin n heap (heap address)
        → Ends (λ (h : Heap). Smaller h heap) (visit address heap))
      → IsWithin (suc n) start decls
      → (left i : ℕ) (values : Slice) (heap : Heap) → Sub values.array decls
      → Smaller heap start
      → Ends
          (λ (r : Slice × Heap). Sub r.0.array decls × Smaller r.1 start)
          (loop visit left i values heap)
  unfolding loop
  loop-Ends visited deep zero i values heap sub smaller = (sub, smaller)
  loop-Ends visited deep (suc left) i values heap sub smaller =
      go (loop-Ends visited deep left (suc i)) (get_elem? values.array i) refl
    where
      descends :
          (d : Decl) → Contains d decls → Ends (λ (h : Heap). Smaller h heap) (descend visit d heap)
      descends (field attrs (some address)) c = visited address heap (
          IsWithin-Smaller n heap start (heap address) (start address) smaller (smaller address)
            (deep attrs address c))
      descends (field attrs none) c = λ a d k. k
      descends other c = λ a d k. k

      go :
          ((v : Slice) (h : Heap)
            → Sub v.array decls
            → Smaller h start
            → Ends
                (λ (r : Slice × Heap). Sub r.0.array decls × Smaller r.1 start)
                (loop visit left (suc i) v h))
          → (o : Option Decl) → get_elem? values.array i ≡ o
          → Ends
              (λ (r : Slice × Heap). Sub r.0.array decls × Smaller r.1 start)
              (turn visit (loop visit left (suc i)) o i values heap)
      go again none e = tt
      go again (some d) e =
          Ends-and_then (λ (v : Slice). Sub v.array values.array) _ (pruned d i values) _
            (pruned-Ends d i values)
            (λ v s.
              Ends-and_then (λ (h : Heap). Smaller h heap) _ (descend visit d heap) _
                (descends d (sub d (Contains-get_elem? values.array i d e)))
                (λ h k. again v h (λ x c. sub x (s x c)) (λ a x c. smaller a x (k a x c))))

put-Smaller :
    (address : ℕ) (elts : List Decl) (heap left : Heap)
    → Sub elts (heap address)
    → Smaller left heap
    → Smaller (put address elts left) heap
put-Smaller address elts heap left sub smaller a = go (nat_eq a address) refl
  where
    go : (b : Bool) → nat_eq a address ≡ b → Sub (if b then elts else left a) (heap a)
    go true e = subst (λ k. Sub elts (heap k)) (ground arith) sub
    go false e = smaller a

remove_private_fields-Ends :
    (fuel : ℕ) (decls : List Decl) (heap : Heap)
    → IsWithin fuel heap decls
    → Ends
        (λ (r : List Decl × Heap). Sub r.0 decls × Smaller r.1 heap)
        (remove_private_fields fuel decls heap)
unfolding remove_private_fields
remove_private_fields-Ends zero decls heap deep = deep
remove_private_fields-Ends (suc fuel) decls heap deep =
    Ends-and_then (λ r. Sub r.0.array decls × Smaller r.1 heap) _ _ _
      (loop-Ends fuel (visited_by (remove_private_fields fuel)) decls heap
        (λ address at d.
          Ends-and_then (λ r. Sub r.0 (at address) × Smaller r.1 at) _ _ _
            (remove_private_fields-Ends fuel (at address) at d)
            (λ r k. put-Smaller address r.0 at r.1 k.0 k.1))
        deep (length decls) 0 (record { array = decls; size = length decls }) heap (λ d c. c)
        (λ a d c. c))
      (λ r k. (λ d c. k.0 d (take-Sub r.0.size r.0.array d c), k.1))

-- Fuel above the depth of the structs is enough: the removal ends with a value or a panic, and never
-- for want of fuel.
pub remove_private_fields_total :
    (fuel : ℕ) (decls : List Decl) (heap : Heap) (e : Error)
    → IsWithin fuel heap decls
    → remove_private_fields fuel decls heap ≢ fails e
remove_private_fields_total fuel decls heap e deep h =
    absurd (subst (Ends _) h (remove_private_fields-Ends fuel decls heap deep))
