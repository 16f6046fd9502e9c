-- ===== src/Base/Lists.antt =====
-- Lists measured and indexed by native numbers, under the library's names, and membership by a
-- predicate on texts.
use Prim.Native.Nat.{ℕ, zero, suc, ◌+◌, ◌<◌}
use mathlib.Core.Path.{◌≡◌, refl}
use mathlib.Core.Bool.{Bool, true, false, ◌||◌}
use mathlib.Core.Logic.{◌⊎◌, inl, inr}
use mathlib.Core.List.{List, [], ◌∷◌, ◌++◌}
use mathlib.Core.Option.{Option, none, some}
use native.Mathlib.Omega.{arith}
use mpas_product_controller.Base.Tests.{if◌then◌else◌}

module _ {ℓ} {A : Type ℓ} where
  abbrev pub length : List A → ℕ
  length [] = 0
  length (x ∷ xs) = suc (length xs)

  abbrev pub get_elem? : List A → ℕ → Option A
  get_elem? [] i = none
  get_elem? (x ∷ xs) zero = some x
  get_elem? (x ∷ xs) (suc i) = get_elem? xs i

  pub length-append : (xs ys : List A) → length (xs ++ ys) ≡ length xs + length ys
  length-append [] ys = omega arith
  length-append (x ∷ xs) ys = omega (arith, length-append xs ys)

  -- A loop that appends each element which passes a test.
  abbrev pub keep : (A → Bool) → List A → List A
  keep p [] = []
  keep p (x ∷ xs) = let rest = keep p xs in if p x then x ∷ rest else rest

  abbrev pub any : (A → Bool) → List A → Bool
  any p [] = false
  any p (x ∷ xs) = p x || any p xs

  -- An index below the length has an element.
  pub get_elem?_total : (xs : List A) (i : ℕ) → i < length xs → (a : A) × (get_elem? xs i ≡ some a)
  get_elem?_total [] i h = elim h [ ]
  get_elem?_total (x ∷ xs) zero h = (x, refl)
  get_elem?_total (x ∷ xs) (suc i) h = get_elem?_total xs i (omega arith)

-- A predicate on every element, and on some element.
abbrev pub All {ℓ κ} : {A : Type ℓ} → (A → Type κ) → List A → Type κ
All P [] = Unit
All P (x ∷ xs) = P x × All P xs

abbrev pub Any {ℓ} : {A : Type ℓ} → (A → Type 0) → List A → Type 0
Any P [] = ⊥
Any P (x ∷ xs) = P x ⊎ Any P xs

module _ {A : Type 0} where
  -- The list contains the element.
  abbrev pub Contains : A → List A → Type 0
  Contains a = Any (λ x. x ≡ a)

  pub Contains-get_elem? : (xs : List A) (i : ℕ) (a : A) → get_elem? xs i ≡ some a → Contains a xs
  Contains-get_elem? [] i a h = absurd (cc)
  Contains-get_elem? (x ∷ xs) zero a h = inl (cc)
  Contains-get_elem? (x ∷ xs) (suc i) a h = inr (Contains-get_elem? xs i a h)

  Contains-cons :
      (p : A → Bool) (x : A) (xs kept : List A) (a : A) (b : Bool)
      → p x ≡ b
      → (Contains a kept → Contains a xs × (p a ≡ true))
      → Contains a (if b then x ∷ kept else kept)
      → Contains a (x ∷ xs) × (p a ≡ true)
  Contains-cons p x xs kept a true e ih (inl same) = (inl same, rw (← same) e)
  Contains-cons p x xs kept a true e ih (inr more) = (inr (ih more).0, (ih more).1)
  Contains-cons p x xs kept a false e ih more = (inr (ih more).0, (ih more).1)

  -- What passes a filter is in the list and passes the test.
  pub Contains-keep :
      (p : A → Bool) (xs : List A) (a : A) → Contains a (keep p xs) → Contains a xs × (p a ≡ true)
  Contains-keep p [] a h = elim h [ ]
  Contains-keep p (x ∷ xs) a h =
      Contains-cons p x xs (keep p xs) a (p x) refl (Contains-keep p xs a) h
