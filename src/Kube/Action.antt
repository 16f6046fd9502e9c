-- ===== src/Kube/Action.antt =====
-- A Go function that changes an object and calls the outside world. A function ends with a value,
-- with an error or with a panic; what it wrote before stays written.
pub mod Maintains
pub mod Succeeds
use mpas_product_controller.Base.{
  ◌≡◌, refl, ◌⊎◌, inl, inr, Bool, Option, none, some, List, ◌∷◌, if◌then◌else◌,
}
use mpas_product_controller.Kube.Errors.{Error, join}

pub data Outcome {ℓ} (A : Type ℓ) : Type ℓ where
  done : A → Outcome A
  fails : Error → Outcome A
  panics : Outcome A

-- To split on an answer and keep the equation.
pub Outcome-cases {ℓ} :
    {A : Type ℓ} (r : Outcome A)
    → ((a : A) × (r ≡ done a)) ⊎ (((e : Error) × (r ≡ fails e)) ⊎ (r ≡ panics))
Outcome-cases (done a) = inl (a, refl)
Outcome-cases (fails e) = inr (inl (e, refl))
Outcome-cases panics = inr (inr refl)

-- `if err != nil { return fmt.Errorf(...) }` and the value, outside an action.
abbrev pub mapped {ℓ κ} :
    {A : Type ℓ} {B : Type κ} → (A → B) → (Error → Error) → Outcome A → Outcome B
mapped f w (done a) = done (f a)
mapped f w (fails e) = fails (w e)
mapped f w panics = panics

-- `if err != nil { return err }` outside an action, and the same for a panic.
abbrev pub and_then : {A B : Type 0} → Outcome A → (A → Outcome B) → Outcome B
and_then (done a) f = f a
and_then (fails e) f = fails e
and_then panics f = panics

-- The object that is reconciled, in memory, and the calls made so far, the latest first.
pub record Session (C O : Type 0) : Type 0 where
  pub obj : O
  pub calls : List C

abbrev pub Action : Type 0 → Type 0 → Type 0
Action S A = S → Outcome A × S

-- The result of a function with a deferred one: errors.Join of both errors.
abbrev pub joined : {A : Type 0} → Outcome A → Outcome (Unit {0}) → Outcome A
joined panics _ = panics
joined (done a) (done _) = done a
joined (done a) (fails d) = fails d
joined (done a) panics = panics
joined (fails e) (done _) = fails e
joined (fails e) (fails d) = fails (join e d)
joined (fails e) panics = panics

module _ {S A : Type 0} where
  pub pure : A → Action S A
  pure a s = (done a, s)

  pub fail : Error → Action S A
  fail e s = (fails e, s)

  -- A nil dereference.
  pub panic : Action S A
  panic s = (panics, s)

  pub lift : Outcome A → Action S A
  lift r s = (r, s)

  -- A value that the code computes from the state.
  pub gets : (S → A) → Action S A
  gets f s = (done (f s), s)

  -- `items[i]`, with its panic out of range.
  pub index : Option A → Action S A
  index none s = (panics, s)
  index (some a) s = (done a, s)

  abbrev pub handle : Outcome A → (Error → Action S A) → Action S A
  handle (done a) h s = (done a, s)
  handle (fails e) h s = h e s
  handle panics h s = (panics, s)

  -- `if err != nil { ... }` after a call.
  pub on_error : Action S A → (Error → Action S A) → Action S A
  on_error m h s = let (r, s') = m s in handle r h s'

  abbrev value_of : Outcome A → S → Outcome (Outcome A) × S
  value_of (done a) s = (done (done a), s)
  value_of (fails e) s = (done (fails e), s)
  value_of panics s = (panics, s)

  -- A call whose error the function keeps as a value and goes on.
  pub attempt : Action S A → Action S (Outcome A)
  attempt m s = let (r, s') = m s in value_of r s'

  -- A deferred function runs however the body ends.
  pub deferring : Action S A → Action S (Unit {0}) → Action S A
  deferring m d s = let (r, s') = m s in let (q, s'') = d s' in (joined r q, s'')

module _ {S A B : Type 0} where
  abbrev found_or :
      (Error → Bool) → Outcome A → Action S B → (Error → Error) → (A → Action S B) → Action S B
  found_or is_not_found (done a) missing failure rest s = rest a s
  found_or is_not_found (fails e) missing failure rest s =
      if is_not_found e then missing s else (fails (failure e), s)
  found_or is_not_found panics missing failure rest s = (panics, s)

  -- `if err := r.Get(...); err != nil { if apierrors.IsNotFound(err) { missing }; return failure }`
  -- and the rest of the function.
  pub fetch :
      (Error → Bool) → Action S A → Action S B → (Error → Error) → (A → Action S B) → Action S B
  fetch is_not_found m missing failure rest s =
      let (r, s') = m s in found_or is_not_found r missing failure rest s'

module _ {C O : Type 0} where
  pub read : Action (Session C O) O
  read s = (done s.obj, s)

  pub modify : (O → O) → Action (Session C O) (Unit {0})
  modify f s = (done tt, record s { obj = f s.obj })

  -- A call of the outside world, whose answer may depend on all calls before it.
  pub call : {A : Type 0} → C → (List C → Outcome A) → Action (Session C O) A
  call c answer s = (answer s.calls, record s { calls = c ∷ s.calls })

  -- A call whose answer is not read.
  pub tell : C → Action (Session C O) (Unit {0})
  tell c s = (done tt, record s { calls = c ∷ s.calls })

module _ {S A B : Type 0} where
  abbrev pub continue : Outcome A → (A → Action S B) → Action S B
  continue (done a) f s = f a s
  continue (fails e) f s = (fails e, s)
  continue panics f s = (panics, s)

  infixl 5 ◌>>=◌ ◌>>◌
  -- Opening this opens the other combinators too.
  unfoldable pub ◌>>=◌ : Action S A → (A → Action S B) → Action S B
  unfolding pure fail panic lift gets index on_error attempt deferring fetch read modify call tell
  ◌>>=◌ m f s = let (r, s') = m s in continue r f s'

  abbrev pub ◌>>◌ : Action S A → Action S B → Action S B
  m >> k = m >>= λ _. k
