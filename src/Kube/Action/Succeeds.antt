-- ===== src/Kube/Action/Succeeds.antt =====
-- What a block that ends with a value has done: each of its steps has ended with a value.
use mpas_product_controller.Base.{◌≡◌, ◌≢◌, ap, sym, ◌∙◌, subst, inl, inr, arith}
use mpas_product_controller.Kube.Errors.{Error}
use mpas_product_controller.Kube.Action.{
  Outcome, Outcome-cases, Action, done, pure, fail, on_error, continue, handle, ◌>>=◌,
}

-- The block `m >>= f` has run `m` to a value, and is the rest of the block from there.
record Steps {S A B : Type 0} (m : Action S A) (f : A → Action S B) (s : S) (b : B) : Type 0 where
  value : A
  first : (m s).0 ≡ done value
  same : (m >>= f) s ≡ f value (m s).1
  rest : (f value (m s).1).0 ≡ done b

module _ {S A B : Type 0} where
  bind_steps :
      (m : Action S A) (f : A → Action S B) (s : S) (a : A)
      → (m s).0 ≡ done a
      → (m >>= f) s ≡ f a (m s).1
  unfolding ◌>>=◌
  bind_steps m f s a e = ap (λ r. continue r f (m s).1) e

  bind-Steps :
      (m : Action S A) (f : A → Action S B) (s : S) (b : B)
      → ((m >>= f) s).0 ≡ done b
      → Steps m f s b
  unfolding ◌>>=◌
  bind-Steps m f s b h = elim (Outcome-cases (m s).0) [
    | inl (a, e) ↦ record {
      value = a;
      first = e;
      same = bind_steps m f s a e;
      rest = ap (λ x. x.0) (sym (bind_steps m f s a e)) ∙ h;
    }
    | inr bad ↦ absurd (ground arith)
  ]

  -- To prove a fact of the result of a block, prove it of the rest of the block.
  pub steps :
      (G : Outcome B × S → Type 0) (m : Action S A) (f : A → Action S B) (s : S) (b : B)
      → ((m >>= f) s).0 ≡ done b
      → ((a : A) → (m s).0 ≡ done a → (f a (m s).1).0 ≡ done b → G (f a (m s).1))
      → G ((m >>= f) s)
  steps G m f s b h k =
      let r = bind-Steps m f s b h in subst G (sym r.same) (k r.value r.first r.rest)

module _ {S A : Type 0} where
  -- The handlers that wrap an error return no value.
  pub fail_never : (e : Error) (s : S) (a : A) → (fail {A = A} e s).0 ≢ done a
  unfolding ◌>>=◌
  fail_never e s a h = absurd (ground arith)

  -- Nothing but the value comes of `pure`.
  pub pure_keeps : (P : S → Type 0) (a : A) (s : S) → P s → P (pure a s).1
  unfolding ◌>>=◌
  pure_keeps P a s p = p

  -- A handler that always fails or panics has not run.
  pub on_error_steps :
      (m : Action S A) (handler : Error → Action S A) (s : S) (a : A)
      → ((e : Error) (t : S) → (handler e t).0 ≢ done a)
      → (on_error m handler s).0 ≡ done a
      → ((m s).0 ≡ done a) × (on_error m handler s ≡ m s)
  unfolding on_error
  on_error_steps m handler s a never h = elim (Outcome-cases (m s).0) [
    | inl (b, e) ↦
        let same = ap (λ r. handle r handler (m s).1) e in
        (e ∙ ap (λ x. x.0) (sym same) ∙ h, same ∙ ap (λ r. (r, (m s).1)) (sym e))
    | inr (inl (e, f)) ↦
        absurd (never e (m s).1 (ap (λ r. (handle r handler (m s).1).0) (sym f) ∙ h))
    | inr (inr f) ↦ absurd (ground arith)
  ]
