-- ===== src/Kube/Store.antt =====
-- controllerutil.CreateOrUpdate, of which the model knows only the documented contract: the library
-- looks the object up, hands the callback the cluster's object, or the given one if there is none,
-- and writes what the callback has made of it, unless the callback has left the cluster's object as
-- it was.
use mpas_product_controller.Base.{
  ◌≡◌, refl, ap, ◌∙◌, inl, inr, Bool, false, List, ◌∷◌, Option, none, some, if◌then◌else◌, arith,
  Bool-cases,
}
use mpas_product_controller.Kube.Action.{
  Outcome, Outcome-cases, done, Session, Action, pure, lift, gets, call, ◌>>=◌, ◌>>◌,
}
use mpas_product_controller.Kube.Action.Maintains.{
  Maintains, Maintains-bind, Maintains-gets, Maintains-lift, Maintains-call, Maintains-pure,
  Maintains-if,
}

-- `find` is the look for the given object, with `none` where the cluster has no such object, and
-- `write` the create or update, each given the calls made before. `same` is the library's
-- equality.Semantic.DeepEqual.
pub record Store (C T : Type 0) : Type 0 where
  pub find : List C → T → Outcome (Option T)
  pub same : T → T → Bool
  pub write : List C → T → Outcome (Unit {0})

-- The object that the callback is handed.
abbrev pub handed {ℓ} : {T : Type ℓ} → T → Option T → T
handed desired none = desired
handed desired (some t) = t

-- Only an object of the cluster can be left as it was.
abbrev pub is_unchanged : {C T : Type 0} → Store C T → Option T → T → Bool
is_unchanged store none mutated = false
is_unchanged store (some t) mutated = store.same t mutated

module _ {C T O : Type 0} where
  -- The call appears in the log as `written`, with the object that the callback has left.
  unfoldable pub create_or_update :
      Store C T → (T → C) → (T → Outcome T) → T → Action (Session C O) T
  unfolding ◌>>=◌
  create_or_update store written mutate desired = do
    found ← gets (λ s. store.find s.calls desired)
    existing ← lift found
    mutated ← lift (mutate (handed desired existing))
    if is_unchanged store existing mutated
        then pure mutated
        else call (written mutated) (λ calls. store.write calls mutated) >> pure mutated

-- What a CreateOrUpdate that succeeds has done, from the log `before` on: `final` is the log that
-- it leaves, and `t` the object that it ends with.
pub record Stored {C T : Type 0} (store : Store C T) (written : T → C) (mutate : T → Outcome T)
    (desired : T) (before : List C) (t : T) (final : List C) : Type 0 where
  pub existing : Option T
  pub found : store.find before desired ≡ done existing
  pub mutated : mutate (handed desired existing) ≡ done t
  pub recorded : final ≡ (if is_unchanged store existing t then before else written t ∷ before)

module _ {C T O : Type 0} (store : Store C T) (written : T → C) (mutate : T → Outcome T)
    (desired : T) where
  create_or_update_stores :
      (s : Session C O) (t b : T) (a : Option T)
      → store.find s.calls desired ≡ done a
      → mutate (handed desired a) ≡ done b
      → (create_or_update store written mutate desired s).0 ≡ done t
      → (b ≡ t)
        × ((create_or_update store written mutate desired s).1.calls
            ≡ (if is_unchanged store a b then s.calls else written b ∷ s.calls))
  unfolding create_or_update ◌>>=◌
  create_or_update_stores s t b a e f h = elim (Bool-cases (is_unchanged store a b)) [
    | inl u ↦ (ground arith, rw (e, f, u) refl)
    | inr u ↦ elim (Outcome-cases (store.write s.calls b)) [
      | inl (done_, g) ↦ (ground arith, rw (e, f, u, g) refl)
      | inr bad ↦ absurd (ground arith)
    ]
  ]

  pub create_or_update-Stored :
      (s : Session C O) (t : T)
      → (create_or_update store written mutate desired s).0 ≡ done t
      → Stored store written mutate desired s.calls t
          (create_or_update store written mutate desired s).1.calls
  unfolding create_or_update ◌>>=◌
  create_or_update-Stored s t h = elim (Outcome-cases (store.find s.calls desired)) [
    | inl (a, e) ↦ elim (Outcome-cases (mutate (handed desired a))) [
      | inl (b, f) ↦
          let (q, calls) = create_or_update_stores s t b a e f h in
          record {
            existing = a;
            found = e;
            mutated = f ∙ ap done q;
            recorded =
                calls ∙ ap (λ x. if is_unchanged store a x then s.calls else written x ∷ s.calls) q;
          }
      | inr bad ↦ absurd (ground arith)
    ]
    | inr bad ↦ absurd (ground arith)
  ]

module _ {C T O : Type 0} {P : Session C O → Type 0} where
  -- The invariant need hold only of the writes that take place.
  pub Maintains-create_or_update :
      (store : Store C T) (written : T → C) (mutate : T → Outcome T) (desired : T)
      → ((t : T) (s : Session C O) → P s → P (record s { calls = written t ∷ s.calls }))
      → Maintains P (create_or_update store written mutate desired)
  unfolding create_or_update
  Maintains-create_or_update store written mutate desired k =
      Maintains-bind _ _ (Maintains-gets _) λ found.
        Maintains-bind _ _ (Maintains-lift found) λ existing.
          Maintains-bind _ _ (Maintains-lift (mutate (handed desired existing))) λ mutated.
            Maintains-if (is_unchanged store existing mutated) _ _ (λ _. Maintains-pure mutated)
              (λ _.
                Maintains-bind (call (written mutated) (λ calls. store.write calls mutated)) _
                  (Maintains-call (written mutated) (λ calls. store.write calls mutated)
                    (k mutated))
                  λ _. Maintains-pure mutated)
