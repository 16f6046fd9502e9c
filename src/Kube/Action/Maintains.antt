-- ===== src/Kube/Action/Maintains.antt =====
-- Invariants of actions: one rule for each way to build an action.
use mpas_product_controller.Base.{
  ◌≡◌, refl, Bool, true, false, List, Option, none, some, ◌∷◌, if◌then◌else◌,
}
use mpas_product_controller.Kube.Errors.{Error}
use mpas_product_controller.Kube.Action.{
  Outcome, done, fails, panics, Session, Action, pure, fail, panic, lift, gets, index, handle,
  on_error, value_of, attempt, deferring, found_or, fetch, read, modify, call, tell, continue,
  ◌>>=◌,
}

-- The action keeps `P`, however it ends.
pub record Maintains {S A : Type 0} (P : S → Type 0) (m : Action S A) : Type 0 where
  pub kept : (s : S) → P s → P (m s).1

module _ {S A : Type 0} {P : S → Type 0} where
  pub Maintains-panic : Maintains P (panic {A = A})
  unfolding panic
  Maintains-panic = record { kept = λ s h. h }

  pub Maintains-index : (o : Option A) → Maintains P (index o)
  unfolding index
  Maintains-index o = record {
    kept = λ s h. elim o as (λ o'. P (index o' s).1) [ none ↦ h | some a ↦ h ];
  }

  pub Maintains-if :
      (test : Bool) (one other : Action S A)
      → (test ≡ true → Maintains P one)
      → (test ≡ false → Maintains P other)
      → Maintains P (if test then one else other)
  Maintains-if test one other on_one on_other = go test refl
    where
      go : (b : Bool) → test ≡ b → Maintains P (if b then one else other)
      go true e = on_one e
      go false e = on_other e

  pub Maintains-lift : (outcome : Outcome A) → Maintains P (lift outcome)
  unfolding lift
  Maintains-lift outcome = record { kept = λ start p. p }

  pub Maintains-fail : (e : Error) → Maintains P (fail {A = A} e)
  unfolding fail
  Maintains-fail e = record { kept = λ s h. h }

  pub Maintains-gets : (look : S → A) → Maintains P (gets look)
  unfolding gets
  Maintains-gets look = record { kept = λ start p. p }

  pub Maintains-pure : (value : A) → Maintains P (pure value)
  unfolding pure
  Maintains-pure value = record { kept = λ start p. p }

  Maintains-handle :
      (r : Outcome A) (h : Error → Action S A)
      → ((e : Error) → Maintains P (h e))
      → (s : S) → P s
      → P (handle r h s).1
  Maintains-handle (done a) h kh s p = p
  Maintains-handle (fails e) h kh s p = (kh e).kept s p
  Maintains-handle panics h kh s p = p

  pub Maintains-on_error :
      (m : Action S A) (h : Error → Action S A)
      → Maintains P m
      → ((e : Error) → Maintains P (h e))
      → Maintains P (on_error m h)
  unfolding on_error
  Maintains-on_error m h km kh = record {
    kept = λ s p. let (r, s') = m s in Maintains-handle r h kh s' (km.kept s p);
  }

  pub Maintains-attempt : (m : Action S A) → Maintains P m → Maintains P (attempt m)
  unfolding attempt
  Maintains-attempt m km = record {
    kept = λ s p.
        let (r, s') = m s in
        elim r as (λ r'. P (value_of r' s').1) [
          | done a ↦ km.kept s p
          | fails e ↦ km.kept s p
          | panics ↦ km.kept s p
        ];
  }

  pub Maintains-deferring :
      (m : Action S A) (d : Action S (Unit {0}))
      → Maintains P m
      → Maintains P d
      → Maintains P (deferring m d)
  unfolding deferring
  Maintains-deferring m d km kd = record { kept = λ s p. kd.kept (m s).1 (km.kept s p) }

module _ {C O : Type 0} {P : Session C O → Type 0} where
  pub Maintains-read : Maintains P read
  unfolding read
  Maintains-read = record { kept = λ s h. h }

  pub Maintains-modify :
      (f : O → O)
      → ((s : Session C O) → P s → P (record s { obj = f s.obj }))
      → Maintains P (modify f)
  unfolding modify
  Maintains-modify f k = record { kept = k }

  pub Maintains-tell :
      (c : C)
      → ((s : Session C O) → P s → P (record s { calls = c ∷ s.calls }))
      → Maintains P (tell c)
  unfolding tell
  Maintains-tell c k = record { kept = k }

module _ {C O A : Type 0} {P : Session C O → Type 0} where
  pub Maintains-call :
      (c : C) (answer : List C → Outcome A)
      → ((s : Session C O) → P s → P (record s { calls = c ∷ s.calls }))
      → Maintains P (call c answer)
  unfolding call
  Maintains-call c answer k = record { kept = k }

module _ {S A B : Type 0} {P : S → Type 0} where
  Maintains-continue :
      (r : Outcome A) (f : A → Action S B)
      → ((a : A) → r ≡ done a → Maintains P (f a))
      → (s : S) → P s
      → P (continue r f s).1
  Maintains-continue (done a) f kf s p = (kf a refl).kept s p
  Maintains-continue (fails e) f kf s p = p
  Maintains-continue panics f kf s p = p

  -- The rest of the block may use what the first action returned, and where it ran.
  pub Maintains-bind_on :
      (m : Action S A) (f : A → Action S B)
      → Maintains P m
      → ((s : S) (a : A) → P s → (m s).0 ≡ done a → Maintains P (f a))
      → Maintains P (m >>= f)
  unfolding ◌>>=◌
  Maintains-bind_on m f km kf = record {
    kept = λ s p. let (r, s') = m s in Maintains-continue r f (λ a e. kf s a p e) s' (km.kept s p);
  }

  pub Maintains-bind :
      (m : Action S A) (f : A → Action S B)
      → Maintains P m
      → ((a : A) → Maintains P (f a))
      → Maintains P (m >>= f)
  Maintains-bind m f km kf = Maintains-bind_on m f km (λ s a p e. kf a)

  Maintains-found_or :
      (is_not_found : Error → Bool) (r : Outcome A) (missing : Action S B) (failure : Error → Error)
      (rest : A → Action S B)
      → Maintains P missing
      → ((a : A) → r ≡ done a → Maintains P (rest a))
      → (s : S) → P s
      → P (found_or is_not_found r missing failure rest s).1
  Maintains-found_or nf (done a) missing failure rest km kr s p = (kr a refl).kept s p
  Maintains-found_or nf (fails e) missing failure rest km kr s p =
      elim (nf e) as (λ b. P (if b then missing s else (fails (failure e), s)).1) [
        | true ↦ km.kept s p
        | false ↦ p
      ]
  Maintains-found_or nf panics missing failure rest km kr s p = p

  pub Maintains-fetch :
      (is_not_found : Error → Bool) (m : Action S A) (missing : Action S B)
      (failure : Error → Error) (rest : A → Action S B)
      → Maintains P m
      → Maintains P missing
      → ((s : S) (a : A) → P s → (m s).0 ≡ done a → Maintains P (rest a))
      → Maintains P (fetch is_not_found m missing failure rest)
  unfolding fetch
  Maintains-fetch nf m missing failure rest km kn kr = record {
    kept = λ s p.
        let (r, s') = m s in
        Maintains-found_or nf r missing failure rest kn (λ a e. kr s a p e) s' (km.kept s p);
  }

pub ruleset maintains_rules = (
  Maintains-pure, Maintains-fail, Maintains-panic, Maintains-lift, Maintains-gets, Maintains-index,
  Maintains-if, Maintains-on_error, Maintains-attempt, Maintains-deferring, Maintains-read,
  Maintains-modify, Maintains-tell, Maintains-call, Maintains-bind,
)
