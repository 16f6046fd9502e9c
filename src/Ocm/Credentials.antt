-- ===== src/Ocm/Credentials.antt =====
-- The credentials that a service account brings.
use mpas_product_controller.Base.{
  ◌≡◌, refl, subst, ap, ◌↔◌, inl, inr, String, List, [], ◌∷◌, some, arith, Option-cases,
}
use mpas_product_controller.Kube.Errors.{Key}
use mpas_product_controller.Kube.Action.{Session, Outcome-cases, ◌>>=◌, done}
use mpas_product_controller.Kube.Action.Succeeds.{steps}
use mpas_product_controller.Ocm.{
  Call, Env, Secret, docker_config_key, entry, configure_secret, configure_all,
}

module _ {Version Resource Method Stream : Type 0} (env : Env Version Resource Method Stream)
    (namespace : String) where
  abbrev key_of : String → Key
  key_of name = record { name = name; namespace = namespace }

  -- The secrets of the names were read one after the other, each right before the credentials of its
  -- docker configuration were added: from the first trail of calls to the second.
  pub data IsConfigured : List String → List Call → List Call → Type 0 where
    all_added : {calls : List Call} → IsConfigured [] calls calls
    added :
        {name : String} {names : List String} {before after : List Call} (secret : Secret)
        (config : String)
        → env.get_secret before (key_of name) ≡ done secret
        → entry docker_config_key secret.data_of ≡ some config
        → env.configure (Call.get_secret (key_of name) ∷ before) config ≡ done tt
        → IsConfigured names (Call.configure config ∷ Call.get_secret (key_of name) ∷ before) after
        → IsConfigured (name ∷ names) before after

  -- One turn that ends with no error.
  record Turn (name : String) (s : Session Call (Unit {0})) : Type 0 where
    secret : Secret
    config : String
    got : env.get_secret s.calls (key_of name) ≡ done secret
    has : entry docker_config_key secret.data_of ≡ some config
    put : env.configure (Call.get_secret (key_of name) ∷ s.calls) config ≡ done tt
    moved :
        (configure_secret env namespace name s).1
        ≡ record s { calls = Call.configure config ∷ Call.get_secret (key_of name) ∷ s.calls }

  turn :
      (name : String) (s : Session Call (Unit {0}))
      → (configure_secret env namespace name s).0 ≡ done tt
      → Turn name s
  unfolding configure_secret ◌>>=◌
  turn name s h = elim (Outcome-cases (env.get_secret s.calls (key_of name))) [
    | inl (secret, a) ↦ elim (Option-cases (entry docker_config_key secret.data_of)) [
      | inl b ↦ absurd (ground arith)
      | inr (config, b) ↦
          elim (Outcome-cases (env.configure (Call.get_secret (key_of name) ∷ s.calls) config)) [
            | inl (_, c) ↦ record {
              secret = secret;
              config = config;
              got = a;
              has = b;
              put = c;
              moved = ground arith;
            }
            | inr bad ↦ absurd (ground arith)
          ]
    ]
    | inr bad ↦ absurd (ground arith)
  ]

  none_left :
      (s : Session Call (Unit {0}))
      → IsConfigured [] s.calls (configure_all env namespace [] s).1.calls
  unfolding configure_all ◌>>=◌
  none_left s = all_added

  configure_all-IsConfigured :
      (names : List String) (s : Session Call (Unit {0}))
      → (configure_all env namespace names s).0 ≡ done tt
      → IsConfigured names s.calls (configure_all env namespace names s).1.calls
  unfolding configure_all
  configure_all-IsConfigured [] s h = none_left s
  configure_all-IsConfigured (name ∷ names) s h =
      steps (λ r. IsConfigured (name ∷ names) s.calls r.1.calls) _ _ s tt h
        (λ _ a h1.
          let t = turn name s a in
          added t.secret t.config t.got t.has t.put (
            subst
              (λ x.
                IsConfigured names x
                  (configure_all env namespace names
                    (configure_secret env namespace name s).1).1.calls)
              (ap (λ x. x.calls) t.moved)
              (configure_all-IsConfigured names (configure_secret env namespace name s).1 h1)))

  configured :
      (names : List String) (s : Session Call (Unit {0})) (after : List Call)
      → IsConfigured names s.calls after
      → configure_all env namespace names s ≡ (done tt, record s { calls = after })
  unfolding configure_all configure_secret ◌>>=◌
  configured names s after all_added = refl
  configured names s after (added secret config a b c rest) =
      rw (a, b, c) (configured _ (record s { calls = _ }) after rest)

  -- Every image pull secret is added, in order, and nothing else happens, exactly when the loop over
  -- them ends with no error: when each secret can be read, holds a docker configuration, and the
  -- library takes it.
  pub configure_all_iff :
      (names : List String) (s : Session Call (Unit {0}))
      → ((configure_all env namespace names s).0 ≡ done tt)
        ↔ IsConfigured names s.calls (configure_all env namespace names s).1.calls
  configure_all_iff names s = (
    configure_all-IsConfigured names s,
    λ k. ap (λ r. r.0) (configured names s (configure_all env namespace names s).1.calls k),
  )
