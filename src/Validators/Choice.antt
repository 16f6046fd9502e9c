-- ===== src/Validators/Choice.antt =====
-- Which validator of a chain answers.
use mpas_product_controller.Base.{
  ◌≡◌, ◌≢◌, refl, ◌⊎◌, inl, inr, false, List, [], ◌∷◌, ◌!=◌, eq_iff, arith, Bool-cases, All,
  Contains,
}
use mpas_product_controller.Git.{Repository, Sync}
use mpas_product_controller.Validators.Hosts.{Env}
use mpas_product_controller.Validators.Chain.{
  Host, provider, set_status, is_done, unsupported, fail_validation, pass_validation,
  is_merged_or_closed,
}

module _ (env : Env) (repository : Repository) (sync : Sync) where
  -- The chain answers every question as the one validator does.
  pub record Answers (v : Host) (chain : List Host) (w : Host) : Type 0 where
    pub supports : repository.provider ≡ provider w
    pub fails :
        fail_validation env v chain repository sync ≡ set_status env w repository sync "error"
    pub passes :
        pass_validation env v chain repository sync ≡ set_status env w repository sync "success"
    pub asks : is_merged_or_closed env v chain repository sync ≡ is_done env w repository sync

  -- No validator of the chain supports the provider, and it makes no call.
  pub record Refuses (v : Host) (chain : List Host) : Type 0 where
    pub others : All (λ w. repository.provider ≢ provider w) (v ∷ chain)
    pub fails : fail_validation env v chain repository sync ≡ unsupported env repository
    pub passes : pass_validation env v chain repository sync ≡ unsupported env repository
    pub asks : is_merged_or_closed env v chain repository sync ≡ unsupported env repository

  -- A validator of the provider at the head answers.
  head-Answers :
      (v : Host) (chain : List Host)
      → (repository.provider != provider v) ≡ false
      → Answers v chain v
  unfolding fail_validation pass_validation is_merged_or_closed
  head-Answers v [] e = record {
    supports = ground (arith, eq_iff repository.provider (provider v));
    fails = rw e refl;
    passes = rw e refl;
    asks = rw e refl;
  }
  head-Answers v (next ∷ chain) e = record {
    supports = ground (arith, eq_iff repository.provider (provider v));
    fails = rw e refl;
    passes = rw e refl;
    asks = rw e refl;
  }

  -- Either a validator of the chain that supports the repository's provider answers all three
  -- questions, or none of them supports it and each question is answered by the error that says so,
  -- without any call.
  pub chain-Answers :
      (v : Host) (chain : List Host)
      → ((w : Host) × Contains w (v ∷ chain) × Answers v chain w) ⊎ Refuses v chain
  unfolding fail_validation pass_validation is_merged_or_closed
  chain-Answers v [] = elim (Bool-cases (repository.provider != provider v)) [
    | inl other ↦ inr (record {
      others = (λ h. ground (arith, eq_iff repository.provider (provider v)), tt);
      fails = rw other refl;
      passes = rw other refl;
      asks = rw other refl;
    })
    | inr own ↦ inl (v, inl refl, head-Answers v [] own)
  ]
  chain-Answers v (next ∷ chain) = elim (Bool-cases (repository.provider != provider v)) [
    | inl other ↦ elim (chain-Answers next chain) [
      | inl (w, c, a) ↦ inl (
        w,
        inr c,
        record {
          supports = a.supports;
          fails = rw other a.fails;
          passes = rw other a.passes;
          asks = rw other a.asks;
        },
      )
      | inr r ↦ inr (record {
        others = (λ h. ground (arith, eq_iff repository.provider (provider v)), r.others);
        fails = rw other r.fails;
        passes = rw other r.passes;
        asks = rw other r.asks;
      })
    ]
    | inr own ↦ inl (v, inl refl, head-Answers v (next ∷ chain) own)
  ]
