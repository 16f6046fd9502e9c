-- ===== src/ConfigFile/Steps.antt =====
-- What fetchExistingConfigFile does with the artifact of the repository.
use mpas_product_controller.Base.{
  ◌≡◌, ◌≢◌, refl, sym, subst, ap, ◌∙◌, inl, inr, String, true, Option, none, some, List, [], ◌∷◌,
  ◌++◌, map, arith, Bool-cases,
}
use mpas_product_controller.Kube.Errors.{Error}
use mpas_product_controller.Kube.Action.{
  Outcome, Session, Outcome-cases, ◌>>=◌, done, fails, panics, attempt,
}
use mpas_product_controller.Kube.Action.Succeeds.{steps}
use mpas_product_controller.Download.{fetch_file}
use mpas_product_controller.Download
use mpas_product_controller.ConfigFile.{
  Call, Env, Run, within, load_file, remove, after_fetch, with_artifact,
}

module _ (env : Env) (product : String) where
  -- The content of the path was loaded and sanitized, and the last call was to remove the directory.
  pub record IsRead (path dir file : String) (s : Session Call (Unit {0})) (final : List Call)
      : Type 0 where
    pub raw : String
    pub loaded : env.load s.calls product path ≡ done raw
    pub clean : env.sanitize raw ≡ done file
    pub removed : final ≡ Call.remove_all dir ∷ Call.load product path ∷ s.calls

  load_file-IsRead :
      (path dir file : String) (s : Session Call (Unit {0}))
      → (after_fetch env product (done (path, dir)) s).0 ≡ done (some file)
      → IsRead path dir file s (after_fetch env product (done (path, dir)) s).1.calls
  unfolding after_fetch load_file remove ◌>>=◌
  load_file-IsRead path dir file s h = elim (Outcome-cases (env.load s.calls product path)) [
    | inl (raw, e) ↦ elim (Outcome-cases (env.sanitize raw)) [
      | inl (clean, f) ↦
          elim (Outcome-cases (env.remove_all (Call.load product path ∷ s.calls) dir)) [
            | inl (_, g) ↦ record {
              raw = raw;
              loaded = e;
              clean = ground arith;
              removed = ground arith;
            }
            | inr (inl (_, g)) ↦ record {
              raw = raw;
              loaded = e;
              clean = ground arith;
              removed = ground arith;
            }
            | inr (inr g) ↦ absurd (ground arith)
          ]
      | inr bad ↦ absurd (ground arith)
    ]
    | inr bad ↦ absurd (ground arith)
  ]

  fails_never :
      (e : Error) (file : String) (s : Session Call (Unit {0}))
      → (after_fetch env product (fails e) s).0 ≢ done (some file)
  unfolding after_fetch ◌>>=◌
  fails_never e file s h = elim (Bool-cases (env.is_not_exist e)) [
    | inl a ↦ absurd (ground arith)
    | inr a ↦ absurd (ground arith)
  ]

  panics_never :
      (answer : Option String) (s : Session Call (Unit {0}))
      → (after_fetch env product panics s).0 ≢ done answer
  unfolding after_fetch ◌>>=◌
  panics_never file s h = absurd (ground arith)

  -- What the look for the file found, and what was read of it.
  abbrev ReadAs : Outcome (String × String) → String → Session Call (Unit {0}) → List Call → Type 0
  ReadAs found file s final =
      (path dir : String) × (found ≡ done (path, dir)) × IsRead path dir file s final

  after_fetch-ReadAs :
      (found : Outcome (String × String)) (file : String) (s : Session Call (Unit {0}))
      → (after_fetch env product found s).0 ≡ done (some file)
      → ReadAs found file s (after_fetch env product found s).1.calls
  after_fetch-ReadAs (done (path, dir)) file s h =
      (path, dir, refl, load_file-IsRead path dir file s h)
  after_fetch-ReadAs (fails e) file s h = absurd (fails_never e file s h)
  after_fetch-ReadAs panics file s h = absurd (panics_never (some file) s h)

  no_artifact :
      (answer : Option String) (s : Session Call (Unit {0}))
      → (with_artifact env product none s).0 ≢ done answer
  unfolding with_artifact ◌>>=◌
  no_artifact answer s h = absurd (ground arith)

  attempted :
      (m : Download.Env → Download.Run (String × String)) (s : Session Call (Unit {0})) (e : Error)
      → (attempt (within env m) s).0 ≡ done (fails e)
      → (m (env.archive s.calls) (record { obj = tt; calls = [] })).0 ≡ fails e
  unfolding within ◌>>=◌
  attempted m s e h =
      elim (Outcome-cases (m (env.archive s.calls) (record { obj = tt; calls = [] })).0) [
        | inl (a, f) ↦ absurd (ground arith)
        | inr (inl (a, f)) ↦ ground arith
        | inr (inr f) ↦ absurd (ground arith)
      ]

  -- A run of fetchFile on the artifact, after the calls made before.
  abbrev pub fetched :
      String → List Call → Outcome (String × String) × Session Download.Call (Unit {0})
  fetched url calls = fetch_file (env.archive calls) url product (record { obj = tt; calls = [] })

  -- The calls of that run, among those of this one.
  abbrev pub unpacked : String → List Call → List Call
  unpacked url calls = map Call.archive (fetched url calls).1.calls ++ calls

  attempted_value :
      {A : Type 0} (m : Run A) (s : Session Call (Unit {0})) (a : A)
      → (attempt m s).0 ≡ done (done a)
      → ((m s).0 ≡ done a) × ((attempt m s).1 ≡ (m s).1)
  unfolding ◌>>=◌
  attempted_value m s a h = elim (Outcome-cases (m s).0) [
    | inl (b, e) ↦ (ground arith, rw e refl)
    | inr (inl (x, e)) ↦ absurd (ground arith)
    | inr (inr e) ↦ absurd (ground arith)
  ]

  within_lem :
      (url : String) (s : Session Call (Unit {0}))
      → within env (λ archive. fetch_file archive url product) s
        ≡ ((fetched url s.calls).0, record s { calls = unpacked url s.calls })
  unfolding within
  within_lem url s = refl

  pub with_artifact-IsRead :
      (artifact : Option String) (file : String) (s : Session Call (Unit {0}))
      → (with_artifact env product artifact s).0 ≡ done (some file)
      → (url path dir : String) × (artifact ≡ some url)
        × ((fetched url s.calls).0 ≡ done (path, dir))
        × IsRead path dir file
            (record s { calls = unpacked url s.calls })
            (with_artifact env product artifact s).1.calls
  unfolding with_artifact
  with_artifact-IsRead none file s h = absurd (no_artifact (some file) s h)
  with_artifact-IsRead (some url) file s h =
      steps
        (λ r.
          (url' path dir : String) × (some url ≡ some url')
          × ((fetched url' s.calls).0 ≡ done (path, dir))
          × IsRead path dir file (record s { calls = unpacked url' s.calls }) r.1.calls)
        _ _ s (some file) h
        (λ found a h1.
          let (path, dir, is_found, is_read) = after_fetch-ReadAs found file _ h1 in
          let (e, moved) =
            attempted_value (within env (λ archive. fetch_file archive url product)) s (path, dir)
              (a ∙ ap done is_found) in
          (
            url,
            path,
            dir,
            refl,
            ap (λ x. x.0) (sym (within_lem url s)) ∙ e,
            subst
                (λ t.
                  IsRead path dir file t
                    (after_fetch env product found
                      (attempt (within env (λ archive. fetch_file archive url product))
                        s).1).1.calls)
                (moved ∙ ap (λ x. x.1) (within_lem url s)) is_read,
          ))

  after_fetch_absent :
      (found : Outcome (String × String)) (s : Session Call (Unit {0}))
      → (after_fetch env product found s).0 ≡ done none
      → (e : Error) × (env.is_not_exist e ≡ true) × (found ≡ fails e)
  unfolding after_fetch load_file remove ◌>>=◌
  after_fetch_absent (done (path, dir)) s h = elim (Outcome-cases (env.load s.calls product path)) [
    | inl (raw, e) ↦ elim (Outcome-cases (env.sanitize raw)) [
      | inl (clean, f) ↦
          elim (Outcome-cases (env.remove_all (Call.load product path ∷ s.calls) dir)) [
            | inl (_, g) ↦ absurd (ground arith)
            | inr (inl (_, g)) ↦ absurd (ground arith)
            | inr (inr g) ↦ absurd (ground arith)
          ]
      | inr bad ↦ absurd (ground arith)
    ]
    | inr bad ↦ absurd (ground arith)
  ]
  after_fetch_absent (fails e) s h = elim (Bool-cases (env.is_not_exist e)) [
    | inl a ↦ (e, a, refl)
    | inr a ↦ absurd (ground arith)
  ]
  after_fetch_absent panics s h = absurd (ground arith)

  pub with_artifact_absent :
      (artifact : Option String) (s : Session Call (Unit {0}))
      → (with_artifact env product artifact s).0 ≡ done none
      → (url : String) × (e : Error) × (artifact ≡ some url)
        × (env.is_not_exist e ≡ true)
        × ((fetch_file (env.archive s.calls) url product (record { obj = tt; calls = [] })).0
            ≡ fails e)
  unfolding with_artifact
  with_artifact_absent none s h = absurd (no_artifact none s h)
  with_artifact_absent (some url) s h =
      steps
        (λ r.
          (url' : String) × (e : Error) × (some url ≡ some url')
          × (env.is_not_exist e ≡ true)
          × ((fetch_file (env.archive s.calls) url' product (record { obj = tt; calls = [] })).0
              ≡ fails e))
        _ _ s none h
        (λ found a h1.
          let (e, absent, f) = after_fetch_absent found _ h1 in
          (
            url,
            e,
            refl,
            absent,
            attempted (λ archive. fetch_file archive url product) s e (a ∙ ap done f),
          ))
