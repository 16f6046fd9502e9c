-- ===== src/ConfigFile/Found.antt =====
-- What fetchExistingConfigFile finds.
use mpas_product_controller.Base.{
  ◌≡◌, refl, subst, ap, ◌∙◌, inl, inr, String, true, Option, none, some, List, [], ◌∷◌, arith,
}
use mpas_product_controller.Kube.Errors.{Error, wrap}
use mpas_product_controller.Kube.Action.{
  Outcome, Session, Outcome-cases, ◌>>=◌, done, fails, panics, fail, lift, on_error, call,
}
use mpas_product_controller.Kube.Action.Succeeds.{steps}
use mpas_product_controller.Project.{Project}
use mpas_product_controller.Inventory.{fetch_git_repository}
use mpas_product_controller.Download.{fetch_file}
use mpas_product_controller.ConfigFile.{Call, Env, Run, with_artifact, fetch_existing_config_file}
use mpas_product_controller.ConfigFile.Steps.{
  IsRead, fetched, unpacked, with_artifact-IsRead, with_artifact_absent,
}

module _ (env : Env) (product : String) where
  abbrev get_artifact : String × String → Run (Option String)
  get_artifact repository =
      on_error
        (call (Call.get_repository (record { name = repository.0; namespace = repository.1 }))
          (λ calls.
            env.get_repository calls (record { name = repository.0; namespace = repository.1 })))
        (λ e. fail (wrap "failed to fetch git repository" e))

  -- The project names a repository with an artifact, and fetchFile ended with an error that says that
  -- a file does not exist.
  pub record IsMissing (project : Project) (s : Session Call (Unit {0})) : Type 0 where
    pub name : String
    pub namespace : String
    pub url : String
    pub err : Error
    pub named :
        fetch_git_repository env.git_repository_kind project.inventory ≡ done (name, namespace)
    pub has_artifact :
        env.get_repository s.calls (record { name = name; namespace = namespace }) ≡ done (some url)
    pub absent : env.is_not_exist err ≡ true
    pub failed :
        (fetch_file
          (env.archive
            (Call.get_repository (record { name = name; namespace = namespace }) ∷ s.calls))
          url
          product
          (record { obj = tt; calls = [] })).0
        ≡ fails err

  lifted :
      {A : Type 0} (o : Outcome A) (context : String) (s : Session Call (Unit {0})) (a : A)
      → (on_error (lift o) (λ e. fail (wrap context e)) s).0 ≡ done a
      → (o ≡ done a) × ((on_error (lift o) (λ e. fail (wrap context e)) s).1 ≡ s)
  unfolding ◌>>=◌
  lifted (done b) context s a h = (h, refl)
  lifted (fails e) context s a h = absurd (ground arith)
  lifted panics context s a h = absurd (ground arith)

  answered :
      {A : Type 0} (o : List Call → Outcome A) (c : Call) (context : String)
      (s : Session Call (Unit {0})) (a : A)
      → (on_error (call c o) (λ e. fail (wrap context e)) s).0 ≡ done a
      → (o s.calls ≡ done a)
        × ((on_error (call c o) (λ e. fail (wrap context e)) s).1
            ≡ record s { calls = c ∷ s.calls })
  unfolding ◌>>=◌
  answered o c context s a h = elim (Outcome-cases (o s.calls)) [
    | inl (b, e) ↦ (ground arith, ground arith)
    | inr bad ↦ absurd (ground arith)
  ]

  located :
      (project : Project) (repository : String × String) (artifact : Option String)
      (s : Session Call (Unit {0}))
      → fetch_git_repository env.git_repository_kind project.inventory ≡ done repository
      → (get_artifact repository s).0 ≡ done artifact
      → (with_artifact env product artifact (get_artifact repository s).1).0 ≡ done none
      → IsMissing project s
  located project repository artifact s named b h =
      let (answer, moved) = answered _ _ _ s artifact b in
      let (url, e, is_url, absent, f) = with_artifact_absent env product artifact _ h in
      record {
        name = repository.0;
        namespace = repository.1;
        url = url;
        err = e;
        named = named;
        has_artifact = answer ∙ ap done is_url;
        absent = absent;
        failed =
            subst
              (λ t.
                (fetch_file (env.archive t.calls) url product (record { obj = tt; calls = [] })).0
                ≡ fails e)
              moved f;
      }

  -- The project names a repository with an artifact, in which fetchFile has found the file and the
  -- directory; the content at its path was loaded, as `raw`, and is sanitized in `file`; the last call
  -- was to remove the directory.
  pub record IsLoaded (project : Project) (file : String) (s : Session Call (Unit {0}))
      (final : List Call) : Type 0 where
    pub name : String
    pub namespace : String
    pub url : String
    pub path : String
    pub dir : String
    pub raw : String
    pub named :
        fetch_git_repository env.git_repository_kind project.inventory ≡ done (name, namespace)
    pub has_artifact :
        env.get_repository s.calls (record { name = name; namespace = namespace }) ≡ done (some url)
    pub found :
        (fetched env product url
          (Call.get_repository (record { name = name; namespace = namespace }) ∷ s.calls)).0
        ≡ done (path, dir)
    pub loaded :
        env.load
          (unpacked env product url
            (Call.get_repository (record { name = name; namespace = namespace }) ∷ s.calls))
          product
          path
        ≡ done raw
    pub clean : env.sanitize raw ≡ done file
    pub removed :
        final
        ≡ Call.remove_all dir
          ∷ Call.load product path
          ∷ unpacked env product url
              (Call.get_repository (record { name = name; namespace = namespace }) ∷ s.calls)

  fetched_repository :
      (project : Project) (repository : String × String) (artifact : Option String) (file : String)
      (s : Session Call (Unit {0}))
      → fetch_git_repository env.git_repository_kind project.inventory ≡ done repository
      → (get_artifact repository s).0 ≡ done artifact
      → (with_artifact env product artifact (get_artifact repository s).1).0 ≡ done (some file)
      → IsLoaded project file s
          (with_artifact env product artifact (get_artifact repository s).1).1.calls
  fetched_repository project repository artifact file s named b h =
      let (answer, moved) = answered _ _ _ s artifact b in
      let final = (with_artifact env product artifact (get_artifact repository s).1).1.calls in
      let (url, path, dir, is_url, f, r) =
        subst
          (λ t.
            (url path dir : String) × (artifact ≡ some url)
            × ((fetched env product url t.calls).0 ≡ done (path, dir))
            × IsRead env product path dir file
                (record t { calls = unpacked env product url t.calls }) final)
          moved (with_artifact-IsRead env product artifact file (get_artifact repository s).1 h) in
      record {
        name = repository.0;
        namespace = repository.1;
        url = url;
        path = path;
        dir = dir;
        raw = r.raw;
        named = named;
        has_artifact = answer ∙ ap done is_url;
        found = f;
        loaded = r.loaded;
        clean = r.clean;
        removed = r.removed;
      }

  moved_back :
      (project : Project) (file : String) (s t : Session Call (Unit {0})) (final : List Call)
      → t ≡ s
      → IsLoaded project file t final
      → IsLoaded project file s final
  moved_back project file s t final e h = subst (λ u. IsLoaded project file u final) e h

  -- Where a configuration is returned, it is what Sanitize made of the content that was loaded, under
  -- the name of the product, from the path that fetchFile has found in the artifact of the project's
  -- repository; and the last call was to remove the directory that fetchFile has unpacked the
  -- artifact into.
  pub fetch_existing_config_file-IsLoaded :
      (project : Project) (file : String) (s : Session Call (Unit {0}))
      → (fetch_existing_config_file env product project s).0 ≡ done (some file)
      → IsLoaded project file s (fetch_existing_config_file env product project s).1.calls
  unfolding fetch_existing_config_file
  fetch_existing_config_file-IsLoaded project file s h =
      steps (λ r. IsLoaded project file s r.1.calls) _ _ s _ h
        (λ repository a h1.
          steps (λ r. IsLoaded project file s r.1.calls) _ _ _ _ h1
            (λ artifact b h2.
              let (named, same) = lifted _ _ s repository a in
              moved_back project file s _ _ same
                (fetched_repository project repository artifact file _ named b h2)))

  -- No configuration and no error is the answer only where the project's repository has an artifact,
  -- and the look for the file in it ended with an error that says that a file does not exist.
  pub fetch_existing_config_file-IsMissing :
      (project : Project) (s : Session Call (Unit {0}))
      → (fetch_existing_config_file env product project s).0 ≡ done none
      → IsMissing project s
  unfolding fetch_existing_config_file
  fetch_existing_config_file-IsMissing project s h =
      steps (λ r. IsMissing project s) _ _ s _ h
        (λ repository a h1.
          steps (λ r. IsMissing project s) _ _ _ _ h1
            (λ artifact b h2.
              let (named, same) = lifted _ _ s repository a in
              subst (IsMissing project) same (located project repository artifact _ named b h2)))
