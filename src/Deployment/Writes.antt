-- ===== src/Deployment/Writes.antt =====
-- What the loop over the pipelines writes.
use mpas_product_controller.Base.{
  ◌≡◌, refl, sym, ap, subst, ◌∙◌, ◌⊎◌, inl, inr, String, Bool, true, false, List, [], ◌∷◌, ◌++◌,
  some, if◌then◌else◌, arith, Contains, Option-cases, Bool-cases, ◌<>◌,
}
use mpas_product_controller.Kube.Action.{Outcome, Session, Outcome-cases, ◌>>=◌, ◌>>◌, done, modify}
use mpas_product_controller.Kube.Action.Succeeds.{steps, on_error_steps, fail_never}
use mpas_product_controller.Kube.Action.Maintains.{
  Maintains, Maintains-pure, Maintains-fail, Maintains-on_error, Maintains-modify, Maintains-if,
  Maintains-bind,
}
use mpas_product_controller.Kube.Store.{Stored, Maintains-create_or_update, create_or_update-Stored}
use mpas_product_controller.Kube.Objects.{ObjectLaws}
use mpas_product_controller.Api.{
  ObjectMeta, Pipeline, ProductDeployment, ProductDeploymentPipeline, ProductDeploymentPipelineSpec,
  IsSame, equals, equals_refl, equals-Agrees,
}
use mpas_product_controller.Deployment.Env.{Call, Env, Run}
use mpas_product_controller.Deployment.Pipelines.{
  adopt, is_skipped, pipeline_spec, blank, create_pipeline, create_pipelines,
}

-- The object is that of the pipeline: it has its name, in the deployment's namespace, and its spec
-- names the pipeline's resources, the deployment's component version and the config map.
pub record IsAdopted (obj : ProductDeployment) (config_name : String) (p : Pipeline)
    (w : ProductDeploymentPipeline) : Type 0 where
  pub name : w.meta.name ≡ p.name
  pub namespace : w.meta.namespace ≡ obj.meta.namespace
  pub resource : IsSame w.spec.resource p.resource
  pub localization : IsSame w.spec.localization p.localization
  pub rules : IsSame w.spec.configuration.rules p.configuration.rules
  pub component_version : w.spec.component_version_ref ≡ obj.meta.name <> "component-version"
  pub config_map : w.spec.config_map_ref ≡ config_name

modify_keeps :
    (P : List Call → Type 0) (f : ProductDeployment → ProductDeployment)
    (s : Session Call ProductDeployment)
    → P s.calls
    → P (modify f s).1.calls
unfolding ◌>>=◌
modify_keeps P f s p = p

-- SetControllerReference leaves the name and the namespace as they are.
abbrev pub KeepsName : (ObjectMeta → ObjectMeta → Outcome ObjectMeta) → Type 0
KeepsName set =
    (o m m' : ObjectMeta) → set o m ≡ done m' → (m'.name ≡ m.name) × (m'.namespace ≡ m.namespace)

module _ (env : Env) (obj : ProductDeployment) (config_name : String) where
  -- The cluster had the object already, and it was left as it was.
  abbrev IsHeld : Pipeline → ProductDeploymentPipeline → List Call → Type 0
  IsHeld p w calls =
      (asked held : ProductDeploymentPipeline) × (before later : List Call) × (calls
        ≡ later ++ before)
      × (asked.meta.name ≡ p.name)
      × (asked.meta.namespace ≡ obj.meta.namespace)
      × (env.pipelines.find before asked ≡ done (some held))
      × (env.pipelines.same held w ≡ true)

  -- The object of the pipeline was written, or the cluster had an equal one.
  abbrev pub IsWritten : Pipeline → List Call → Type 0
  IsWritten p calls =
      (w : ProductDeploymentPipeline) × IsAdopted obj config_name p w
      × (Contains (Call.write_pipeline w) calls ⊎ IsHeld p w calls)

  IsWritten-cons :
      (p : Pipeline) (c : Call) (calls : List Call) → IsWritten p calls → IsWritten p (c ∷ calls)
  IsWritten-cons p c calls (w, a, inl h) = (w, a, inl (inr h))
  IsWritten-cons p c calls (w, a, inr (asked, held, before, later, e, n, ns, f, g)) =
      (w, a, inr (asked, held, before, c ∷ later, ap (λ x. c ∷ x) e, n, ns, f, g))

  module _ (names : KeepsName env.set_controller)
      (laws : ObjectLaws env.pipelines (λ p. p.meta)) where
    adopt-equals :
        (spec : ProductDeploymentPipelineSpec) (p w : ProductDeploymentPipeline)
        → adopt env obj spec p ≡ done w
        → equals w.spec spec ≡ true
    unfolding adopt
    adopt-equals spec p w h = ground (arith, equals_refl spec)

    adopt-names :
        (spec : ProductDeploymentPipelineSpec) (p w : ProductDeploymentPipeline)
        → adopt env obj spec p ≡ done w
        → (w.meta.name ≡ p.meta.name) × (w.meta.namespace ≡ p.meta.namespace)
    unfolding adopt
    adopt-names spec p w h = elim (Outcome-cases (env.set_controller obj.meta p.meta)) [
      | inl (m, e) ↦ let (a, b) = names obj.meta p.meta m e in (ground arith, ground arith)
      | inr bad ↦ (ground arith, ground arith)
    ]

    adopt-IsAdopted :
        (p : Pipeline) (b w : ProductDeploymentPipeline)
        → b.meta.name ≡ p.name
        → b.meta.namespace ≡ obj.meta.namespace
        → adopt env obj (pipeline_spec obj config_name p) b ≡ done w
        → IsAdopted obj config_name p w
    adopt-IsAdopted p b w n ns h =
        let (x, y) = adopt-names (pipeline_spec obj config_name p) b w h in
        let spec = pipeline_spec obj config_name p in
        let g = equals-Agrees w.spec spec (adopt-equals spec b w h) in
        record {
          name = x ∙ n;
          namespace = y ∙ ns;
          resource = g.resource;
          localization = g.localization;
          rules = g.rules;
          component_version = g.component_version;
          config_map = g.config_map;
        }

    Stored-IsWritten :
        (p : Pipeline) (before final : List Call) (w : ProductDeploymentPipeline)
        → Stored env.pipelines Call.write_pipeline
            (adopt env obj (pipeline_spec obj config_name p))
            (blank obj p)
            before
            w
            final
        → IsWritten p final
    Stored-IsWritten p before final w st = elim (Option-cases st.existing) [
      | inl e ↦ (
        w,
        adopt-IsAdopted p (blank obj p) w refl refl (rw e at st.mutated),
        inl (subst (Contains _) (sym (rw e at st.recorded)) (inl refl)),
      )
      | inr (b, e) ↦
          let f = st.found ∙ ap done e in
          let (n, ns) = laws.found-named before (blank obj p) b f in
          let adopted = adopt-IsAdopted p b w n ns (rw e at st.mutated) in
          elim (Bool-cases (env.pipelines.same b w)) [
            | inl same ↦ (
              w,
              adopted,
              inr (blank obj p, b, before, [], rw (e, same) at st.recorded, refl, refl, f, same),
            )
            | inr differs ↦ (
              w,
              adopted,
              inl (subst (Contains _) (sym (rw (e, differs) at st.recorded)) (inl refl)),
            )
          ]
    ]

    create_pipeline_writes :
        (p : Pipeline) (s : Session Call ProductDeployment)
        → (create_pipeline env obj config_name p s).0 ≡ done tt
        → IsWritten p (create_pipeline env obj config_name p s).1.calls
    unfolding create_pipeline
    create_pipeline_writes p s h =
        steps (λ r. IsWritten p r.1.calls) _ _ s tt h
          (λ w a h1.
            let (e, same) = on_error_steps _ _ s w (λ x t. fail_never _ t w) a in
            modify_keeps (IsWritten p) _ _ (
              subst (λ x. IsWritten p x.1.calls) (sym same)
                (Stored-IsWritten p s.calls _ w (
                  create_or_update-Stored env.pipelines Call.write_pipeline
                    (adopt env obj (pipeline_spec obj config_name p)) (blank obj p) s w e))))

    create_pipeline-Maintains :
        (p q : Pipeline)
        → Maintains (λ s. IsWritten p s.calls) (create_pipeline env obj config_name q)
    unfolding create_pipeline
    create_pipeline-Maintains p q =
        Maintains-bind _ _
          (Maintains-on_error _ _
            (Maintains-create_or_update env.pipelines Call.write_pipeline
              (adopt env obj (pipeline_spec obj config_name q)) (blank obj q)
              (λ w s h. IsWritten-cons p (Call.write_pipeline w) s.calls h))
            (λ e. Maintains-fail _))
          (λ written. Maintains-modify _ (λ s h. h))

    create_pipelines-Maintains :
        (p : Pipeline) (updated : Bool) (known : List String) (ps : List Pipeline)
        → Maintains
            (λ s. IsWritten p s.calls)
            (create_pipelines env obj config_name updated known ps)
    unfolding create_pipelines
    create_pipelines-Maintains p updated known [] = Maintains-pure tt
    create_pipelines-Maintains p updated known (q ∷ qs) =
        let ih = create_pipelines-Maintains p updated known qs in
        Maintains-if (is_skipped env known updated q)
          (create_pipelines env obj config_name updated known qs)
          (create_pipeline env obj config_name q
            >> create_pipelines env obj config_name updated known qs)
          (λ _. ih)
          (λ _.
            Maintains-bind (create_pipeline env obj config_name q)
              (λ _. create_pipelines env obj config_name updated known qs)
              (create_pipeline-Maintains p q) (λ _. ih))

    -- Where the loop ends well after a pipeline's turn, so does the rest of it.
    rest_of :
        (b : Bool) (m rest : Run (Unit {0})) (s : Session Call ProductDeployment)
        → ((if b then rest else m >> rest) s).0 ≡ done tt
        → (s' : Session Call ProductDeployment) × ((rest s').0 ≡ done tt)
          × ((rest s').1 ≡ ((if b then rest else m >> rest) s).1)
    unfolding ◌>>=◌
    rest_of true m rest s h = (s, h, refl)
    rest_of false m rest s h = elim (Outcome-cases (m s).0) [
      | inl (u, e) ↦ ((m s).1, ground arith, ground arith)
      | inr bad ↦ absurd (ground arith)
    ]

    turn_writes :
        (p : Pipeline) (rest : Run (Unit {0})) (s : Session Call ProductDeployment)
        → Maintains (λ s'. IsWritten p s'.calls) rest
        → ((create_pipeline env obj config_name p >> rest) s).0 ≡ done tt
        → IsWritten p ((create_pipeline env obj config_name p >> rest) s).1.calls
    turn_writes p rest s keep h =
        steps (λ r. IsWritten p r.1.calls) _ _ s tt h
          (λ u a h1. keep.kept _ (create_pipeline_writes p s a))

    pub create_pipelines_writes :
        (p : Pipeline) (updated : Bool) (known : List String) (ps : List Pipeline)
        (s : Session Call ProductDeployment)
        → Contains p ps
        → is_skipped env known updated p ≡ false
        → (create_pipelines env obj config_name updated known ps s).0 ≡ done tt
        → IsWritten p (create_pipelines env obj config_name updated known ps s).1.calls
    unfolding create_pipelines
    create_pipelines_writes p updated known [] s isin new h = elim isin [ ]
    create_pipelines_writes p updated known (q ∷ qs) s (inl same) new h =
        let rest = create_pipelines env obj config_name updated known qs in
        let turns =
          λ (b : Bool). if b then rest else create_pipeline env obj config_name q >> rest in
        let e = ap (is_skipped env known updated) same ∙ new in
        let h' = subst (λ b. (turns b s).0 ≡ done tt) e h in
        let won = turn_writes q rest s (create_pipelines-Maintains q updated known qs) h' in
        subst (λ r. IsWritten r (turns (is_skipped env known updated q) s).1.calls) same
          (subst (λ b. IsWritten q (turns b s).1.calls) (sym e) won)
    create_pipelines_writes p updated known (q ∷ qs) s (inr more) new h =
        let rest = create_pipelines env obj config_name updated known qs in
        let (s', r, t) =
          rest_of (is_skipped env known updated q) (create_pipeline env obj config_name q) rest s
            h in
        subst (λ x. IsWritten p x.calls) t
          (create_pipelines_writes p updated known qs s' more new r)
