-- ===== src/Generating/Watch.antt =====
-- The index of SetupWithManager and the method findGenerators: which generators a change of a
-- subscription wakes up.
use mpas_product_controller.Base.{
  ◌≡◌, refl, ◌∙◌, ap, sym, subst, inl, inr, String, ◌==◌, ◌<>◌, if◌then◌else◌, List, [], ◌∷◌, map,
  Contains,
}
use mpas_product_controller.Kube.Errors.{Error, Key, wrap, error_text}
use mpas_product_controller.Kube.Action.{Outcome, Session, ◌>>=◌, done, fails, panics}
use mpas_product_controller.Api.{ProductDeploymentGenerator}
use mpas_product_controller.Api.Reasons.{component_subscription_get_failed}
use mpas_product_controller.Generating.Env.{Call, Env, set_status, failed}
use mpas_product_controller.Generating.Reconcile.{reconcile_object}

-- The String method of a key.
abbrev pub key_text : Key → String
key_text key = key.namespace <> "/" <> key.name

-- The function of the index.
unfoldable pub source_index : ProductDeploymentGenerator → List String
source_index generator =
    let ref = generator.spec.subscription_ref in
    let namespace = if ref.namespace == "" then generator.meta.namespace else ref.namespace in
    (namespace <> "/" <> ref.name) ∷ []

abbrev pub request : ProductDeploymentGenerator → Key
request generator = record { name = generator.meta.name; namespace = generator.meta.namespace }

-- The requests for the listed generators, and none where the list call fails.
abbrev requests : Outcome (List ProductDeploymentGenerator) → List Key
requests (done generators) = map request generators
requests (fails e) = []
requests panics = []

-- `list` is the call of the API server with the field selector on the index.
unfoldable pub find_generators :
    (String → Outcome (List ProductDeploymentGenerator)) → Key → List Key
find_generators list subscription = requests (list (key_text subscription))

Contains-map :
    (g : ProductDeploymentGenerator) (gs : List ProductDeploymentGenerator)
    → Contains g gs
    → Contains (request g) (map request gs)
Contains-map g [] h = elim h [ ]
Contains-map g (x ∷ xs) (inl e) = inl (ap request e)
Contains-map g (x ∷ xs) (inr h) = inr (Contains-map g xs h)

-- The generator says that it has not found its subscription.
abbrev pub marked : Env → Error → ProductDeploymentGenerator → ProductDeploymentGenerator
marked env e = set_status (λ s. record s {
  conditions =
      env.conditions.mark_not_ready component_subscription_get_failed (error_text e) s.conditions;
})

asks :
    (env : Env) (g : ProductDeploymentGenerator) (e : Error)
    (s : Session Call ProductDeploymentGenerator)
    → env.get_subscription s.calls g.spec.subscription_ref ≡ fails e
    → reconcile_object env g s ≡ (
      fails (wrap "failed to find subscription object" e),
      record {
        obj = marked env e s.obj;
        calls = Call.get_subscription g.spec.subscription_ref ∷ s.calls;
      },
    )
unfolding reconcile_object failed ◌>>=◌
asks env g e s h = rw h refl

-- A generator whose reference has no namespace is woken up by the subscription of that name in its
-- own namespace. Where there is no subscription in no namespace, the run then fails: its one call
-- asks for that subscription, and so does not read the one that woke it, and the generator is marked
-- as not ready with the error.
pub find_generators_unqualified :
    (list : String → Outcome (List ProductDeploymentGenerator))
    (items : List ProductDeploymentGenerator) (env : Env) (g : ProductDeploymentGenerator)
    (e : Error) (s : Session Call ProductDeploymentGenerator)
    → g.spec.subscription_ref.namespace ≡ ""
    → list (g.meta.namespace <> "/" <> g.spec.subscription_ref.name) ≡ done items
    → (Contains (g.meta.namespace <> "/" <> g.spec.subscription_ref.name) (source_index g)
        → Contains g items)
    → env.get_subscription s.calls (record { name = g.spec.subscription_ref.name; namespace = "" })
      ≡ fails e
    → Contains (request g) (
        find_generators list
          (record { name = g.spec.subscription_ref.name; namespace = g.meta.namespace }))
      × (reconcile_object env g s ≡ (
        fails (wrap "failed to find subscription object" e),
        record {
          obj = marked env e s.obj;
          calls =
              Call.get_subscription (record { name = g.spec.subscription_ref.name; namespace = "" })
              ∷ s.calls;
        },
      ))
unfolding source_index find_generators
find_generators_unqualified list items env g e s unqualified listed index missing =
    let key = λ (ns : String).
      let k : Key = record { name = g.spec.subscription_ref.name; namespace = ns } in k in
    (
      subst (λ r. Contains (request g) (requests r)) (sym listed)
          (Contains-map g items (index (inl (rw unqualified refl)))),
      asks env g e s (ap (λ ns. env.get_subscription s.calls (key ns)) unqualified ∙ missing)
          ∙ ap
              (λ ns. (
                fails (wrap "failed to find subscription object" e),
                record {
                  obj = marked env e s.obj;
                  calls = Call.get_subscription (key ns) ∷ s.calls;
                },
              ))
              unqualified,
    )
