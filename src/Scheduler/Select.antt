-- ===== src/Scheduler/Select.antt =====
-- controllers/select_target.go
use mpas_product_controller.Base.{
  String, List, [], ◌∷◌, ◌==◌, ◌<>◌, if◌then◌else◌, nat_eq, length, keep, get_elem?,
}
use mpas_product_controller.Kube.Errors.{text, wrap}
use mpas_product_controller.Kube.Action.{◌>>=◌, ◌>>◌, pure, fail, lift, on_error, index, call}
use mpas_product_controller.Api.{LabelSelector, Target, TargetRole}
use mpas_product_controller.Scheduler.Env.{Call, Env, Run}

module _ (env : Env) where
  -- The method searchForTargetsInNamespace.
  unfoldable pub search : LabelSelector → String → Run (List Target)
  search selector namespace = do
    on_error (lift (env.as_selector selector))
        (λ e. fail (wrap "failed to parse label selectors to map" e))
    on_error
        (call (Call.list_targets namespace selector)
          (λ calls. env.list_targets calls selector namespace))
        (λ e. fail (wrap "failed to list targets" e))

  -- The switch on the number of targets.
  unfoldable pub choose : List Target → Run Target
  choose [] s = fail (text "no targets found using the provided selector filters") s
  choose (t ∷ []) s = pure t s
  choose (t ∷ u ∷ ts) s = index (get_elem? (t ∷ u ∷ ts) (env.pick s.calls (length (t ∷ u ∷ ts)))) s

  -- The second search, if the first has found nothing.
  unfoldable pub or_system : TargetRole → List Target → Run (List Target)
  or_system role found =
      if nat_eq (length found) 0
      then on_error (search role.selector env.mpas_system_namespace)
          (λ e. fail (wrap "failed to search for targets in mpas system namespace" e))
      else pure found

  -- The method SelectTarget.
  unfoldable pub select_target : TargetRole → String → Run Target
  select_target role namespace = do
    found ←
        on_error (search role.selector namespace)
          (λ e. fail (wrap ("failed to search for targets in namespace " <> namespace) e))
    listed ← or_system role found
    choose (keep (λ t. t.spec.type == role.type) listed)
