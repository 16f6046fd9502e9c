-- ===== src/Inventory/Tests.antt =====
-- Tests and witnesses for the lookup in an inventory.
use mpas_product_controller.Base.{◌≡◌, refl, ◌≢◌, String, List, [], ◌∷◌, some, arith, eq_iff, Any}
use mpas_product_controller.Kube.Errors.{text}
use mpas_product_controller.Kube.Action.{done, fails}
use mpas_product_controller.Inventory.{fetch_git_repository}
use mpas_product_controller.Inventory.Split.{split}
use mpas_product_controller.Inventory.Lookup.{
  IsOther, Names, fetch_git_repository-entry_id, fetch_git_repository_sound,
}

abbrev ids : List String
ids = "_mpas_rbac_Role" ∷ "ns_repo_source.toolkit_GitRepository" ∷ "other" ∷ []

malformed :
    fetch_git_repository "GitRepository" (some ("other" ∷ ids))
    ≡ fails (text "failed to split ID: other")
unfolding fetch_git_repository split
malformed = refl

IsOther-kind : IsOther "GitRepository" "_mpas_rbac_Role"
unfolding split
IsOther-kind = ("", "mpas", "Role", refl, λ e. ground (arith, eq_iff "Role" "GitRepository"))

fetch_git_repository-entry_id_example :
    fetch_git_repository "GitRepository" (some ids) ≡ done ("repo", "ns")
fetch_git_repository-entry_id_example =
    fetch_git_repository-entry_id "GitRepository" ("_mpas_rbac_Role" ∷ []) ("other" ∷ []) "ns"
      "repo" "source.toolkit" (IsOther-kind, tt) refl refl refl refl
      (λ e. ground (arith, eq_iff "repo" ""))

fetch_git_repository_sound_example :
    ◌≢◌ {A = String} "repo" "" × Any (Names "GitRepository" ("repo", "ns")) ids
unfolding fetch_git_repository split
fetch_git_repository_sound_example =
    fetch_git_repository_sound "GitRepository" ids ("repo", "ns") refl
