-- ===== src/Inventory.antt =====
-- controllers/fetch_git_repository_from_project.go: the GitRepository of a project's inventory.
-- An entry's ID is `<namespace>_<name>_<group>_<kind>`.
pub mod Split
pub mod Lookup
mod Tests
use mpas_product_controller.Base.{
  ℕ, String, Bool, List, [], ◌∷◌, Option, none, some, ◌==◌, ◌<>◌, if◌then◌else◌,
}
use mpas_product_controller.Kube.Errors.{Error, text}
use mpas_product_controller.Kube.Action.{Outcome, done, fails}
use Split.{split}

-- `split[0]`, `split[1]` and `split[len(split)-1]`, where there are two parts at least.
abbrev last : String → List String → String
last x [] = x
last x (y ∷ ys) = last y ys

abbrev pub parts : List String → Option (String × String × String)
parts (namespace ∷ name ∷ rest) = some (namespace, name, last name rest)
parts _ = none

-- The loop, from `repoName` and `repoNamespace` at "". `kind` is the constant v1.GitRepositoryKind.
unfoldable pub scan : String → List String → Outcome (String × String)
scan kind [] = done ("", "")
scan kind (id ∷ ids) =
    let rest = scan kind ids in
    elim (parts (split id)) [
      | none ↦ fails (text ("failed to split ID: " <> id))
      | some (namespace, name, suffix) ↦ (if suffix == kind then done (name, namespace) else rest)
    ]

abbrev pub named : Outcome (String × String) → Outcome (String × String)
named (done (name, namespace)) =
    if name == ""
    then fails (text "gitrepository not found in the project inventory")
    else done (name, namespace)
named r = r

-- FetchGitRepositoryFromProjectInventory, on the IDs of the inventory's entries: the name and the
-- namespace of the first GitRepository.
unfoldable pub fetch_git_repository : String → Option (List String) → Outcome (String × String)
unfolding scan
fetch_git_repository kind none = fails (text "project inventory is empty")
fetch_git_repository kind (some ids) = named (scan kind ids)
