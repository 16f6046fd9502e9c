-- ===== src/Inventory/Lookup.antt =====
-- What the lookup finds.
use mpas_product_controller.Base.{
  ◌≡◌, refl, ap, ◌≢◌, ◌⊎◌, inl, inr, String, false, List, [], ◌∷◌, ◌++◌, some, ◌==◌, ◌<>◌, eq_iff,
  eq_refl, eq_false, arith, All, Any, Option-cases, Bool-cases,
}
use mpas_product_controller.Kube.Action.{Outcome, done, fails, panics}
use mpas_product_controller.Inventory.{parts, scan, named, fetch_git_repository}
use mpas_product_controller.Inventory.Split.{split, has_underscore, split-append, split_self}

-- The ID of an object, as the project controller writes it.
abbrev pub entry_id : String → String → String → String → String
entry_id namespace name group kind = namespace <> "_" <> name <> "_" <> group <> "_" <> kind

-- An ID that splits, and that names an object of another kind.
abbrev pub IsOther : String → String → Type 0
IsOther kind id =
    (namespace : String) × (name : String) × (suffix : String) × (parts (split id)
      ≡ some (namespace, name, suffix))
    × (suffix ≢ kind)

parts-entry_id :
    (namespace name group kind : String)
    → has_underscore namespace ≡ false
    → has_underscore name ≡ false
    → has_underscore group ≡ false
    → has_underscore kind ≡ false
    → parts (split (entry_id namespace name group kind)) ≡ some (namespace, name, kind)
parts-entry_id ns n g k hns hn hg hk = rw (
  split-append ns (n <> "_" <> g <> "_" <> k) hns,
  split-append n (g <> "_" <> k) hn,
  split-append g k hg,
  split_self k hk,
)

scan_others :
    (kind : String) (before : List String) (rest : List String)
    → All (IsOther kind) before
    → scan kind (before ++ rest) ≡ scan kind rest
unfolding scan
scan_others kind [] rest h = refl
scan_others kind (id ∷ ids) rest ((ns, n, s, e, ne), hs) =
    ground (arith, e, eq_false s kind ne, scan_others kind ids rest hs)

-- Behind entries of other kinds, whose IDs have two parts at least, and whatever follows it, an
-- entry of the kind is found, and its ID is read back into the name and the namespace, if no part
-- of the ID holds an underscore and the name is not empty.
pub fetch_git_repository-entry_id :
    (kind : String) (before after : List String) (namespace name group : String)
    → All (IsOther kind) before
    → has_underscore namespace ≡ false
    → has_underscore name ≡ false
    → has_underscore group ≡ false
    → has_underscore kind ≡ false
    → name ≢ ""
    → fetch_git_repository kind (some (before ++ entry_id namespace name group kind ∷ after))
      ≡ done (name, namespace)
unfolding fetch_git_repository
fetch_git_repository-entry_id kind before after ns n g hb hns hn hg hk ne = ground (
  arith,
  scan_others kind before (entry_id ns n g kind ∷ after) hb,
  parts-entry_id ns n g kind hns hn hg hk,
  eq_refl kind,
  eq_false n "" ne,
)

-- The entry that the name and the namespace come from.
abbrev pub Names : String → String × String → String → Type 0
Names kind (name, namespace) id = parts (split id) ≡ some (namespace, name, kind)

scan_sound :
    (kind : String) (ids : List String) (found : String × String)
    → scan kind ids ≡ done found
    → (found ≡ ("", "")) ⊎ Any (Names kind found) ids
unfolding scan
scan_sound kind [] found h = inl (ground arith)
scan_sound kind (id ∷ ids) found h = elim (Option-cases (parts (split id))) [
  | inl e ↦ absurd (ground arith)
  | inr ((ns, n, s), e) ↦ elim (Bool-cases (s == kind)) [
    | inl hit ↦ inr (inl (ground (arith, eq_iff s kind)))
    | inr miss ↦ elim (scan_sound kind ids found (ground arith)) [
      | inl zero ↦ inl zero
      | inr more ↦ inr (inr more)
    ]
  ]
]

named-eq-done :
    (r : Outcome (String × String)) (found : String × String)
    → named r ≡ done found
    → (r ≡ done found) × (found.0 ≢ "")
named-eq-done (done (name, namespace)) found h =
    (ground (arith, eq_iff name ""), λ e. ground (arith, eq_iff name ""))
named-eq-done (fails e) found h = absurd (ground arith)
named-eq-done panics found h = absurd (ground arith)

-- What is found has a name, and is read from the ID of an entry whose last part is the kind.
pub fetch_git_repository_sound :
    (kind : String) (ids : List String) (found : String × String)
    → fetch_git_repository kind (some ids) ≡ done found
    → (found.0 ≢ "") × Any (Names kind found) ids
unfolding fetch_git_repository
fetch_git_repository_sound kind ids found h =
    let (e, named_one) = named-eq-done (scan kind ids) found h in
    elim (scan_sound kind ids found e) [
      | inl zero ↦ absurd (named_one (ap (λ p. p.0) zero))
      | inr hit ↦ (named_one, hit)
    ]
