-- ===== src/Targeting/Pulls.antt =====
-- equalImagePullSecretSlices, and that it decides equality.
use mpas_product_controller.Base.{
  ℕ, suc, ◌≡◌, ◌≢◌, refl, ap, ◌⊎◌, inl, inr, String, Bool, true, false, List, [], ◌∷◌, Option, none,
  some, ◌==◌, ◌!=◌, Bool-cases, if◌then◌else◌, length, get_elem?, nat_eq, eq_iff, arith,
}
use mpas_product_controller.Kube.Action.{Outcome, done, panics}

-- The loop, at the index `i` of the second slice.
abbrev differs_at : String → Option String → Outcome Bool → Outcome Bool
differs_at v none rest = panics
differs_at v (some w) rest = if v != w then done false else rest

unfoldable pub same_from : List String → List String → ℕ → Outcome Bool
same_from [] b i = done true
same_from (v ∷ a) b i = differs_at v (get_elem? b i) (same_from a b (suc i))

unfoldable pub same_pull_secrets : List String → List String → Outcome Bool
unfolding same_from
same_pull_secrets a b = if nat_eq (length a) (length b) then same_from a b 0 else done false

same_from_shift :
    (a b : List String) (w : String) (i : ℕ) → same_from a (w ∷ b) (suc i) ≡ same_from a b i
unfolding same_from
same_from_shift [] b w i = refl
same_from_shift (v ∷ a) b w i = ap (differs_at v (get_elem? b i)) (same_from_shift a b w (suc i))

-- On slices of any lengths the function does not panic, and it answers whether they are equal.
pub same_pull_secrets_lem :
    (a b : List String)
    → ((a ≡ b) × (same_pull_secrets a b ≡ done true))
      ⊎ ((a ≢ b) × (same_pull_secrets a b ≡ done false))
unfolding same_pull_secrets same_from
same_pull_secrets_lem [] [] = inl (refl, refl)
same_pull_secrets_lem [] (w ∷ b) = inr (λ e. cc, ground arith)
same_pull_secrets_lem (v ∷ a) [] = inr (λ e. cc, ground arith)
same_pull_secrets_lem (v ∷ a) (w ∷ b) =
    let shift = same_from_shift a b w 0 in
    elim (Bool-cases (v == w)) [
      | inl e ↦ elim (same_pull_secrets_lem a b) [
        | inl (same, t) ↦ inl (ground (arith, eq_iff v w), ground (arith, eq_iff v w))
        | inr (other, t) ↦ inr (λ h. ground (arith), ground (arith, eq_iff v w))
      ]
      | inr n ↦ inr (λ h. ground (arith, eq_iff v w), ground (arith, eq_iff v w))
    ]
