-- ===== src/Inventory/Split.antt =====
-- `strings.Split(s, "_")`, and its inverse on parts that hold no underscore.
use Prim.Native.Char.{Char, code}
use Prim.Native.String.{String, [], ◌∷◌}
use mathlib.Core.List.{List}
use text.Mathlib.TextLemmas.{nil-append, cons-append}
use mpas_product_controller.Base.{◌≡◌, refl, Bool, false, ◌||◌, ◌<>◌, if◌then◌else◌, nat_eq, arith}

-- A character goes to the front of the first part.
push : Char → List String → List String
push c List.[] = List.◌∷◌ (c ∷ "") List.[]
push c (List.◌∷◌ p ps) = List.◌∷◌ (c ∷ p) ps

unfoldable pub split : String → List String
unfolding push
split [] = List.◌∷◌ "" List.[]
split (c ∷ s) = let rest = split s in if nat_eq (code c) b'_' then List.◌∷◌ "" rest else push c rest

abbrev pub has_underscore : String → Bool
has_underscore [] = false
has_underscore (c ∷ s) = nat_eq (code c) b'_' || has_underscore s

split_underscore : (t : String) → split ("_" <> t) ≡ List.◌∷◌ "" (split t)
unfolding split
split_underscore t = rw (cons-append, nil-append)

-- A part without an underscore, and the underscore after it, split off.
pub split-append :
    (s t : String) → has_underscore s ≡ false → split (s <> "_" <> t) ≡ List.◌∷◌ s (split t)
unfolding split
split-append [] t h = rw (nil-append ("_" <> t)) (split_underscore t)
split-append (c ∷ s) t h = rw (cons-append c s ("_" <> t)) (ground (arith, split-append s t))

pub split_self : (s : String) → has_underscore s ≡ false → split s ≡ List.◌∷◌ s List.[]
unfolding split
split_self [] h = refl
split_self (c ∷ s) h = ground (arith, split_self s)
