-- ===== src/Cue/Sweep.antt =====
-- What the removal of the private fields of one struct leaves.
use mpas_product_controller.Base.{
  ℕ, zero, suc, ◌-◌, ◌+◌, ◌≡◌, refl, sym, ap, ◌∙◌, inl, inr, Bool, true, false, not, ◌&&◌, keep,
  ltb, none, some, List, [], ◌∷◌, ◌++◌, length, length-append, get_elem?, arith, All, if◌then◌else◌,
  Bool-cases,
}
use mathlib.Core.List.{append_assoc, append-nil}
use mpas_product_controller.Kube.Action.{and_then, Outcome, done, panics}
use mpas_product_controller.Cue.Private.{
  Decl, field, other, Heap, Slice, take, drop, is_private, cut, descend, loop, visited_by,
  remove_private_fields,
}

-- The element behind a private one is kept without a test.
abbrev pub swept : List Decl → List Decl
swept [] = []
swept (x ∷ []) = if is_private x then [] else x ∷ []
swept (x ∷ y ∷ rest) =
    let behind = swept rest in
    let from = swept (y ∷ rest) in if is_private x then y ∷ behind else x ∷ from

-- Whether the last element is private, and `b` where there is none.
abbrev pub ends_private : Bool → List Decl → Bool
ends_private b [] = b
ends_private b (x ∷ xs) = ends_private (is_private x) xs

-- A private element is the last one, and not the first private one.
abbrev pub is_fatal : List Decl → Bool
is_fatal [] = false
is_fatal (x ∷ xs) = let more = is_fatal xs in if is_private x then ends_private false xs else more

abbrev last : Decl → List Decl → Decl
last x [] = x
last x (y ∷ ys) = last y ys

abbrev pub IsFlat : Decl → Type 0
IsFlat (field attrs none) = Unit
IsFlat (field attrs (some address)) = ⊥
IsFlat other = Unit

module _ {A : Type 0} where
  take_exactly : (xs ys : List A) → take (length xs) (xs ++ ys) ≡ xs
  take_exactly [] ys = refl
  take_exactly (x ∷ xs) ys = ap (λ zs. x ∷ zs) (take_exactly xs ys)

  get_length : (xs : List A) (y : A) (ys : List A) → get_elem? (xs ++ (y ∷ ys)) (length xs) ≡ some y
  get_length [] y ys = refl
  get_length (x ∷ xs) y ys = get_length xs y ys

  drop_past : (xs : List A) (y : A) (ys : List A) → drop (suc (length xs)) (xs ++ (y ∷ ys)) ≡ ys
  drop_past [] y ys = refl
  drop_past (x ∷ xs) y ys = drop_past xs y ys

drop-last :
    (x : Decl) (xs stale : List Decl) → drop (length xs) (x ∷ (xs ++ stale)) ≡ last x xs ∷ stale
drop-last x [] stale = refl
drop-last x (y ∷ xs) stale = drop-last y xs stale

drop_before_end :
    (pre : List Decl) (x : Decl) (xs stale : List Decl)
    → drop (length pre + length xs) (pre ++ (x ∷ (xs ++ stale))) ≡ last x xs ∷ stale
drop_before_end [] x xs stale =
    ap (λ n. drop n (x ∷ (xs ++ stale))) (omega arith) ∙ drop-last x xs stale
drop_before_end (p ∷ pre) x xs stale =
    ap (λ n. drop n (p ∷ (pre ++ (x ∷ (xs ++ stale))))) (suc_add (length pre) (length xs))
    ∙ drop_before_end pre x xs stale
  where
    suc_add : (a b : ℕ) → suc a + b ≡ suc (a + b)
    suc_add a b = omega arith

-- The array holds the elements that are kept, those to come, and the stale ones behind the slice.
abbrev at : List Decl → List Decl → List Decl → Slice
at pre live stale = record { array = pre ++ (live ++ stale); size = length pre + length live }

long_enough :
    (pre : List Decl) (x : Decl) (xs : List Decl)
    → ltb (length pre + suc (length xs)) (suc (length pre)) ≡ false
long_enough pre x xs = ground arith

size_after :
    (pre : List Decl) (x : Decl) (xs : List Decl)
    → length pre + suc (length xs) - 1 ≡ length pre + length xs
size_after pre x xs = omega arith

take_slice :
    (pre : List Decl) (x : Decl) (xs stale : List Decl)
    → take (length pre + suc (length xs)) (pre ++ (x ∷ (xs ++ stale))) ≡ pre ++ (x ∷ xs)
take_slice pre x xs stale =
    ap (λ n. take n (pre ++ (x ∷ (xs ++ stale)))) (sym (length-append pre (x ∷ xs)))
    ∙ (ap (take (length (pre ++ (x ∷ xs)))) (sym (append_assoc pre (x ∷ xs) stale))
        ∙ take_exactly (pre ++ (x ∷ xs)) stale)

cut_lem :
    (pre : List Decl) (x : Decl) (xs stale : List Decl)
    → cut (length pre) (at pre (x ∷ xs) stale) ≡ done (at pre xs (last x xs ∷ stale))
unfolding cut
cut_lem pre x xs stale =
    rw
      (
        long_enough pre x xs,
        take_exactly pre (x ∷ (xs ++ stale)),
        take_slice pre x xs stale,
        drop_past pre x xs,
        size_after pre x xs,
        drop_before_end pre x xs stale,
      )
      refl

-- The element at the place becomes one that is kept.
moved :
    (pre : List Decl) (x : Decl) (xs stale : List Decl)
    → at pre (x ∷ xs) stale ≡ at (pre ++ (x ∷ [])) xs stale
moved pre x xs stale =
    ap (λ a. record { array = a; size = length pre + suc (length xs) })
      (sym (append_assoc pre (x ∷ []) (xs ++ stale)))
    ∙ ap (λ n. record { array = (pre ++ (x ∷ [])) ++ (xs ++ stale); size = n })
        (omega (arith, length-append pre (x ∷ [])))

place : (pre : List Decl) (x : Decl) → suc (length pre) ≡ length (pre ++ (x ∷ []))
place pre x = omega (arith, length-append pre (x ∷ []))

left_over :
    (ys : List Decl) (x : Decl) (stale : List Decl)
    → length (ys ++ (x ∷ stale)) ≡ suc (length (ys ++ stale))
left_over [] x stale = refl
left_over (y ∷ ys) x stale = ap suc (left_over ys x stale)

descend-IsFlat :
    (visit : ℕ → Heap → Outcome Heap) (d : Decl) (heap : Heap)
    → IsFlat d
    → descend visit d heap ≡ done heap
descend-IsFlat visit (field attrs none) heap f = refl
descend-IsFlat visit (field attrs (some address)) heap f = elim f [ ]
descend-IsFlat visit other heap f = refl

one_kept :
    (pre : List Decl) (x : Decl)
    → is_private x ≡ false
    → (pre ++ (x ∷ [])) ++ [] ≡ pre ++ swept (x ∷ [])
one_kept pre x p = append-nil (pre ++ (x ∷ [])) ∙ rw p refl

next_kept :
    (pre : List Decl) (x y : Decl) (ys : List Decl)
    → is_private x ≡ true
    → (pre ++ (y ∷ [])) ++ swept ys ≡ pre ++ swept (x ∷ y ∷ ys)
next_kept pre x y ys p = append_assoc pre (y ∷ []) (swept ys) ∙ rw p refl

this_kept :
    (pre : List Decl) (x y : Decl) (ys : List Decl)
    → is_private x ≡ false
    → (pre ++ (x ∷ [])) ++ swept (y ∷ ys) ≡ pre ++ swept (x ∷ y ∷ ys)
this_kept pre x y ys p = append_assoc pre (x ∷ []) (swept (y ∷ ys)) ∙ rw p refl

-- The slice that is left, and the structs.
abbrev close : Outcome (Slice × Heap) → Outcome (List Decl × Heap)
close r = and_then r λ (values, left). done (take values.size values.array, left)

module _ (visit : ℕ → Heap → Outcome Heap) (heap : Heap) where
  -- A turn on an element that is not private.
  go_on :
      (pre : List Decl) (x : Decl) (xs stale : List Decl)
      → IsFlat x
      → is_private x ≡ false
      → loop visit (suc (length (xs ++ stale))) (length pre) (at pre (x ∷ xs) stale) heap
        ≡ loop visit
            (length (xs ++ stale))
            (length (pre ++ (x ∷ [])))
            (at (pre ++ (x ∷ [])) xs stale)
            heap
  unfolding loop
  go_on pre x xs stale f e =
      rw
        (
          get_length pre x (xs ++ stale),
          e,
          descend-IsFlat visit x heap f,
          place pre x,
          moved pre x xs stale,
        )
        refl

  -- A turn on one that is.
  go_cut :
      (pre : List Decl) (x : Decl) (xs stale : List Decl)
      → IsFlat x
      → is_private x ≡ true
      → loop visit (suc (length (xs ++ stale))) (length pre) (at pre (x ∷ xs) stale) heap
        ≡ loop visit (length (xs ++ stale)) (suc (length pre)) (at pre xs (last x xs ∷ stale)) heap
  unfolding loop
  go_cut pre x xs stale f e =
      rw (get_length pre x (xs ++ stale), e, cut_lem pre x xs stale, descend-IsFlat visit x heap f)
        refl

  go_cut_on :
      (pre : List Decl) (x y : Decl) (ys stale : List Decl)
      → IsFlat x
      → is_private x ≡ true
      → loop visit (suc (suc (length (ys ++ stale)))) (length pre) (at pre (x ∷ y ∷ ys) stale) heap
        ≡ loop visit
            (length (ys ++ (last y ys ∷ stale)))
            (length (pre ++ (y ∷ [])))
            (at (pre ++ (y ∷ [])) ys (last y ys ∷ stale))
            heap
  go_cut_on pre x y ys stale f e =
      go_cut pre x (y ∷ ys) stale f e
      ∙ rw (place pre y, moved pre y ys (last y ys ∷ stale), left_over ys (last y ys) stale) refl

  -- Stale elements that are not private change nothing.
  idle :
      (before rest : List Decl) (size : ℕ)
      → All IsFlat rest
      → All (λ d. is_private d ≡ false) rest
      → loop visit
          (length rest)
          (length before)
          (record { array = before ++ rest; size = size })
          heap
        ≡ done (record { array = before ++ rest; size = size }, heap)
  unfolding loop
  idle before [] size f e = refl
  idle before (x ∷ rest) size (f, fs) (e, es) =
      rw
        (
          get_length before x rest,
          e,
          descend-IsFlat visit x heap f,
          place before x,
          sym (append_assoc before (x ∷ []) rest),
        )
        (idle (before ++ (x ∷ [])) rest size fs es)

  -- A stale one that is private makes the loop panic, at the end of the slice or one above it.
  stale_panics :
      (pre : List Decl) (s : Decl) (stale : List Decl)
      → is_private s ≡ true
      → loop visit (suc (length stale)) (length pre) (at pre [] (s ∷ stale)) heap ≡ panics
  unfolding loop cut
  stale_panics pre s stale e = rw (get_length pre s stale, e, ground_above pre) refl
    where
      ground_above : (xs : List Decl) → ltb (length xs + 0) (suc (length xs)) ≡ true
      ground_above xs = ground arith

  next_panics :
      (pre : List Decl) (x s : Decl) (stale : List Decl)
      → is_private s ≡ true
      → loop visit (suc (length stale)) (suc (length pre)) (at pre [] (x ∷ s ∷ stale)) heap ≡ panics
  unfolding loop cut
  next_panics pre x s stale e = rw (get_next pre x s stale, e, above pre) refl
    where
      get_next :
          (xs : List Decl) (y z : Decl) (ys : List Decl)
          → get_elem? (xs ++ (y ∷ z ∷ ys)) (suc (length xs)) ≡ some z
      get_next [] y z ys = refl
      get_next (w ∷ xs) y z ys = get_next xs y z ys

      above : (xs : List Decl) → ltb (length xs + 0) (suc (suc (length xs))) ≡ true
      above xs = ground arith

  last-ends_private :
      (x : Decl) (xs : List Decl) → is_private (last x xs) ≡ ends_private (is_private x) xs
  last-ends_private x [] = refl
  last-ends_private x (y ∷ ys) = last-ends_private y ys

  last-IsFlat : (x : Decl) (xs : List Decl) → IsFlat x → All IsFlat xs → IsFlat (last x xs)
  last-IsFlat x [] f fs = f
  last-IsFlat x (y ∷ ys) f (g, gs) = last-IsFlat y ys g gs

  ends_any :
      (b : Bool) (y : Decl) (ys : List Decl)
      → ends_private (is_private y) ys ≡ b
      → ends_private b ys ≡ b
  ends_any b y [] e = refl
  ends_any b y (z ∷ ys) e = e

  -- Behind the first cut, with the last element private.
  loop_panics :
      (pre live : List Decl) (s : Decl) (stale : List Decl)
      → All IsFlat live
      → is_private s ≡ true
      → ends_private true live ≡ true
      → loop visit (length (live ++ (s ∷ stale))) (length pre) (at pre live (s ∷ stale)) heap
        ≡ panics
  loop_panics pre [] s stale f e k = stale_panics pre s stale e
  loop_panics pre (x ∷ []) s stale (f, fs) e k =
      go_cut pre x [] (s ∷ stale) f k ∙ next_panics pre x s stale e
  loop_panics pre (x ∷ y ∷ ys) s stale (f, (g, gs)) e k = elim (Bool-cases (is_private x)) [
    | inl p ↦
        go_cut_on pre x y ys (s ∷ stale) f p
        ∙ loop_panics (pre ++ (y ∷ [])) ys (last y ys) (s ∷ stale) gs (last-ends_private y ys ∙ k)
            (ends_any true y ys k)
    | inr p ↦
        go_on pre x (y ∷ ys) (s ∷ stale) f p
        ∙ loop_panics (pre ++ (x ∷ [])) (y ∷ ys) s stale (g, gs) e k
  ]

  end_of : (pre stale : List Decl) (n : ℕ) → n ≡ length pre → take n (pre ++ stale) ≡ pre
  end_of pre stale n e = ap (λ k. take k (pre ++ stale)) e ∙ take_exactly pre stale

  -- The same with the last element not private.
  loop_sweeps :
      (pre live stale : List Decl)
      → All IsFlat live
      → All IsFlat stale
      → All (λ d. is_private d ≡ false) stale
      → ends_private false live ≡ false
      → close (loop visit (length (live ++ stale)) (length pre) (at pre live stale) heap)
        ≡ done (pre ++ swept live, heap)
  loop_sweeps pre [] stale f g e k =
      ap close (idle pre stale (length pre + 0) g e)
      ∙ ap (λ xs. done (xs, heap))
          (end_of pre stale (length pre + 0) (omega arith) ∙ sym (append-nil pre))
  loop_sweeps pre (x ∷ []) stale (f, fs) g e k =
      ap close (go_on pre x [] stale f k)
      ∙ (loop_sweeps (pre ++ (x ∷ [])) [] stale fs g e refl
          ∙ ap (λ xs. done (xs, heap)) (one_kept pre x k))
  loop_sweeps pre (x ∷ y ∷ ys) stale (f, (h, hs)) g e k = elim (Bool-cases (is_private x)) [
    | inl p ↦
        ap close (go_cut_on pre x y ys stale f p)
        ∙ (loop_sweeps (pre ++ (y ∷ [])) ys (last y ys ∷ stale) hs (last-IsFlat y ys h hs, g)
              (last-ends_private y ys ∙ k, e) (ends_any false y ys k)
            ∙ ap (λ xs. done (xs, heap)) (next_kept pre x y ys p))
    | inr p ↦
        ap close (go_on pre x (y ∷ ys) stale f p)
        ∙ (loop_sweeps (pre ++ (x ∷ [])) (y ∷ ys) stale (h, hs) g e k
            ∙ ap (λ xs. done (xs, heap)) (this_kept pre x y ys p))
  ]

  no_turns : (i : ℕ) (values : Slice) → loop visit zero i values heap ≡ done (values, heap)
  unfolding loop
  no_turns i values = refl

  -- The loop from the first element on.
  loop_lem :
      (pre live : List Decl)
      → All IsFlat live
      → close (loop visit (length (live ++ [])) (length pre) (at pre live []) heap)
        ≡ (if is_fatal live then panics else done (pre ++ swept live, heap))
  loop_lem pre [] f = loop_sweeps pre [] [] f tt tt refl
  loop_lem pre (x ∷ []) (f, fs) = elim (Bool-cases (is_private x)) [
    | inl p ↦
        ap close (go_cut pre x [] [] f p)
        ∙ (ap close (no_turns (suc (length pre)) (at pre [] (x ∷ [])))
            ∙ rw p (
                ap (λ xs. done (xs, heap))
                  (end_of pre (x ∷ []) (length pre + 0) (omega arith) ∙ sym (append-nil pre))))
    | inr p ↦
        ap close (go_on pre x [] [] f p)
        ∙ (loop_sweeps (pre ++ (x ∷ [])) [] [] fs tt tt refl
            ∙ rw p (ap (λ xs. done (xs, heap)) (append-nil (pre ++ (x ∷ [])))))
  ]
  loop_lem pre (x ∷ y ∷ ys) (f, (h, hs)) = elim (Bool-cases (is_private x)) [
    | inl p ↦
        ap close (go_cut_on pre x y ys [] f p)
        ∙ elim (Bool-cases (ends_private (is_private y) ys)) [
          | inl q ↦
              ap close (
                loop_panics (pre ++ (y ∷ [])) ys (last y ys) [] hs (last-ends_private y ys ∙ q)
                  (ends_any true y ys q))
              ∙ rw (p, q) refl
          | inr q ↦
              loop_sweeps (pre ++ (y ∷ [])) ys (last y ys ∷ []) hs (last-IsFlat y ys h hs, tt)
                (last-ends_private y ys ∙ q, tt) (ends_any false y ys q)
              ∙ rw (p, q) (ap (λ xs. done (xs, heap)) (append_assoc pre (y ∷ []) (swept ys)))
        ]
    | inr p ↦
        ap close (go_on pre x (y ∷ ys) [] f p)
        ∙ (loop_lem (pre ++ (x ∷ [])) (y ∷ ys) (h, hs)
            ∙ rw p (
                ap (λ zs. if is_fatal (y ∷ ys) then panics else done (zs, heap))
                  (append_assoc pre (x ∷ []) (swept (y ∷ ys)))))
  ]

zero_add : (n : ℕ) → n ≡ 0 + n
zero_add n = omega arith

-- On a struct with no structs in it, and with any fuel but none, the removal panics exactly where the
-- last declaration is a private field and an earlier one is too; otherwise it leaves the declarations
-- with each private field out whose neighbour before it was not taken out, and changes no struct.
pub remove_private_fields_lem :
    (fuel : ℕ) (decls : List Decl) (heap : Heap)
    → All IsFlat decls
    → remove_private_fields (suc fuel) decls heap
      ≡ (if is_fatal decls then panics else done (swept decls, heap))
unfolding remove_private_fields
remove_private_fields_lem fuel decls heap f =
    ap
      (λ xs. close (
        loop (visited_by (remove_private_fields fuel)) (length xs) 0
          (record { array = xs; size = length decls }) heap))
      (sym (append-nil decls))
    ∙ (ap
          (λ n. close (
            loop (visited_by (remove_private_fields fuel)) (length (decls ++ [])) 0
              (record { array = decls ++ []; size = n }) heap))
          (zero_add (length decls))
        ∙ loop_lem (visited_by (remove_private_fields fuel)) heap [] decls f)

-- No private field stands right behind another.
abbrev pub is_apart : List Decl → Bool
is_apart [] = true
is_apart (x ∷ []) = true
is_apart (x ∷ y ∷ rest) =
    let more = is_apart (y ∷ rest) in if is_private x then not (is_private y) && more else more

tail_apart : (x : Decl) (rest : List Decl) → is_apart (x ∷ rest) ≡ true → is_apart rest ≡ true
tail_apart x [] a = refl
tail_apart x (y ∷ rest) a = ground arith

behind_apart :
    (x y : Decl) (rest : List Decl)
    → is_private x ≡ true
    → is_apart (x ∷ y ∷ rest) ≡ true
    → (is_private y ≡ false) × (is_apart (y ∷ rest) ≡ true)
behind_apart x y rest p a = (ground arith, ground arith)

swept-keep :
    (decls : List Decl) → is_apart decls ≡ true → swept decls ≡ keep (λ d. not (is_private d)) decls
swept-keep [] a = refl
swept-keep (x ∷ []) a = ground arith
swept-keep (x ∷ y ∷ rest) a = elim (Bool-cases (is_private x)) [
  | inl p ↦
      let b = behind_apart x y rest p a in rw (p, b.0, swept-keep rest (tail_apart y rest b.1)) refl
  | inr p ↦ rw (p, swept-keep (y ∷ rest) (tail_apart x (y ∷ rest) a)) refl
]

-- Where no private field stands right behind another, and the last declaration is not a second
-- private field, the declarations that are not private are left, in order, and nothing else.
pub remove_private_fields-keep :
    (fuel : ℕ) (decls : List Decl) (heap : Heap)
    → All IsFlat decls
    → is_apart decls ≡ true
    → is_fatal decls ≡ false
    → remove_private_fields (suc fuel) decls heap
      ≡ done (keep (λ d. not (is_private d)) decls, heap)
remove_private_fields-keep fuel decls heap f a b =
    remove_private_fields_lem fuel decls heap f ∙ rw (b, swept-keep decls a) refl

-- Of two private fields that stand one behind the other at the start of a struct whose last
-- declaration is not private, the second one is left.
pub remove_private_fields_leaves :
    (fuel : ℕ) (x y : Decl) (rest : List Decl) (heap : Heap)
    → All IsFlat (x ∷ y ∷ rest)
    → is_private x ≡ true
    → is_private y ≡ true
    → ends_private true rest ≡ false
    → remove_private_fields (suc fuel) (x ∷ y ∷ rest) heap ≡ done (y ∷ swept rest, heap)
remove_private_fields_leaves fuel x y rest heap f p q e =
    remove_private_fields_lem fuel (x ∷ y ∷ rest) heap f ∙ rw (p, q, e) refl
