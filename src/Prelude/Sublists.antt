-- ===== src/Prelude/Sublists.antt =====
-- Subsequences of a list.
use mathlib.Core.Path.{◌≡◌, refl}
use mathlib.Core.Logic.{◌⊎◌, inl, inr}
use mathlib.Core.List.{List, [], ◌∷◌, ◌++◌, append_assoc}

module _ {A : Type 0} where
  -- The elements of the first list stand in the second one, in the same order.
  abbrev pub IsSublist : List A → List A → Type 0
  IsSublist [] ys = Unit
  IsSublist (x ∷ xs) [] = Prim.⊥
  IsSublist (x ∷ xs) (y ∷ ys) = ((x ≡ y) × IsSublist xs ys) ⊎ IsSublist (x ∷ xs) ys

  -- What arrives is kept at the end, or dropped.
  pub IsSublist-snoc :
      (xs ys : List A) (z : A) → IsSublist xs ys → IsSublist (xs ++ (z ∷ [])) (ys ++ (z ∷ []))
  IsSublist-snoc [] [] z h = inl (refl, tt)
  IsSublist-snoc [] (y ∷ ys) z h = inr (IsSublist-snoc [] ys z tt)
  IsSublist-snoc (x ∷ xs) [] z h = elim h [ ]
  IsSublist-snoc (x ∷ xs) (y ∷ ys) z (inl (e, h)) = inl (e, IsSublist-snoc xs ys z h)
  IsSublist-snoc (x ∷ xs) (y ∷ ys) z (inr h) = inr (IsSublist-snoc (x ∷ xs) ys z h)

  pub IsSublist-append : (xs ys zs : List A) → IsSublist xs ys → IsSublist xs (ys ++ zs)
  IsSublist-append [] ys zs h = tt
  IsSublist-append (x ∷ xs) [] zs h = elim h [ ]
  IsSublist-append (x ∷ xs) (y ∷ ys) zs (inl (e, h)) = inl (e, IsSublist-append xs ys zs h)
  IsSublist-append (x ∷ xs) (y ∷ ys) zs (inr h) = inr (IsSublist-append (x ∷ xs) ys zs h)

  -- A queue may be cleared.
  pub IsSublist-front : (xs ys zs : List A) → IsSublist (xs ++ ys) zs → IsSublist xs zs
  IsSublist-front [] ys zs h = tt
  IsSublist-front (x ∷ xs) ys [] h = elim h [ ]
  IsSublist-front (x ∷ xs) ys (z ∷ zs) (inl (e, h)) = inl (e, IsSublist-front xs ys zs h)
  IsSublist-front (x ∷ xs) ys (z ∷ zs) (inr h) = inr (IsSublist-front (x ∷ xs) ys zs h)

  pub IsSublist-cons : (xs ys : List A) (y : A) → IsSublist xs ys → IsSublist xs (y ∷ ys)
  IsSublist-cons [] ys y h = tt
  IsSublist-cons (x ∷ xs) ys y h = inr h

  IsSublist-suffix : (xs ys zs : List A) → IsSublist (xs ++ ys) zs → IsSublist ys zs
  IsSublist-suffix [] ys zs h = h
  IsSublist-suffix (x ∷ xs) ys [] h = elim h [ ]
  IsSublist-suffix (x ∷ xs) ys (z ∷ zs) (inl (e, h)) =
      IsSublist-cons ys zs z (IsSublist-suffix xs ys zs h)
  IsSublist-suffix (x ∷ xs) ys (z ∷ zs) (inr h) =
      IsSublist-cons ys zs z (IsSublist-suffix (x ∷ xs) ys zs h)

  -- What stands in the middle may be dropped.
  pub IsSublist-drop :
      (xs ys zs ws : List A) → IsSublist (xs ++ (ys ++ zs)) ws → IsSublist (xs ++ zs) ws
  IsSublist-drop [] ys zs ws h = IsSublist-suffix ys zs ws h
  IsSublist-drop (x ∷ xs) ys zs [] h = elim h [ ]
  IsSublist-drop (x ∷ xs) ys zs (w ∷ ws) (inl (e, h)) = inl (e, IsSublist-drop xs ys zs ws h)
  IsSublist-drop (x ∷ xs) ys zs (w ∷ ws) (inr h) = inr (IsSublist-drop (x ∷ xs) ys zs ws h)

  -- A slot for one element, behind what was taken from it: a new element overwrites the slot.
  pub IsSublist-overwrite :
      (xs ys zs ws : List A) (z : A)
      → IsSublist (xs ++ (ys ++ zs)) ws
      → IsSublist (xs ++ (ys ++ (z ∷ []))) (ws ++ (z ∷ []))
  IsSublist-overwrite xs ys zs ws z h = rw (← append_assoc xs ys (z ∷ [])) (
      IsSublist-snoc (xs ++ ys) ws z
        (IsSublist-front (xs ++ ys) zs ws (rw (append_assoc xs ys zs) h)))
