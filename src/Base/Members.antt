-- ===== src/Base/Members.antt =====
-- Membership in a list, as a sum for each element.
use mathlib.Core.Path.{subst}
use go_apk.Base.Names.{Bool, true, List, [], ◌∷◌, ◌++◌, ◌≡◌, sym, ◌⊎◌, ◌↔◌, inl, inr}
use go_apk.Base.Tests.{Bool-cases}
use go_apk.Base.Lists.{keep, All}

module _ {A : Type 0} where
  abbrev pub In : A → List A → Type 0
  In a [] = ⊥
  In a (x ∷ xs) = (a ≡ x) ⊎ In a xs

module _ {A : Type 0} (a : A) where
  pub In-append_left : (xs ys : List A) → In a xs → In a (xs ++ ys)
  In-append_left [] ys h = absurd h
  In-append_left (x ∷ xs) ys (inl e) = inl e
  In-append_left (x ∷ xs) ys (inr h) = inr (In-append_left xs ys h)

  pub In-append_right : (xs ys : List A) → In a ys → In a (xs ++ ys)
  In-append_right [] ys h = h
  In-append_right (x ∷ xs) ys h = inr (In-append_right xs ys h)

  pub In-append_cases : (xs ys : List A) → In a (xs ++ ys) → In a xs ⊎ In a ys
  In-append_cases [] ys h = inr h
  In-append_cases (x ∷ xs) ys (inl e) = inl (inl e)
  In-append_cases (x ∷ xs) ys (inr h) = elim (In-append_cases xs ys h) [
    | inl g ↦ inl (inr g)
    | inr g ↦ inr g
  ]

  pub All_of_In {κ} : (P : A → Type κ) (xs : List A) → All P xs → In a xs → P a
  All_of_In P [] _ h = absurd h
  All_of_In P (x ∷ xs) (p, ps) (inl e) = subst P (sym e) p
  All_of_In P (x ∷ xs) (p, ps) (inr h) = All_of_In P xs ps h

module _ {A : Type 0} (p : A → Bool) (a : A) where
  In-of_keep : (xs : List A) → In a (keep p xs) → In a xs × (p a ≡ true)
  In-of_keep [] h = absurd h
  In-of_keep (x ∷ xs) h = elim (Bool-cases (p x)) [
    | inl e ↦
        let h' : (a ≡ x) ⊎ In a (keep p xs) = rw e at h in
        elim h' [ inl f ↦ (inl f, rw f e) | inr g ↦ let (g', f) = In-of_keep xs g in (inr g', f) ]
    | inr e ↦ let (g, f) = In-of_keep xs (rw e at h) in (inr g, f)
  ]

  In-keep_intro : (xs : List A) → In a xs → p a ≡ true → In a (keep p xs)
  In-keep_intro [] h e = absurd h
  In-keep_intro (x ∷ xs) (inl f) e = let g : p x ≡ true = rw (← f) e in rw g (inl f)
  In-keep_intro (x ∷ xs) (inr h) e = elim (Bool-cases (p x)) [
    | inl g ↦ rw g (inr (In-keep_intro xs h e))
    | inr g ↦ rw g (In-keep_intro xs h e)
  ]

  -- What passes a test, and only that, is kept.
  pub In-keep : (xs : List A) → In a (keep p xs) ↔ (In a xs × (p a ≡ true))
  In-keep xs = (In-of_keep xs, λ (h, e). In-keep_intro xs h e)
