-- ===== src/Resolver/Tests/Library.antt =====
-- Functions that keep what golang.org/x/exp/slices documents, for runs of the resolver.
use mathlib.Core.Bool.{not}
use go_apk.Base.{
  Bool, true, false, List, [], ◌∷◌, ◌≡◌, refl, inl, inr, arith, keep, All, In, if◌then◌else◌,
  Bool-cases,
}
use go_apk.Version.{Comparison, greater, equal, less}
use go_apk.Version.Order.{AtMost, flip}
use go_apk.Resolver.Package.{Candidate}
use go_apk.Resolver.Compare.{Slices}
use go_apk.Resolver.Compare.Preorder.{IsPreorder, MinLaws}
use go_apk.Resolver.Solve.Dependencies.Termination.{LoopLaws}

abbrev pub is_below : Comparison → Bool
is_below less = true
is_below equal = false
is_below greater = false

-- The first least element.
abbrev pub first_least :
    (Candidate → Candidate → Comparison) → Candidate → List Candidate → Candidate
first_least f c [] = c
first_least f c (d ∷ ds) = let m = first_least f d ds in if is_below (f m c) then m else c

abbrev pub sorted_in :
    (Candidate → Candidate → Comparison) → Candidate → List Candidate → List Candidate
sorted_in f c [] = c ∷ []
sorted_in f c (d ∷ ds) =
    let rest = sorted_in f c ds in if is_below (f d c) then d ∷ rest else c ∷ d ∷ ds

abbrev pub sorted : (Candidate → Candidate → Comparison) → List Candidate → List Candidate
sorted f [] = []
sorted f (c ∷ cs) = sorted_in f c (sorted f cs)

abbrev pub slices : Slices
slices = record {
  min_func = first_least;
  sort_func = sorted;
  delete_func = λ p xs. keep (λ s. not (p s)) xs;
}

module _ (f : Candidate → Candidate → Comparison) where
  -- What holds of either holds of the lower one.
  lower-cases :
      (m c : Candidate) (P : Candidate → Type 0)
      → (is_below (f m c) ≡ true → P m)
      → (is_below (f m c) ≡ false → P c)
      → P (if is_below (f m c) then m else c)
  lower-cases m c P h k = elim (Bool-cases (is_below (f m c))) [
    | inl e ↦ rw e (h e)
    | inr e ↦ rw e (k e)
  ]

  first_least-In : (c : Candidate) (cs : List Candidate) → In (first_least f c cs) (c ∷ cs)
  first_least-In c [] = inl refl
  first_least-In c (d ∷ ds) =
      lower-cases (first_least f d ds) c (λ x. In x (c ∷ d ∷ ds)) (λ e. inr (first_least-In d ds))
        λ e. inl refl

  AtMost-refl : (c : Candidate) (cs : List Candidate) → IsPreorder f cs → In c cs → AtMost (f c c)
  AtMost-refl c cs h i = λ e. go (f c c) e (h.mirrored c c i i)
    where
      go : (x : Comparison) → x ≡ greater → x ≡ flip x → ⊥
      go less e g = ground arith
      go equal e g = ground arith
      go greater e g = ground arith

  AtMost-not_below : (c d : Comparison) → d ≡ flip c → is_below c ≡ false → AtMost d
  AtMost-not_below less d e h = absurd (ground arith)
  AtMost-not_below equal d e h = ground arith
  AtMost-not_below greater d e h = ground arith

  AtMost-below : (c : Comparison) → is_below c ≡ true → AtMost c
  AtMost-below c h = ground arith

  IsPreorder-tail : (c : Candidate) (cs : List Candidate) → IsPreorder f (c ∷ cs) → IsPreorder f cs
  IsPreorder-tail c cs h = record {
    mirrored = λ a b i j. h.mirrored a b (inr i) (inr j);
    transitive = λ a b x i j k. h.transitive a b x (inr i) (inr j) (inr k);
  }

  -- What is least above an element that is in front of it is least there.
  All-below :
      (c m : Candidate) (all cs : List Candidate)
      → IsPreorder f all
      → In c all
      → In m all
      → ((d : Candidate) → In d cs → In d all)
      → AtMost (f c m)
      → All (λ d. AtMost (f m d)) cs
      → All (λ d. AtMost (f c d)) cs
  All-below c m all [] h i j sub p _ = tt
  All-below c m all (d ∷ cs) h i j sub p (q, qs) = (
    h.transitive c m d i j (sub d (inl refl)) p q,
    All-below c m all cs h i j (λ x k. sub x (inr k)) p qs,
  )

  first_least-All :
      (c : Candidate) (cs : List Candidate)
      → IsPreorder f (c ∷ cs)
      → All (λ d. AtMost (f (first_least f c cs) d)) (c ∷ cs)
  first_least-All c [] h = (AtMost-refl c (c ∷ []) h (inl refl), tt)
  first_least-All c (d ∷ ds) h =
      let m = first_least f d ds in
      let least = first_least-All d ds (IsPreorder-tail c (d ∷ ds) h) in
      let i = first_least-In d ds in
      lower-cases m c (λ x. All (λ y. AtMost (f x y)) (c ∷ d ∷ ds))
        (λ e. (AtMost-below (f m c) e, least))
        λ e. (
          AtMost-refl c (c ∷ d ∷ ds) h (inl refl),
          All-below c m (c ∷ d ∷ ds) (d ∷ ds) h (inl refl) (inr i) (λ x k. inr k)
              (AtMost-not_below (f m c) (f c m) (h.mirrored m c (inr i) (inl refl)) e) least,
        )

pub slices-MinLaws : MinLaws slices
slices-MinLaws = record { member = first_least-In; least = first_least-All }

pub slices-LoopLaws : LoopLaws slices (λ m. m)
slices-LoopLaws = record { deleted = λ p xs. refl; visited = λ m. omega arith }
