-- ===== src/Installer/Shorter.antt =====
-- What `filepath.Dir` gives is shorter than its argument, but for the roots.
use Prim.Native.Nat.{suc, ◌+◌, ◌≤◌, ◌<◌}
use mathlib.Core.List.{reverse_aux}
use go_apk.Base.{
  ℕ, Bool, true, false, List, [], ◌∷◌, ◌≡◌, ◌≢◌, refl, inl, inr, arith, Bool-cases, ◌==◌,
  if◌then◌else◌, is_nil, length, length-append,
}
use go_apk.Base.Bytes.{Bytes, codes, str_eq, str_eq_iff, split, split-cons, join}
use go_apk.Base.Paths.{slash, is_rooted, step_out, step_in, clean_elements, clean, split_path, dir}

-- The bytes of a text that the elements are joined to, with one slash more.
abbrev weight : List Bytes → ℕ
weight [] = 0
weight (e ∷ es) = suc (length e + weight es)

abbrev blanks : List Bytes → ℕ
blanks [] = 0
blanks (e ∷ es) = if is_nil e then suc (blanks es) else blanks es

weight-reverse_aux : (l r : List Bytes) → weight (reverse_aux l r) ≡ weight l + weight r
weight-reverse_aux [] r = omega arith
weight-reverse_aux (x ∷ l) r = omega (arith, weight-reverse_aux l (x ∷ r))

-- An element on the kept ones adds at most its own weight, and a blank one nothing.
weight-step_in :
    (rooted : Bool) (kept : List Bytes) (e : Bytes)
    → (weight (step_in rooted kept e) + (if is_nil e then 1 else 0)) ≤ suc (length e + weight kept)
weight-step_in rooted kept [] = omega arith
weight-step_in rooted kept (c ∷ e) = elim (Bool-cases (str_eq (c ∷ e) (codes "."))) [
  | inl f ↦ rw f (omega arith)
  | inr f ↦ elim (Bool-cases (str_eq (c ∷ e) (codes ".."))) [
    | inr g ↦ rw (f, g) (omega arith)
    | inl g ↦ rw (f, g) (out rooted kept (c ∷ e) ((str_eq_iff (c ∷ e) (codes "..")).0 g))
  ]
]
  where
    out :
        (rooted : Bool) (kept : List Bytes) (e : Bytes)
        → e ≡ codes ".."
        → (weight (step_out rooted kept) + 0) ≤ suc (length e + weight kept)
    out true [] e f = omega arith
    out false [] e f = rw f (omega arith)
    out rooted (k ∷ kept) e f = rw f (elim (Bool-cases (str_eq k (codes ".."))) [
      | inl g ↦ rw g (omega arith)
      | inr g ↦ rw g (omega arith)
    ])

weight-clean_elements :
    (rooted : Bool) (kept es : List Bytes)
    → (weight (clean_elements rooted kept es) + blanks es) ≤ (weight kept + weight es)
unfolding clean_elements
weight-clean_elements rooted kept [] = omega (arith, weight-reverse_aux kept [])
weight-clean_elements rooted kept (e ∷ es) =
    ground
      (arith, weight-clean_elements rooted (step_in rooted kept e) es, weight-step_in rooted kept e)

weight-split : (s : Bytes) → weight (split s slash) ≡ suc (length s)
unfolding split
weight-split [] = refl
weight-split (c ∷ s) =
    let (p, ps, e) = split-cons s slash in
    let w = weight-split s in
    elim (Bool-cases (c == slash)) [
      | inl h ↦ rw (e, h) (omega (arith, (rw e at w)))
      | inr h ↦ rw (e, h) (omega (arith, (rw e at w)))
    ]

-- Nothing, or a text with a slash at its end.
abbrev Ends : Bytes → Type 0
Ends [] = Unit
Ends (c ∷ []) = (c == slash) ≡ true
Ends (c ∷ d ∷ s) = Ends (d ∷ s)

-- Behind the first part.
abbrev later_blanks : List Bytes → ℕ
later_blanks [] = 0
later_blanks (e ∷ es) = blanks es

split_blanks : (c : ℕ) (s : Bytes) → Ends (c ∷ s) → 1 ≤ later_blanks (split (c ∷ s) slash)
unfolding split
split_blanks c [] h = rw h (omega arith)
split_blanks c (d ∷ s) h =
    let (p, ps, e) = split-cons (d ∷ s) slash in
    let b' = split_blanks d s h in
    let b : 1 ≤ blanks ps = rw e at b' in
    elim (Bool-cases (c == slash)) [
      | inl g ↦ rw (e, g) (ground (arith, Bool-cases (is_nil p)))
      | inr g ↦ rw (e, g) b
    ]

-- The part in front of a slash that comes first is blank too.
all_blanks :
    (c : ℕ) (s : Bytes)
    → Ends (c ∷ s)
    → (if is_rooted (c ∷ s) then 2 else 1) ≤ blanks (split (c ∷ s) slash)
unfolding split
all_blanks c s h =
    let (p, ps, e) = split-cons s slash in
    let b = split_blanks c s h in
    elim (Bool-cases (c == slash)) [
      | inl g ↦ rw (e, g) (omega (arith, (rw (e, g) at b)))
      | inr g ↦ rw (e, g) (rw (e, g) at b)
    ]

weight-join : (e : Bytes) (es : List Bytes) → suc (length (join (e ∷ es) slash)) ≡ weight (e ∷ es)
unfolding join
weight-join e [] = omega arith
weight-join e (f ∷ es) =
    omega (arith, weight-join f es, length-append e (slash ∷ join (f ∷ es) slash))

split_path_lem :
    (s : Bytes)
    → (length (split_path s).0 + length (split_path s).1 ≡ length s) × Ends (split_path s).0
unfolding split_path
split_path_lem [] = (refl, tt)
split_path_lem (c ∷ s) = let (w, h) = split_path_lem s in go (split_path s).0 (split_path s).1 w h
  where
    go :
        (d b : Bytes)
        → length d + length b ≡ length s
        → Ends d
        → let r : Bytes × Bytes =
            (if is_nil d then (if c == slash then (c ∷ [], b) else ([], c ∷ b)) else (c ∷ d, b)) in
          (length r.0 + length r.1 ≡ suc (length s)) × Ends r.0
    go [] b w h = elim (Bool-cases (c == slash)) [
      | inl e ↦ rw e (omega arith, e)
      | inr e ↦ rw e (omega arith, tt)
    ]
    go (x ∷ d) b w h = (omega arith, h)

abbrev as_path : Bool → Bytes → Bytes
as_path rooted path = if rooted then slash ∷ path else if is_nil path then codes "." else path

as_path_shorter :
    (rooted : Bool) (l : List Bytes) (n : ℕ)
    → (weight l + (if rooted then 2 else 1)) ≤ suc n
    → as_path rooted (join l slash) ≢ codes "."
    → as_path rooted (join l slash) ≢ slash ∷ []
    → length (as_path rooted (join l slash)) < n
as_path_shorter true [] n w h k = absurd (k (unfold join in refl))
as_path_shorter false [] n w h k = absurd (h (unfold join in refl))
as_path_shorter true (e ∷ es) n w h k = omega (arith, weight-join e es)
as_path_shorter false (e ∷ es) n w h k = elim (Bool-cases (is_nil (join (e ∷ es) slash))) [
  | inl g ↦ absurd (h (rw g refl))
  | inr g ↦ rw g (omega (arith, weight-join e es))
]

clean_shorter :
    (d : Bytes) → Ends d → clean d ≢ codes "." → clean d ≢ slash ∷ [] → length (clean d) < length d
unfolding clean
clean_shorter [] _ h k = absurd (h (unfold clean_elements split join in refl))
clean_shorter (c ∷ s) e h k =
    let rooted = is_rooted (c ∷ s) in
    let es = split (c ∷ s) slash in
    let w = weight-split (c ∷ s) in
    let b = all_blanks c s e in
    let r = weight-clean_elements rooted [] es in
    as_path_shorter rooted (clean_elements rooted [] es) (length (c ∷ s)) (omega arith) h k

-- The parent of a path is shorter, unless it is the working directory or the root.
pub dir_shorter : (c : Bytes) → dir c ≢ codes "." → dir c ≢ slash ∷ [] → length (dir c) < length c
unfolding dir
dir_shorter c h k =
    let (w, e) = split_path_lem c in let g = clean_shorter (split_path c).0 e h k in omega arith
