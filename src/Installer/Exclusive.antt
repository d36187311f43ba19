-- ===== src/Installer/Exclusive.antt =====
-- pkg/apk/implementation.go: which files `InstallPackages` records for which package.
use Prim.Native.Nat.{suc, ◌≤◌, ◌<◌}
use go_apk.Base.{
  ℕ, true, false, List, [], ◌∷◌, Option, none, some, ◌≡◌, ◌≢◌, refl, ap, inl, inr, arith,
  Bool-cases, Option-cases, ◌==◌, All, In, In-keep,
}
use go_apk.Base.Bytes.{Bytes, str_eq}
use go_apk.Base.Maps.{Map, lookup}
use go_apk.Install.{PackageRef, Header, Library, done}
use go_apk.Install.Entries.{Apk}
use go_apk.Install.Steps.{Outcome-cases, chain-done}
use go_apk.Installer.Control.{TarWriter}
use go_apk.Installer.Records.{is_installed_package}
use go_apk.Installer.Packages.{
  Expanded, install_package, Installed, install_one, add_if, install_in_order, is_owned_by,
  owned_files, fresh,
}

-- What is installed has the number that it was given.
abbrev Numbered : ℕ → Option Installed → Type 0
Numbered i none = Unit
Numbered i (some x) = x.0.id ≡ i

install_one-Numbered :
    (lib : Library) (tw : TarWriter) (i : ℕ) (name : Bytes) (exp : Expanded) (apk : Apk)
    (o : Option Installed)
    → (install_one lib tw i name exp apk).1 ≡ done o
    → Numbered i o
unfolding install_one
install_one-Numbered lib tw i name exp apk o e =
    elim (Outcome-cases (is_installed_package name apk.fs)) [
      | inr (x, f) ↦ absurd (let e' = (rw (f, install_one) at e) in cc e')
      | inl (true, f) ↦
          let e' = (rw (f, install_one) at e) in let same : none ≡ o = cc e' in rw (← same) tt
      | inl (false, f) ↦ elim (Option-cases exp.info) [
        | inl g ↦ absurd (let e' = (rw (f, g, install_one) at e) in cc e')
        | inr (info, g) ↦
            let pkg : PackageRef = record { id = i; value = info } in
            let e' = (rw (f, g, install_one) at e) in
            let (files, k, l) = chain-done (install_package lib tw pkg exp apk) _ o e' in
            let same : some (pkg, files) ≡ o = cc l in rw (← same) refl
      ]
    ]

-- The numbers go up.
abbrev Rising : ℕ → List Installed → Type 0
Rising i [] = Unit
Rising i (x ∷ l) = (i ≤ x.0.id) × Rising (suc x.0.id) l

Rising-weaken : (i j : ℕ) (l : List Installed) → i ≤ j → Rising j l → Rising i l
Rising-weaken i j [] h _ = tt
Rising-weaken i j (x ∷ l) h (k, r) = (omega arith, r)

add_if-Rising :
    (i : ℕ) (o : Option Installed) (l : List Installed)
    → Numbered i o
    → Rising (suc i) l
    → Rising i (add_if o l)
add_if-Rising i none l n r = Rising-weaken i (suc i) l (omega arith) r
add_if-Rising i (some x) l n r = (omega arith, rw n r)

install_in_order-Rising :
    (lib : Library) (tw : TarWriter) (ps : List (Bytes × Option Expanded)) (i : ℕ) (apk : Apk)
    (l : List Installed)
    → (install_in_order lib tw i ps apk).1 ≡ done l
    → Rising i l
unfolding install_in_order
install_in_order-Rising lib tw [] i apk l e = let same : [] ≡ l = cc e in rw (← same) tt
install_in_order-Rising lib tw ((name, none) ∷ ps) i apk l e = absurd (cc e)
install_in_order-Rising lib tw ((name, some exp) ∷ ps) i apk l e =
    let (o, g, f) = chain-done (install_one lib tw i name exp apk) _ l e in
    let s = (install_one lib tw i name exp apk).0 in
    let (rest, m, k) = chain-done (install_in_order lib tw (suc i) ps s) _ l f in
    let same : add_if o rest ≡ l = cc k in
    rw (← same) (
      add_if-Rising i o rest (install_one-Numbered lib tw i name exp apk o g)
        (install_in_order-Rising lib tw ps (suc i) s rest m))

-- A name that is recorded for both packages has no owner.
abbrev pub NoShare : Map PackageRef → Installed → Installed → Type 0
NoShare owners x y =
    (h g : Header)
    → In h (owned_files owners x.0 x.1)
    → In g (owned_files owners y.0 y.1)
    → h.name ≡ g.name
    → lookup h.name owners ≡ none

-- ... for any two of them.
abbrev pub Exclusive : Map PackageRef → List Installed → Type 0
Exclusive owners [] = Unit
Exclusive owners (x ∷ l) = All (NoShare owners x) l × Exclusive owners l

owner-id :
    (owners : Map PackageRef) (pkg o : PackageRef) (h : Header)
    → lookup h.name owners ≡ some o
    → is_owned_by owners pkg h ≡ true
    → o.id ≡ pkg.id
owner-id owners pkg o h k e =
    let e' : (o.id == pkg.id) ≡ true = rw (k, is_owned_by) at e in ground arith

-- Different numbers own different files.
NoShare-of_ids : (owners : Map PackageRef) (x y : Installed) → x.0.id < y.0.id → NoShare owners x y
NoShare-of_ids owners x y h f g i j e = elim (Option-cases (lookup f.name owners)) [
  | inl k ↦ k
  | inr (o, k) ↦
      let (p, q) = (In-keep (is_owned_by owners x.0) f x.1).0 i in
      let (r, s) = (In-keep (is_owned_by owners y.0) g y.1).0 j in
      let mine = owner-id owners x.0 o f k q in
      let yours = owner-id owners y.0 o g (rw (← e) k) s in absurd (omega arith)
]

Rising-above :
    (owners : Map PackageRef) (x : Installed) (i : ℕ) (l : List Installed)
    → x.0.id < i
    → Rising i l
    → All (NoShare owners x) l
Rising-above owners x i [] h _ = tt
Rising-above owners x i (y ∷ l) h (k, r) =
    (NoShare-of_ids owners x y (omega arith), Rising-above owners x (suc y.0.id) l (omega arith) r)

Rising-Exclusive :
    (owners : Map PackageRef) (i : ℕ) (l : List Installed) → Rising i l → Exclusive owners l
Rising-Exclusive owners i [] _ = tt
Rising-Exclusive owners i (x ∷ l) (h, r) =
    (Rising-above owners x (suc x.0.id) l (omega arith) r, Rising-Exclusive owners (suc x.0.id) l r)

-- All that own a file have numbers below the fresh ones.
fresh-above :
    (owners : Map PackageRef) (name : Bytes) (o : PackageRef)
    → lookup name owners ≡ some o
    → o.id < fresh owners
unfolding lookup fresh
fresh-above [] name o e = absurd (cc e)
fresh-above ((n, p) ∷ owners) name o e = elim (Bool-cases (str_eq n name)) [
  | inl f ↦
      let same : p ≡ o = let e' : some p ≡ some o = rw f at e in cc e' in
      let ids : p.id ≡ o.id = ap (λ x. x.id) same in ground arith
  | inr f ↦ let rest = fresh-above owners name o (rw f at e) in ground arith
]

-- No file that is recorded for the package has the owner that it had before.
abbrev pub Taken : Map PackageRef → Map PackageRef → Installed → Type 0
Taken before after x =
    (h : Header) (o : PackageRef)
    → In h (owned_files after x.0 x.1)
    → lookup h.name after ≡ some o
    → lookup h.name before ≢ some o

Rising-Taken :
    (before after : Map PackageRef) (i : ℕ) (l : List Installed)
    → fresh before ≤ i
    → Rising i l
    → All (Taken before after) l
Rising-Taken before after i [] h _ = tt
Rising-Taken before after i (x ∷ l) h (k, r) = (
  λ g o m e f.
      let (_, q) = (In-keep (is_owned_by after x.0) g x.1).0 m in
      let mine = owner-id after x.0 o g e q in
      let old = fresh-above before g.name o f in absurd (omega arith),
  Rising-Taken before after (suc x.0.id) l (omega arith) r,
)

-- Where all packages are installed in order, no file that has an owner is among the files that
-- `InstallPackages` records for two of them, and none that it records still has an owner from before.
pub install_in_order-Exclusive :
    (lib : Library) (tw : TarWriter) (ps : List (Bytes × Option Expanded)) (apk b : Apk)
    (l : List Installed)
    → install_in_order lib tw (fresh apk.installed_files) ps apk ≡ (b, done l)
    → Exclusive b.installed_files l × All (Taken apk.installed_files b.installed_files) l
install_in_order-Exclusive lib tw ps apk b l e =
    let i = fresh apk.installed_files in
    let r = install_in_order-Rising lib tw ps i apk l (ap (λ m. m.1) e) in
    (
      Rising-Exclusive b.installed_files i l r,
      Rising-Taken apk.installed_files b.installed_files i l (omega arith) r,
    )
