-- ===== src/DirFs/Laws.antt =====
-- pkg/fs/rwosfs.go: one variant of a name at a time is on disk.
use go_apk.Base.{Bool, true, false, none, some, ◌≡◌, ◌≢◌, refl, inl, inr, arith, Option-cases}
use go_apk.Base.Bytes.{Bytes, str_eq, str_eq_iff, str_eq_refl}
use go_apk.Base.Maps.{Map, lookup, insert, delete, lookup-insert, lookup-delete}
use go_apk.DirFs.{
  CaseMap, to_lower, standardize_path, look_on_disk, case_sensitive_on_disk, create_on_disk,
  remove_on_disk,
}

create_lem :
    (m : Map Bytes) (p s : Bytes) (answer : Bool) (m' : Map Bytes)
    → standardize_path p ≡ some s
    → create_on_disk (some m) p ≡ some (answer, some m')
    → (v : Bytes) × (lookup (to_lower s) m' ≡ some v) × (str_eq v s ≡ answer)
unfolding create_on_disk
create_lem m p s answer m' f e = elim (Option-cases (lookup (to_lower s) m)) [
  | inl g ↦ (
    s,
    ground (arith, lookup-insert (to_lower s) (to_lower s) s m, str_eq_refl (to_lower s)),
    ground (arith, str_eq_refl s),
  )
  | inr (v, g) ↦ (v, ground arith, ground arith)
]

-- What `createOnDisk` answers `caseSensitiveOnDisk` then answers too, on any disk.
pub case_sensitive-create :
    (cm cm' : CaseMap) (p : Bytes) (answer : Bool)
    → create_on_disk cm p ≡ some (answer, cm')
    → case_sensitive_on_disk cm' p ≡ some answer
unfolding create_on_disk case_sensitive_on_disk look_on_disk
case_sensitive-create none cm' p answer e =
    let same : some (true, none) ≡ some (answer, cm') = e in
    let first : true ≡ answer = cc same in
    let second : none ≡ cm' = cc same in rw (← second, ← first) refl
case_sensitive-create (some m) cm' p answer e = elim (Option-cases (standardize_path p)) [
  | inl f ↦ absurd (ground arith)
  | inr (s, f) ↦ elim (Option-cases (lookup (to_lower s) m)) [
    | inl g ↦
        let e' : some (true, some (insert (to_lower s) s m)) ≡ some (answer, cm') =
          rw (f, g, create_on_disk) at e in
        let first : true ≡ answer = cc e' in
        let second : some (insert (to_lower s) s m) ≡ cm' = cc e' in
        let found = lookup-insert (to_lower s) (to_lower s) s m in
        rw (← second, ← first) (ground (arith, found, str_eq_refl (to_lower s), str_eq_refl s))
    | inr (v, g) ↦
        let e' : some (str_eq v s, some m) ≡ some (answer, cm') = rw (f, g, create_on_disk) at e in
        let first : str_eq v s ≡ answer = cc e' in
        let second : some m ≡ cm' = cc e' in rw (← second, ← first) (ground arith)
  ]
]

-- What `createOnDisk` answers `caseSensitiveOnDisk` then answers too. Where a name was created on
-- disk, another variant of it that differs in case is not on disk, nor is it created there.
pub create_on_disk-once :
    (m m' : Map Bytes) (p q s t : Bytes) (answer : Bool)
    → standardize_path p ≡ some s
    → standardize_path q ≡ some t
    → to_lower s ≡ to_lower t
    → s ≢ t
    → create_on_disk (some m) p ≡ some (answer, some m')
    → (case_sensitive_on_disk (some m') p ≡ some answer)
      × (answer ≡ true
          → (case_sensitive_on_disk (some m') q ≡ some false)
            × (create_on_disk (some m') q ≡ some (false, some m')))
unfolding case_sensitive_on_disk create_on_disk look_on_disk
create_on_disk-once m m' p q s t answer f g same other e =
    let (v, k, w) = create_lem m p s answer m' f e in
    (
      ground arith,
      λ yes.
          let is_s : v ≡ s = ground (arith, str_eq_iff v s) in
          let not_t : str_eq v t ≡ false = ground (arith, str_eq_iff v t) in
          let l : lookup (to_lower t) m' ≡ some v = rw same at k in (ground arith, ground arith),
    )

-- A name without a slash before it that was created on disk is removed from disk, once, and then
-- another variant of it can be created there.
pub remove_on_disk-create_on_disk :
    (m m' : Map Bytes) (p q t : Bytes)
    → standardize_path p ≡ some p
    → standardize_path q ≡ some t
    → to_lower p ≡ to_lower t
    → create_on_disk (some m) p ≡ some (true, some m')
    → let m'' = delete (to_lower p) m' in
      (remove_on_disk (some m') p ≡ (true, some m''))
      × (remove_on_disk (some m'') p ≡ (false, some m''))
      × (create_on_disk (some m'') q ≡ some (true, some (insert (to_lower t) t m'')))
unfolding remove_on_disk create_on_disk
remove_on_disk-create_on_disk m m' p q t f g same e =
    let (v, k, w) = create_lem m p p true m' f e in
    let gone : lookup (to_lower p) (delete (to_lower p) m') ≡ none =
      ground (arith, lookup-delete (to_lower p) (to_lower p) m', str_eq_refl (to_lower p)) in
    let gone' : lookup (to_lower t) (delete (to_lower p) m') ≡ none = ground (arith, same, gone) in
    (ground arith, ground arith, ground arith)
