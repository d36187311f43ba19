-- ===== src/TarFs/Links.antt =====
-- internal/tarfs/tarfs.go: to what a name leads through the links of an archive.
use Prim.Native.Nat.{zero, suc}
use mathlib.Core.Path.{subst}
use go_apk.Base.{
  ℕ, Bool, true, false, List, [], ◌∷◌, none, some, ◌≡◌, ◌≢◌, ◌∙◌, ◌↔◌, ◌⊎◌, sym, refl, inl, inr,
  arith, Bool-cases, Option-cases,
}
use go_apk.Base.Bytes.{Bytes, str_eq}
use go_apk.Base.Paths.{dir, join_path, is_rooted}
use go_apk.Install.{Header, TypeFlag, symlink_type, link_type, dir_type, reg_type, other_type}
use go_apk.TarFs.{
  Entry, TarFs, ok, indexed, is_link, link_target, max_hops, open_entry, open_file, new_tar_fs,
}
use go_apk.TarFs.Laws.{entry_of, last_entry, indexed-new_tar_fs}

-- A symbolic link or a hard link.
abbrev pub IsLink : TypeFlag → Type 0
IsLink t = (t ≡ symlink_type) ⊎ (t ≡ link_type)

-- A link to a name that begins with a slash leads to that name, and any other one to the name as seen
-- from the link's directory.
pub data Target (link : Entry) : Bytes → Type 0 where
  absolute : (s : Bytes) → link.header.link_name ≡ b'/' ∷ s → Target link (b'/' ∷ s)
  relative :
      ((s : Bytes) → link.header.link_name ≢ b'/' ∷ s)
      → Target link (join_path (dir link.header.name) link.header.link_name)

-- What a name leads to in an archive, in at most so many links: names are those of last headers.
pub data Leads (headers : List (Header × ℕ)) : ℕ → Bytes → Entry → Type 0 where
  found :
      {hops : ℕ} {name : Bytes} {e : Entry}
      → last_entry name headers ≡ some e
      → ¬ IsLink e.header.type_flag
      → Leads headers hops name e
  follows :
      {hops : ℕ} {name target : Bytes} {e link : Entry}
      → last_entry name headers ≡ some link
      → IsLink link.header.type_flag
      → Target link target
      → Leads headers hops target e
      → Leads headers (suc hops) name e

is_link-IsLink : (t : TypeFlag) → IsLink t → is_link t ≡ true
is_link-IsLink t (inl e) = rw e refl
is_link-IsLink t (inr e) = rw e refl

IsLink-is_link : (t : TypeFlag) → is_link t ≡ true → IsLink t
IsLink-is_link dir_type e = absurd (cc e)
IsLink-is_link reg_type e = absurd (cc e)
IsLink-is_link symlink_type e = inl refl
IsLink-is_link link_type e = inr refl
IsLink-is_link other_type e = absurd (cc e)

not_link : (t : TypeFlag) → ¬ IsLink t → is_link t ≡ false
not_link t n = elim (Bool-cases (is_link t)) [ inl e ↦ absurd (n (IsLink-is_link t e)) | inr e ↦ e ]

no-IsLink : (t : TypeFlag) → is_link t ≡ false → ¬ IsLink t
no-IsLink t e l = absurd (let f = is_link-IsLink t l in cc (e, f))

last_entry-dir :
    (name : Bytes) (headers : List (Header × ℕ)) (e : Entry)
    → last_entry name headers ≡ some e
    → e.dir ≡ dir e.header.name
unfolding last_entry
last_entry-dir name [] e f = absurd (cc f)
last_entry-dir name ((h, offset) ∷ headers) e f = elim (Option-cases (last_entry name headers)) [
  | inr (e', g) ↦ last_entry-dir name headers e (let k : some e' ≡ some e = rw g at f in g ∙ k)
  | inl g ↦ elim (Bool-cases (str_eq h.name name)) [
    | inr k ↦ absurd (let f' : none ≡ some e = rw (g, k, last_entry) at f in cc f')
    | inl k ↦
        let f' : some (entry_of (h, offset)) ≡ some e = rw (g, k, last_entry) at f in
        let same : entry_of (h, offset) ≡ e = cc f' in rw (← same) refl
  ]
]

is_rooted-slash : (s : Bytes) → is_rooted s ≡ true → (r : Bytes) × (s ≡ b'/' ∷ r)
is_rooted-slash [] e = absurd (cc e)
is_rooted-slash (c ∷ r) e = (r, let same : c ≡ b'/' = ground arith in rw same refl)

-- The link's target is computed as it is described.
Target-link_target :
    (link : Entry) → link.dir ≡ dir link.header.name → Target link (link_target link)
unfolding link_target
Target-link_target link d = elim (Bool-cases (is_rooted link.header.link_name)) [
  | inl e ↦
      let (r, f) = is_rooted-slash link.header.link_name e in
      rw e (subst (Target link) (sym f) (absolute r f))
  | inr e ↦ rw e (rw d (relative λ s f. absurd (let g = (rw f at e) in cc g)))
]

link_target-Target :
    (link : Entry) (t : Bytes)
    → link.dir ≡ dir link.header.name
    → Target link t
    → link_target link ≡ t
unfolding link_target
link_target-Target link _ d (absolute s e) = rw e refl
link_target-Target link _ d (relative n) = elim (Bool-cases (is_rooted link.header.link_name)) [
  | inl e ↦ let (r, f) = is_rooted-slash link.header.link_name e in absurd (n r f)
  | inr e ↦ rw e (rw d refl)
]

module _ (fsys : TarFs) (headers : List (Header × ℕ))
    (look : (name : Bytes) → indexed fsys.files fsys.index name ≡ last_entry name headers) where
  last_found :
      (hops : ℕ) (name : Bytes) (l e : Entry)
      → last_entry name headers ≡ some l
      → is_link l.header.type_flag ≡ false
      → l ≡ e
      → Leads headers hops name e
  last_found hops name l e f g same =
      let g' : is_link e.header.type_flag ≡ false = rw same at g in
      let f' : last_entry name headers ≡ some e = rw same at f in
      found f' (no-IsLink e.header.type_flag g')

  open-leads :
      (hops : ℕ) (name : Bytes) (e : Entry)
      → open_entry hops fsys name ≡ ok e
      → Leads headers hops name e
  unfolding open_entry
  open-leads zero name e h = elim (Option-cases (last_entry name headers)) [
    | inl f ↦ absurd (let i = look name ∙ f in ground arith)
    | inr (l, f) ↦
        let i = look name ∙ f in
        elim (Bool-cases (is_link l.header.type_flag)) [
          | inl g ↦ absurd (ground arith)
          | inr g ↦ last_found zero name l e f g (ground arith)
        ]
  ]
  open-leads (suc hops) name e h = elim (Option-cases (last_entry name headers)) [
    | inl f ↦ absurd (let i = look name ∙ f in ground arith)
    | inr (l, f) ↦
        let i = look name ∙ f in
        elim (Bool-cases (is_link l.header.type_flag)) [
          | inl g ↦
              follows f (IsLink-is_link l.header.type_flag g)
                (Target-link_target l (last_entry-dir name headers l f))
                (open-leads hops (link_target l) e (ground arith))
          | inr g ↦ last_found (suc hops) name l e f g (ground arith)
        ]
  ]

  leads-open :
      (hops : ℕ) (name : Bytes) (e : Entry)
      → Leads headers hops name e
      → open_entry hops fsys name ≡ ok e
  unfolding open_entry
  leads-open zero name e (found f n) =
      rw (look name ∙ f, open_entry) (rw (not_link e.header.type_flag n) refl)
  leads-open (suc hops) name e (found f n) =
      rw (look name ∙ f, open_entry) (rw (not_link e.header.type_flag n) refl)
  leads-open (suc hops) name e (follows {target = t} {link = l} f i t' k) =
      rw (look name ∙ f, open_entry)
        (rw (is_link-IsLink l.header.type_flag i) (
          rw (link_target-Target l t (last_entry-dir name headers l f) t') (leads-open hops t e k)))

-- In the file system that `New` makes, `Open` gives just the entry to which the name leads in the
-- archive in at most 64 links, however these go round: each name is that of the last header with it,
-- and a link leads to its target if that begins with a slash, and from its directory otherwise.
pub open_file-Leads :
    (sort : List Entry → List Entry) (broken : Bool) (headers : List (Header × ℕ)) (fsys : TarFs)
    (name : Bytes) (e : Entry)
    → new_tar_fs sort broken headers ≡ ok fsys
    → (open_file fsys name ≡ ok e) ↔ Leads headers 64 name e
unfolding open_file
open_file-Leads sort broken headers fsys name e m =
    let look = λ (name : Bytes). indexed-new_tar_fs sort broken headers fsys name m in
    (open-leads fsys headers look max_hops name e, leads-open fsys headers look max_hops name e)
