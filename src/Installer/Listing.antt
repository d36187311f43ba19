-- ===== src/Installer/Listing.antt =====
-- pkg/apk/installed.go: the maps that `sortTarHeaders` builds, against the headers.
use go_apk.Base.{
  List, [], ◌∷◌, ◌++◌, Option, none, some, ◌≡◌, ◌∙◌, ◌↔◌, ◌⊎◌, sym, refl, ap, inl, inr, arith,
  Bool-cases, if◌then◌else◌, In, In-append_left, In-append_right, In-append_cases,
}
use go_apk.Base.Bytes.{Bytes, str_eq, str_eq_iff}
use go_apk.Base.Maps.{Map, lookup, insert, lookup-insert, or_nil, append_at}
use go_apk.Base.Paths.{clean, dir}
use go_apk.Install.{Header}
use go_apk.Installer.Sorting.{Tree, add_header, tree_loop, keys}

-- The last header with a cleaned name.
unfoldable pub last_header : Bytes → List Header → Option Header
last_header c [] = none
last_header c (h ∷ hs) = elim (last_header c hs) [
  | some g ↦ some g
  | none ↦ if str_eq (clean h.name) c then some h else none
]

-- A header of the path `d` lies in the directory `k`.
abbrev pub Lists : List Header → Bytes → Bytes → Type 0
Lists hs k d = (g : Header) × In g hs × (clean g.name ≡ d) × (dir d ≡ k)

-- The map of headers has the last one of each path.
pub tree_loop-last :
    (c : Bytes) (t : Tree) (hs : List Header)
    → lookup c (tree_loop t hs).headers
      ≡ (elim (last_header c hs) [ some h ↦ some h | none ↦ lookup c t.headers ])
unfolding tree_loop last_header add_header
tree_loop-last c t [] = refl
tree_loop-last c t (h ∷ hs) =
    let rest = tree_loop-last c (add_header t h) hs in
    ground (arith, lookup-insert (clean h.name) c h t.headers)

-- What is in the list of a directory's entries.
append_at-In :
    (k j c d : Bytes) (m : Map (List Bytes))
    → In d (or_nil (lookup k (append_at j c m)))
      ↔ (In d (or_nil (lookup k m)) ⊎ ((c ≡ d) × (j ≡ k)))
append_at-In k j c d m =
    let old = or_nil (lookup j m) in
    rw (lookup-insert j k (old ++ c ∷ []) m) (elim (Bool-cases (str_eq j k)) [
      | inr e ↦ rw e (
          (
            inl,
            λ x. elim x [
              | inl i ↦ i
              | inr (f, g) ↦ absurd (let h = (str_eq_iff j k).1 g in cc (e, h))
            ],
          ))
      | inl e ↦
          let g = (str_eq_iff j k).0 e in
          let same : or_nil (lookup k m) ≡ old = ap (λ x. or_nil (lookup x m)) (sym g) in
          rw (e, same)
            ((
              λ x. elim (In-append_cases d old (c ∷ []) x) [
                | inl i ↦ inl i
                | inr (inl f) ↦ inr (sym f, g)
                | inr (inr i) ↦ absurd i
              ],
              λ x. elim x [
                | inl i ↦ In-append_left d old (c ∷ []) i
                | inr (f, _) ↦ In-append_right d old (c ∷ []) (inl (sym f))
              ],
            ))
    ])

pub tree_loop-Lists :
    (k d : Bytes) (t : Tree) (hs : List Header)
    → In d (or_nil (lookup k (tree_loop t hs).children))
      ↔ (In d (or_nil (lookup k t.children)) ⊎ Lists hs k d)
unfolding tree_loop add_header
tree_loop-Lists k d t [] = (inl, λ x. elim x [ inl i ↦ i | inr (g, i, _, _) ↦ absurd i ])
tree_loop-Lists k d t (h ∷ hs) =
    let rest = tree_loop-Lists k d (add_header t h) hs in
    let one = append_at-In k (dir (clean h.name)) (clean h.name) d t.children in
    (
      λ x. elim (rest.0 x) [
        | inr (g, i, e, f) ↦ inr (g, inr i, e, f)
        | inl i ↦ elim (one.0 i) [
          | inl j ↦ inl j
          | inr (e, f) ↦ inr (h, inl refl, e, ap dir (sym e) ∙ f)
        ]
      ],
      λ x. elim x [
        | inl i ↦ rest.1 (inl (one.1 (inl i)))
        | inr (g, inr i, e, f) ↦ rest.1 (inr (g, i, e, f))
        | inr (g, inl s, e, f) ↦
            let e' : clean h.name ≡ d = ap (λ y. clean y.name) (sym s) ∙ e in
            rest.1 (inl (one.1 (inr (e', ap dir e' ∙ f))))
      ],
    )

keys-insert :
    (k c : Bytes) (v : List Bytes) (m : Map (List Bytes))
    → In c (keys (insert k v m)) ↔ ((k ≡ c) ⊎ In c (keys m))
unfolding insert
keys-insert k c v [] = (
  λ x. elim x [ inl e ↦ inl (sym e) | inr i ↦ absurd i ],
  λ x. elim x [ inl e ↦ inl (sym e) | inr i ↦ absurd i ],
)
keys-insert k c v ((j, w) ∷ m) =
    let rest = keys-insert k c v m in
    elim (Bool-cases (str_eq j k)) [
      | inl e ↦
          let f = (str_eq_iff j k).0 e in
          rw e (inr, λ x. elim x [ inl g ↦ inl (sym (f ∙ g)) | inr i ↦ i ])
      | inr e ↦ rw e (
          (
            λ x. elim x [
              | inl f ↦ inr (inl f)
              | inr i ↦ elim (rest.0 i) [ inl f ↦ inl f | inr j ↦ inr (inr j) ]
            ],
            λ x. elim x [
              | inl f ↦ inr (rest.1 (inl f))
              | inr (inl f) ↦ inl f
              | inr (inr i) ↦ inr (rest.1 (inr i))
            ],
          ))
    ]

pub tree_loop-keys :
    (k : Bytes) (t : Tree) (hs : List Header)
    → In k (keys (tree_loop t hs).children)
      ↔ (In k (keys t.children) ⊎ ((d : Bytes) × Lists hs k d))
unfolding tree_loop add_header
tree_loop-keys k t [] = (inl, λ x. elim x [ inl i ↦ i | inr (d, (g, i, _, _)) ↦ absurd i ])
tree_loop-keys k t (h ∷ hs) =
    let c = clean h.name in
    let rest = tree_loop-keys k (add_header t h) hs in
    let one = keys-insert (dir c) k (or_nil (lookup (dir c) t.children) ++ c ∷ []) t.children in
    (
      λ x. elim (rest.0 x) [
        | inr (d, (g, i, e, f)) ↦ inr (d, (g, inr i, e, f))
        | inl i ↦ elim (one.0 i) [ inl e ↦ inr (c, (h, inl refl, refl, e)) | inr j ↦ inl j ]
      ],
      λ x. elim x [
        | inl i ↦ rest.1 (inl (one.1 (inr i)))
        | inr (d, (g, inr i, e, f)) ↦ rest.1 (inr (d, (g, i, e, f)))
        | inr (d, (g, inl s, e, f)) ↦
            let e' : c ≡ d = ap (λ y. clean y.name) (sym s) ∙ e in
            rest.1 (inl (one.1 (inl (ap dir e' ∙ f))))
      ],
    )
