-- ===== src/TarFs/Laws.antt =====
-- internal/tarfs/tarfs.go: the index and the directories against the headers of the archive.
use Prim.Native.Nat.{zero, suc, ◌<◌}
use mathlib.Core.List.{append-nil, append_assoc}
use go_apk.Base.{
  ℕ, Bool, true, false, List, [], ◌∷◌, ◌++◌, Option, none, some, ◌≡◌, ◌∙◌, sym, refl, ap, inl, inr,
  arith, Bool-cases, Option-cases, if◌then◌else◌, length, length-append, keep,
}
use go_apk.Base.Bytes.{Bytes, str_eq, str_eq_iff}
use go_apk.Base.Maps.{Map, lookup, insert, lookup-insert, or_nil, append_at}
use go_apk.Base.Paths.{dir}
use go_apk.Install.{Header}
use go_apk.TarFs.{
  Entry, TarFs, ok, nth, indexed, read_dir, index_loop, list_dirs, sort_dirs, new_tar_fs,
}

-- The last entry of a name.
unfoldable pub last_named : Bytes → List Entry → Option Entry
last_named name [] = none
last_named name (e ∷ files) = elim (last_named name files) [
  | some e' ↦ some e'
  | none ↦ if str_eq e.header.name name then some e else none
]

last_named-append :
    (name : Bytes) (files : List Entry) (e : Entry)
    → last_named name (files ++ e ∷ [])
      ≡ (if str_eq e.header.name name then some e else last_named name files)
unfolding last_named
last_named-append name [] e = refl
last_named-append name (f ∷ files) e = ground (arith, last_named-append name files e)

nth-end : (files : List Entry) (e : Entry) → nth (length files) (files ++ e ∷ []) ≡ some e
nth-end [] e = refl
nth-end (f ∷ files) e = nth-end files e

nth-append :
    (i : ℕ) (files : List Entry) (e : Entry)
    → i < length files
    → nth i (files ++ e ∷ []) ≡ nth i files
nth-append i [] e h = absurd (omega arith)
nth-append zero (f ∷ files) e h = refl
nth-append (suc i) (f ∷ files) e h = nth-append i files e (omega arith)

-- The index has, for each name, where its last entry is.
record IsIndex (files : List Entry) (index : Map ℕ) : Type 0 where
  bounded : (name : Bytes) (i : ℕ) → lookup name index ≡ some i → i < length files
  last : (name : Bytes) → indexed files index name ≡ last_named name files

IsIndex-append :
    (files : List Entry) (index : Map ℕ) (e : Entry)
    → IsIndex files index
    → IsIndex (files ++ e ∷ []) (insert e.header.name (length files) index)
unfolding indexed
IsIndex-append files index e x = record {
  bounded = λ name i f. ground (
    arith,
    lookup-insert e.header.name name (length files) index,
    length-append files (e ∷ []),
    x.bounded name i,
  );
  last = λ name. elim (Option-cases (lookup name index)) [
    | inl f ↦
        let old = x.last name in
        ground (
          arith,
          lookup-insert e.header.name name (length files) index,
          last_named-append name files e,
          nth-end files e,
        )
    | inr (i, f) ↦
        let old = x.last name in
        let kept = nth-append i files e (x.bounded name i f) in
        ground (
          arith,
          lookup-insert e.header.name name (length files) index,
          last_named-append name files e,
          nth-end files e,
        )
  ];
}

index_loop-IsIndex :
    (headers : List (Header × ℕ)) (files : List Entry) (index : Map ℕ)
    → IsIndex files index
    → let found = index_loop headers files index in IsIndex found.0 found.1
unfolding index_loop
index_loop-IsIndex [] files index x = x
index_loop-IsIndex ((h, offset) ∷ headers) files index x =
    let e : Entry = record { header = h; offset = offset; dir = dir h.name } in
    index_loop-IsIndex headers (files ++ e ∷ []) (insert h.name (length files) index)
      (IsIndex-append files index e x)

-- What `New` makes.
abbrev made_of : (List Entry → List Entry) → List (Header × ℕ) → TarFs
made_of sort headers =
    let entries = index_loop headers [] [] in
    record { files = entries.0; index = entries.1; dirs = sort_dirs sort (list_dirs entries.0 []) }

new_tar_fs_lem :
    (sort : List Entry → List Entry) (broken : Bool) (headers : List (Header × ℕ)) (fsys : TarFs)
    → new_tar_fs sort broken headers ≡ ok fsys
    → made_of sort headers ≡ fsys
unfolding new_tar_fs
new_tar_fs_lem sort true headers fsys e = absurd (cc e)
new_tar_fs_lem sort false headers fsys e = cc e

-- What `New` makes of a header and the offset behind it.
abbrev pub entry_of : Header × ℕ → Entry
entry_of (h, offset) = record { header = h; offset = offset; dir = dir h.name }

unfoldable pub entries_of : List (Header × ℕ) → List Entry
entries_of [] = []
entries_of (h ∷ headers) = entry_of h ∷ entries_of headers

-- The entry of the last header of an archive with a name.
unfoldable pub last_entry : Bytes → List (Header × ℕ) → Option Entry
last_entry name [] = none
last_entry name ((h, offset) ∷ headers) = elim (last_entry name headers) [
  | some e ↦ some e
  | none ↦ if str_eq h.name name then some (entry_of (h, offset)) else none
]

last_named-entries_of :
    (name : Bytes) (headers : List (Header × ℕ))
    → last_named name (entries_of headers) ≡ last_entry name headers
unfolding last_named entries_of last_entry
last_named-entries_of name [] = refl
last_named-entries_of name ((h, offset) ∷ headers) = rw (last_named-entries_of name headers) refl

-- Every header becomes an entry.
index_loop-files :
    (headers : List (Header × ℕ)) (files : List Entry) (index : Map ℕ)
    → (index_loop headers files index).0 ≡ files ++ entries_of headers
unfolding index_loop entries_of
index_loop-files [] files index = sym (append-nil files)
index_loop-files ((h, offset) ∷ headers) files index =
    let e = entry_of (h, offset) in
    index_loop-files headers (files ++ e ∷ []) (insert h.name (length files) index)
    ∙ append_assoc files (e ∷ []) (entries_of headers)

-- In the file system that `New` makes, a name stands for the last header of the archive with it:
-- the entry has that header, the offset behind it, and the directory of its name.
pub indexed-new_tar_fs :
    (sort : List Entry → List Entry) (broken : Bool) (headers : List (Header × ℕ)) (fsys : TarFs)
    (name : Bytes)
    → new_tar_fs sort broken headers ≡ ok fsys
    → indexed fsys.files fsys.index name ≡ last_entry name headers
unfolding indexed lookup last_named
indexed-new_tar_fs sort broken headers fsys name e =
    let empty : IsIndex [] [] = record { bounded = λ n i f. absurd (cc f); last = λ n. refl } in
    rw (← new_tar_fs_lem sort broken headers fsys e) (
      (index_loop-IsIndex headers [] [] empty).last name
      ∙ ap (last_named name) (index_loop-files headers [] [])
      ∙ last_named-entries_of name headers)

list_dirs_lem :
    (files : List Entry) (dirs : Map (List Entry)) (name : Bytes)
    → or_nil (lookup name (list_dirs files dirs))
      ≡ or_nil (lookup name dirs) ++ keep (λ e. str_eq e.dir name) files
unfolding list_dirs
list_dirs_lem [] dirs name = sym (append-nil (or_nil (lookup name dirs)))
list_dirs_lem (e ∷ files) dirs name =
    let here = or_nil (lookup name dirs) in
    let rest = keep (λ e'. str_eq e'.dir name) files in
    list_dirs_lem files (append_at e.dir e dirs) name ∙ elim (Bool-cases (str_eq e.dir name)) [
      | inl f ↦
          let same : e.dir ≡ name = ground (arith, str_eq_iff e.dir name) in
          let old : or_nil (lookup e.dir dirs) ≡ here = ground (arith, same) in
          rw (lookup-insert e.dir name (or_nil (lookup e.dir dirs) ++ e ∷ []) dirs)
            (rw f (rw old (append_assoc here (e ∷ []) rest)))
      | inr f ↦
          rw (lookup-insert e.dir name (or_nil (lookup e.dir dirs) ++ e ∷ []) dirs) (rw f refl)
    ]

sort_dirs_lem :
    (sort : List Entry → List Entry) (dirs : Map (List Entry)) (name : Bytes)
    → sort [] ≡ []
    → or_nil (lookup name (sort_dirs sort dirs)) ≡ sort (or_nil (lookup name dirs))
unfolding lookup
sort_dirs_lem sort [] name h = sym h
sort_dirs_lem sort ((k, entries) ∷ dirs) name h = ground (arith, sort_dirs_lem sort dirs name h)

-- `ReadDir` lists, sorted, just the entries of the archive whose directory has that name.
pub read_dir-new_tar_fs :
    (sort : List Entry → List Entry) (broken : Bool) (headers : List (Header × ℕ)) (fsys : TarFs)
    (name : Bytes)
    → sort [] ≡ []
    → new_tar_fs sort broken headers ≡ ok fsys
    → read_dir fsys name ≡ sort (keep (λ e. str_eq e.dir name) (entries_of headers))
unfolding read_dir lookup
read_dir-new_tar_fs sort broken headers fsys name h e =
    let files = (index_loop headers [] []).0 in
    rw (← new_tar_fs_lem sort broken headers fsys e) (
      or_nil_lem (lookup name (sort_dirs sort (list_dirs files [])))
      ∙ sort_dirs_lem sort (list_dirs files []) name h
      ∙ rw (list_dirs_lem files [] name) (rw (index_loop-files headers [] []) refl))
  where
    or_nil_lem :
        (o : Option (List Entry)) → (elim o [ none ↦ [] | some entries ↦ entries ]) ≡ or_nil o
    or_nil_lem none = refl
    or_nil_lem (some entries) = refl
