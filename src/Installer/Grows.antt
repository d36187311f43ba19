-- ===== src/Installer/Grows.antt =====
-- pkg/apk/implementation.go: what `InitDB` does to the file system.
use Prim.Native.Nat.{◌+◌, ◌%◌}
use go_apk.Base.{
  ℕ, Bool, true, false, List, [], ◌∷◌, ◌++◌, ◌==◌, ◌≡◌, refl, inl, inr, Bool-cases, Option-cases,
  if◌then◌else◌, is_nil,
}
use go_apk.Base.Bytes.{Bytes, codes}
use go_apk.Base.Paths.{base, join_path}
use go_apk.MemFs.{permissions, Node, MemFs, Error, not_exist, exist, Result, ok, err}
use go_apk.MemFs.Lookup.{stat}
use go_apk.MemFs.Entries.{mkdir, Unix, mknod}
use go_apk.MemFs.Files.{MemFile, open_file, write, write_file}
use go_apk.MemFs.Contents.{writing}
use go_apk.MemFs.Reach.{by_mknod, by_open_file, by_write, Growths, here}
use go_apk.Install.{Failure, no_keys_found, Outcome, done, failed, lift}
use go_apk.Install.Files.{creating, write_chunks}
use go_apk.Installer.Keys.{Network, key_urls, save_key, save_keys, fetch_alpine_keys, copied}
use go_apk.Installer.InitDb.{
  Directory, File, DeviceFile, base_directories, init_directories, init_files, init_device_files,
  scripts_path, arch_file, failed_create, Init, finished, stopped, unless_failed, check_base,
  settle_base, init_base, check_dir, settle_dir, init_dir, init_file, s_ifchr, ignoring,
  init_device, each, init_entries, as_init, init_keys, init_scripts, init_db,
}
use go_apk.Installer.Growing.{
  then-Growths, one, finish-Growths, chain-Growths, bind-Growths, lift-Growths, unless-Growths,
  each-Growths, mkdir-Growths,
}

-- A step that only looks.
same-Growths : (fs : MemFs) (m : MemFs × Init) → m.0 ≡ fs → Growths fs m.0
same-Growths fs m e = rw e here

check_base-same : (d : Directory) (n : Node) (fs : MemFs) → (check_base d n fs).0 ≡ fs
check_base-same d n fs = elim (Bool-cases n.dir) [
  | inr e ↦ rw e refl
  | inl e ↦ elim (Bool-cases (n.mode.bits % 512 == d.perms)) [
    | inl f ↦ rw (e, f) refl
    | inr f ↦ rw (e, f) refl
  ]
]

settle_base-Growths :
    (d : Directory) (r : Result Node) (fs : MemFs) → Growths fs (settle_base d r fs).0
settle_base-Growths d (ok n) fs = same-Growths fs (check_base d n fs) (check_base-same d n fs)
settle_base-Growths d (err e) fs = go e
  where
    go : (e : Error) → Growths fs (settle_base d (err e) fs).0
    go not_exist =
        unless-Growths fs (failed_create d.path) (mkdir d.path (permissions d.perms) fs)
          (mkdir-Growths d.path d.perms fs)
    go e = here

check_dir-same : (path : Bytes) (r : Result Node) (fs : MemFs) → (check_dir path r fs).0 ≡ fs
check_dir-same path (err e) fs = refl
check_dir-same path (ok n) fs = elim (Bool-cases n.dir) [ inl f ↦ rw f refl | inr f ↦ rw f refl ]

settle_dir-Growths :
    (path : Bytes) (fs : MemFs) (m : MemFs × Result (Unit {0}))
    → Growths fs m.0
    → Growths fs (settle_dir path m).0
settle_dir-Growths path fs (s, ok u) g = g
settle_dir-Growths path fs (s, err e) g = go e
  where
    go : (e : Error) → Growths fs (settle_dir path (s, err e)).0
    go exist = rw (check_dir-same path (stat s path) s) g
    go e = g

write_file-Growths :
    (name b : Bytes) (perms : ℕ) (fs : MemFs)
    → Growths fs (write_file name b (permissions perms) fs).0
unfolding write_file
write_file-Growths name b perms fs =
    bind-Growths fs (open_file name writing (permissions perms) fs) _
      (one (by_open_file name writing (permissions perms) refl))
      λ f s. bind-Growths s (if is_nil b then (s, ok f) else write f b s) _ (put f s) λ f' t. here
  where
    put : (f : MemFile) (s : MemFs) → Growths s (if is_nil b then (s, ok f) else write f b s).0
    put f s = elim (Bool-cases (is_nil b)) [
      | inl e ↦ rw e here
      | inr e ↦ rw e (one (by_write f b refl))
    ]

ignoring-same : (ignore : Bool) (m : MemFs × Init) → (ignoring ignore m).0 ≡ m.0
ignoring-same ignore (fs, finished) = refl
ignoring-same true (fs, stopped e) = refl
ignoring-same false (fs, stopped e) = refl

init_device-Growths :
    (unix : Unix) (ignore : Bool) (d : DeviceFile) (fs : MemFs)
    → Growths fs (init_device unix ignore d fs).0
unfolding init_device
init_device-Growths unix ignore d fs =
    let mode = permissions (s_ifchr + d.perms % 512) in
    let dev = unix.mkdev d.major d.minor in
    let m = mknod unix d.path mode dev fs in
    rw (ignoring-same ignore (unless_failed (failed_create d.path) m))
      (unless-Growths fs (failed_create d.path) m (one (by_mknod unix d.path mode dev refl)))

init_entries-Growths :
    (unix : Unix) (ignore : Bool) (arch : Bytes) (fs : MemFs)
    → Growths fs (init_entries unix ignore arch fs).0
unfolding init_entries
init_entries-Growths unix ignore arch fs =
    finish-Growths fs (each init_base base_directories fs) _
      (each-Growths init_base base_directories base fs)
      λ s.
        finish-Growths s (each init_dir init_directories s) _
          (each-Growths init_dir init_directories dirs s)
          λ t.
            finish-Growths t (each init_file (init_files ++ arch_file arch ∷ []) t) _
              (each-Growths init_file (init_files ++ arch_file arch ∷ []) files t)
              (each-Growths (init_device unix ignore) init_device_files
                (init_device-Growths unix ignore))
  where
    base : (d : Directory) (s : MemFs) → Growths s (init_base d s).0
    base d s = unfold init_base in settle_base-Growths d (stat s d.path) s

    dirs : (d : Directory) (s : MemFs) → Growths s (init_dir d s).0
    dirs d s =
        unfold init_dir in
        settle_dir-Growths d.path s (mkdir d.path (permissions d.perms) s)
          (mkdir-Growths d.path d.perms s)

    files : (f : File) (s : MemFs) → Growths s (init_file f s).0
    files f s =
        unfold init_file in
        unless-Growths s (failed_create f.path)
          (write_file f.path f.contents (permissions f.perms) s)
          (write_file-Growths f.path f.contents f.perms s)

write_chunks-Growths :
    (cs : List Bytes) (f : MemFile) (fs : MemFs) → Growths fs (write_chunks cs f fs).0
unfolding write_chunks
write_chunks-Growths [] f fs = here
write_chunks-Growths (c ∷ cs) f fs = elim (Bool-cases (is_nil c)) [
  | inl e ↦ rw e (write_chunks-Growths cs f fs)
  | inr e ↦ rw e (
      chain-Growths fs (lift (write f c fs)) (write_chunks cs)
        (lift-Growths fs (write f c fs) (one (by_write f c refl)))
        λ f' s. write_chunks-Growths cs f' s)
]

save_key-Growths : (net : Network) (u : Bytes) (fs : MemFs) → Growths fs (save_key net u fs).0
unfolding save_key
save_key-Growths net u fs = elim (Option-cases (net.get u)) [
  | inl e ↦ rw (e, save_key) here
  | inr (body, e) ↦ elim (Option-cases (net.unescape (base u))) [
    | inl f ↦ rw (e, f, save_key) here
    | inr (name, f) ↦
        let path = join_path (codes "etc/apk/keys") name in
        rw (e, f, save_key)
          (chain-Growths fs (lift (open_file path creating (permissions 420) fs)) _
            (lift-Growths fs (open_file path creating (permissions 420) fs)
              (one (by_open_file path creating (permissions 420) refl)))
            λ m s.
              chain-Growths s (write_chunks body.chunks m s) _
                (write_chunks-Growths body.chunks m s) λ m' t. end body.fails t)
  ]
]
  where
    end : (b : Bool) (t : MemFs) → Growths t (copied b t).0
    end true t = here
    end false t = here

save_keys-Growths :
    (net : Network) (us : List Bytes) (fs : MemFs) → Growths fs (save_keys net us fs).0
unfolding save_keys
save_keys-Growths net [] fs = here
save_keys-Growths net (u ∷ us) fs =
    chain-Growths fs (save_key net u fs) (λ d. save_keys net us) (save_key-Growths net u fs)
      λ d s. save_keys-Growths net us s

fetch-Growths :
    (net : Network) (arch : Bytes) (versions : List Bytes) (fs : MemFs)
    → Growths fs (fetch_alpine_keys net arch versions fs).0
unfolding fetch_alpine_keys
fetch-Growths net arch versions fs = elim (Option-cases net.releases) [
  | inl e ↦ rw (e, fetch_alpine_keys) here
  | inr (releases, e) ↦
      let urls = key_urls releases arch net.now versions in
      elim (Bool-cases (is_nil urls)) [
        | inl f ↦ rw (e, f, fetch_alpine_keys) here
        | inr f ↦ rw (e, f, fetch_alpine_keys) (save_keys-Growths net urls fs)
      ]
]

as_init-same : (m : MemFs × Outcome (Unit {0})) → (as_init m).0 ≡ m.0
as_init-same (fs, done u) = refl
as_init-same (fs, failed e) = go e
  where
    go : (e : Failure) → (as_init (fs, failed e)).0 ≡ fs
    go no_keys_found = refl
    go e = refl

init_scripts-Growths :
    (net : Network) (footer arch : Bytes) (versions : List Bytes) (fs : MemFs)
    (m : MemFs × Result MemFile)
    → Growths fs m.0
    → Growths fs (init_scripts net footer arch versions m).0
init_scripts-Growths net footer arch versions fs (s, err e) g = g
init_scripts-Growths net footer arch versions fs (s, ok f) g =
    then-Growths (then-Growths g keys) (one (by_write f footer refl))
  where
    keys : Growths s (init_keys net arch versions s).0
    keys = elim (Bool-cases (is_nil versions)) [
      | inl e ↦ rw e here
      | inr e ↦ rw e (
          rw (as_init-same (fetch_alpine_keys net arch versions s))
            (fetch-Growths net arch versions s))
    ]

-- `InitDB` is a sequence of operations that take nothing away, also where it fails.
pub init_db-Growths :
    (unix : Unix) (net : Network) (ignore : Bool) (footer arch : Bytes) (versions : List Bytes)
    (fs : MemFs)
    → Growths fs (init_db unix net ignore footer arch versions fs).0
unfolding init_db
init_db-Growths unix net ignore footer arch versions fs =
    finish-Growths fs (init_entries unix ignore arch fs) _
      (init_entries-Growths unix ignore arch fs)
      λ s.
        init_scripts-Growths net footer arch versions s
          (open_file scripts_path creating (permissions 420) s)
          (one (by_open_file scripts_path creating (permissions 420) refl))
