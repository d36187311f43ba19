-- ===== src/Installer/Keys.antt =====
-- pkg/apk/implementation.go: `fetchAlpineKeys`; pkg/apk/releases.go: `GetReleaseBranch`, `KeysFor`.
use Prim.Native.Nat.{zero, suc}
use go_apk.Base.{ℕ, Bool, true, List, [], ◌∷◌, ◌++◌, Option, none, some, ltb, if◌then◌else◌, is_nil}
use go_apk.Base.Bytes.{Bytes, codes, str_eq, has_prefix}
use go_apk.Base.Maps.{Map, lookup, or_nil}
use go_apk.Base.Paths.{base, join_path}
use go_apk.MemFs.{MemFs, permissions}
use go_apk.MemFs.Files.{open_file}
use go_apk.Install.{Reader, unreadable, no_keys_found, done, failed, Run, chain, ◌>=>◌, lift}
use go_apk.Install.Files.{creating, write_chunks}

-- `RepoKeys`: `none` is the zero time, and other times are seconds.
pub record RepoKeys : Type 0 where
  pub url : Bytes
  pub deprecated : Option ℕ

-- `ReleaseBranch`, as far as the keys need it.
pub record ReleaseBranch : Type 0 where
  pub release_branch : Bytes
  pub keys : Map (List RepoKeys)

-- `GetReleaseBranch`.
unfoldable pub get_release_branch : List ReleaseBranch → Bytes → Option ReleaseBranch
get_release_branch [] version = none
get_release_branch (b ∷ bs) version =
    if str_eq b.release_branch version then some b else get_release_branch bs version

-- `strings.ReplaceAll(url, "%20", "@")`: `skip` is how many bytes of a match are left.
unfoldable pub replace_spaces : ℕ → Bytes → Bytes
replace_spaces skip [] = []
replace_spaces (suc skip) (c ∷ s) = replace_spaces skip s
replace_spaces zero (c ∷ s) =
    if has_prefix (c ∷ s) (codes "%20") then b'@' ∷ replace_spaces 2 s else c ∷ replace_spaces 0 s

-- A key that is not deprecated, or only later.
abbrev pub is_current : ℕ → RepoKeys → Bool
is_current now k = elim k.deprecated [ none ↦ true | some d ↦ ltb now d ]

unfoldable pub current_urls : ℕ → List RepoKeys → List Bytes
unfolding replace_spaces
current_urls now [] = []
current_urls now (k ∷ ks) =
    let rest = current_urls now ks in
    if is_current now k then replace_spaces 0 k.url ∷ rest else rest

-- `KeysFor`.
unfoldable pub keys_for : ReleaseBranch → Bytes → ℕ → List Bytes
unfolding current_urls
keys_for b arch now = current_urls now (or_nil (lookup arch b.keys))

-- The network: the list of releases, what an address gives, `url.PathUnescape`, and the time.
pub record Network : Type 0 where
  pub releases : Option (List ReleaseBranch)
  pub get : Bytes → Option Reader
  pub unescape : Bytes → Option Bytes
  pub now : ℕ

unfoldable pub key_urls : List ReleaseBranch → Bytes → ℕ → List Bytes → List Bytes
unfolding keys_for get_release_branch
key_urls releases arch now [] = []
key_urls releases arch now (v ∷ vs) =
    let rest = key_urls releases arch now vs in
    elim (get_release_branch releases v) [ none ↦ rest | some b ↦ keys_for b arch now ++ rest ]

abbrev pub copied : Bool → Run MemFs (Unit {0})
copied fails fs = if fails then (fs, failed unreadable) else (fs, done tt)

-- One key is fetched and written under the last part of its address: the status of the answer is not
-- looked at.
unfoldable pub save_key : Network → Bytes → Run MemFs (Unit {0})
save_key net u fs = elim (net.get u) [
  | none ↦ (fs, failed unreadable)
  | some body ↦ elim (net.unescape (base u)) [
    | none ↦ (fs, failed unreadable)
    | some name ↦
        let path = join_path (codes "etc/apk/keys") name in
        chain (lift (open_file path creating (permissions 420) fs))
          λ f. write_chunks body.chunks f >=> λ f'. copied body.fails
  ]
]

unfoldable pub save_keys : Network → List Bytes → Run MemFs (Unit {0})
unfolding save_key
save_keys net [] fs = (fs, done tt)
save_keys net (u ∷ us) fs = chain (save_key net u fs) λ d. save_keys net us

-- `fetchAlpineKeys`.
unfoldable pub fetch_alpine_keys : Network → Bytes → List Bytes → Run MemFs (Unit {0})
unfolding key_urls save_keys
fetch_alpine_keys net arch versions fs = elim net.releases [
  | none ↦ (fs, failed unreadable)
  | some releases ↦
      let urls = key_urls releases arch net.now versions in
      if is_nil urls then (fs, failed no_keys_found) else save_keys net urls fs
]
