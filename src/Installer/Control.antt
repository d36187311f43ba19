-- ===== src/Installer/Control.antt =====
-- pkg/apk/util.go and pkg/apk/installed.go: `controlValue`, `updateTriggers`, `updateScriptsTar`;
-- pkg/apk/implementation.go: `datahash`.
use go_apk.Base.{Bool, true, List, [], ◌∷◌, ◌++◌, Option, none, some, leb, if◌then◌else◌, length}
use go_apk.Base.Bytes.{Bytes, codes, str_eq, split}
use go_apk.Base.Decimal.{neg}
use go_apk.Base.Base64.{encode_base64}
use go_apk.Base.Maps.{Map, lookup, or_nil, append_at}
use go_apk.Base.Scanner.{newline, trim_space}
use go_apk.Database.{Package, space}
use go_apk.MemFs.{permissions, MemFs, Node, Result, ok, err}
use go_apk.MemFs.Lookup.{stat}
use go_apk.MemFs.Files.{Flags, read_only, MemFile, open_file, write, seek_end, seek}
use go_apk.Install.{
  Header, file_system, unreadable, Outcome, done, failed, Run, chain, ◌>=>◌, lift, listed,
}
use go_apk.Installer.InitDb.{scripts_path}
use go_apk.Installer.Records.{appending}

-- The entries of an archive with what they contain (`none` is an error), and whether an error follows.
pub record Archive : Type 0 where
  pub entries : List (Header × Option Bytes)
  pub broken : Bool

-- One line, which has a value where there is one sign `=` and the key is wanted.
unfoldable pub add_value : List Bytes → Bytes → Map (List Bytes) → Map (List Bytes)
add_value want line mapping = elim (split line b'=') [
  | [] ↦ mapping
  | k ∷ [] ↦ mapping
  | k ∷ v ∷ [] ↦
      if listed (trim_space k) want
      then append_at (trim_space k) (trim_space v) mapping
      else mapping
  | k ∷ v ∷ x ∷ xs ↦ mapping
]

unfoldable pub add_values : List Bytes → List Bytes → Map (List Bytes) → Map (List Bytes)
unfolding add_value
add_values want [] mapping = mapping
add_values want (l ∷ ls) mapping = add_values want ls (add_value want l mapping)

-- `controlValue` of package files: the first .PKGINFO counts.
unfoldable pub control_mapping :
    Bool → List (Header × Option Bytes) → List Bytes → Option (Map (List Bytes))
unfolding add_values
control_mapping broken [] want = if broken then none else some []
control_mapping broken ((h, contents) ∷ entries) want =
    let rest = control_mapping broken entries want in
    if str_eq h.name (codes ".PKGINFO")
    then elim contents [ none ↦ none | some b ↦ some (add_values want (split b newline) []) ]
    else rest

-- The method `controlValue`: `none` is an archive that is not compressed.
unfoldable pub control_value : Option Archive → Bytes → Option (List Bytes)
unfolding control_mapping
control_value none want = none
control_value (some archive) want =
    elim (control_mapping archive.broken archive.entries (want ∷ [])) [
      | none ↦ none
      | some mapping ↦ some (or_nil (lookup want mapping))
    ]

-- `datahash`.
unfoldable pub datahash : Option Archive → Option Bytes
unfolding control_value
datahash archive = elim (control_value archive (codes "datahash")) [
  | none ↦ none
  | some [] ↦ none
  | some (v ∷ []) ↦ some v
  | some (v ∷ w ∷ vs) ↦ none
]

abbrev pub triggers_path : Bytes
triggers_path = codes "lib/apk/db/triggers"

unfoldable pub write_triggers : Package → List Bytes → MemFile → Run MemFs (Unit {0})
write_triggers pkg [] f fs = (fs, done tt)
write_triggers pkg (v ∷ vs) f fs =
    chain (lift (write f (encode_base64 pkg.checksum ++ space ∷ (v ++ newline ∷ [])) fs))
      (write_triggers pkg vs)

-- `updateTriggers`: the file is opened before the archive is read.
unfoldable pub update_triggers : Package → Option Archive → Run MemFs (Unit {0})
unfolding write_triggers control_value
update_triggers pkg archive =
    (λ fs. lift (open_file triggers_path appending (permissions 0) fs)) >=> λ f fs.
    elim (control_value archive (codes "triggers")) [
      | none ↦ (fs, failed unreadable)
      | some values ↦ write_triggers pkg values f fs
    ]

-- The name of a script in the archive of all scripts.
unfoldable pub script_name : Package → Bytes → Bytes
script_name pkg name =
    pkg.name ++ b'-' ∷ (pkg.version ++ codes ".Q1" ++ encode_base64 pkg.checksum ++ name)

-- What archive/tar writes for a header with contents, which may end in an error, and whether it
-- succeeds; and what it writes at the end.
pub record TarWriter : Type 0 where
  pub encode : Header → Option Bytes → Bytes × Bool
  pub footer : Bytes

abbrev pub reading_writing : Flags
reading_writing = record read_only { read_write = true }

-- A write to an open file, which keeps its offset where it fails.
abbrev pub wrote : MemFile → MemFs × Result MemFile → (MemFs × MemFile) × Outcome (Unit {0})
wrote f (fs, ok f') = ((fs, f'), done tt)
wrote f (fs, err e) = ((fs, f), failed (file_system e))

abbrev pub write_on : Bytes → Run (MemFs × MemFile) (Unit {0})
write_on s (fs, f) = wrote f (write f s fs)

-- The scripts are added one by one.
unfoldable pub write_scripts :
    TarWriter → Package → Bool → List (Header × Option Bytes) → Run (MemFs × MemFile) (Unit {0})
unfolding script_name
write_scripts tw pkg broken [] s = if broken then (s, failed unreadable) else (s, done tt)
write_scripts tw pkg broken ((h, contents) ∷ entries) s =
    let skip = write_scripts tw pkg broken entries s in
    if str_eq h.name (codes ".PKGINFO")
    then skip
    else (let r = tw.encode (record h { name = script_name pkg h.name }) contents in
        chain (write_on r.0 s)
          λ u t. if r.1 then write_scripts tw pkg broken entries t else (t, failed unreadable))

-- Back over the footer that is there: 1024 bytes.
abbrev pub rewind : Node → MemFile → Run MemFs MemFile
rewind n f fs =
    if leb 1024 (length n.contents) then lift (fs, seek fs f (neg 1024) seek_end) else (fs, done f)

-- The footer is written in any case, and errors of that are not looked at.
abbrev pub close_scripts :
    TarWriter → (MemFs × MemFile) × Outcome (Unit {0}) → MemFs × Outcome (Unit {0})
close_scripts tw (s, r) = ((write_on tw.footer s).0.0, r)

-- `updateScriptsTar`; 0 is the mode.
unfoldable pub update_scripts_tar : TarWriter → Package → Option Archive → Run MemFs (Unit {0})
unfolding write_scripts
update_scripts_tar tw pkg none fs = (fs, failed unreadable)
update_scripts_tar tw pkg (some archive) fs = elim (stat fs scripts_path) [
  | err e ↦ (fs, failed (file_system e))
  | ok n ↦ chain (lift (open_file scripts_path reading_writing (permissions 0) fs)) λ f.
      rewind n f >=> λ f' s.
      close_scripts tw (write_scripts tw pkg archive.broken archive.entries (s, f'))
]
