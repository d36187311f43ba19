-- ===== src/Installer/InitLaws.antt =====
-- pkg/apk/implementation.go: `InitDB` on a file system that has entries already.
use Prim.Native.Nat.{◌+◌, ◌%◌}
use go_apk.Base.{Bool, false, List, ◌≡◌, ◌==◌, refl, inl, inr, arith, Bool-cases}
use go_apk.Base.Bytes.{Bytes, codes}
use go_apk.MemFs.{Node, NodeId, MemFs, ok}
use go_apk.MemFs.Lookup.{get_node, stat}
use go_apk.MemFs.Entries.{Unix}
use go_apk.MemFs.Valid.{IsValid}
use go_apk.MemFs.Reach.{Growths-Grown, get_node-Growths}
use go_apk.Installer.Keys.{Network}
use go_apk.Installer.InitDb.{
  mode_sticky, is_no_directory, wrong_permissions, InitError, stopped, init_base, each,
  init_entries, init_db,
}
use go_apk.Installer.Grows.{init_db-Growths}

module _ (unix : Unix) (net : Network) (ignore : Bool) (footer arch : Bytes) (versions : List Bytes)
    (fs : MemFs) where
  -- Whatever `InitDB` returns, the file system that it leaves is valid, and every path that led to a
  -- node before leads to that node after it.
  pub get_node-init_db :
      (path : Bytes) (i : NodeId)
      → IsValid fs
      → get_node fs path ≡ ok i
      → let s = (init_db unix net ignore footer arch versions fs).0 in
        IsValid s × (get_node s path ≡ ok i)
  get_node-init_db path i v e =
      let g = init_db-Growths unix net ignore footer arch versions fs in
      ((Growths-Grown v g).valid, get_node-Growths path i v g e)

  -- Where there is a file or directory /tmp, of whatever mode, `InitDB` fails and changes nothing: the
  -- mode that it asks for has the sticky bit, which the permissions that it compares never have.
  pub init_db-tmp :
      (n : Node)
      → stat fs (codes "/tmp") ≡ ok n
      → (e : InitError) × (init_db unix net ignore footer arch versions fs ≡ (fs, stopped e))
  unfolding init_db init_entries each init_base
  init_db-tmp n e = elim (Bool-cases n.dir) [
    | inr d ↦ (is_no_directory (codes "/tmp"), rw (e, d) refl)
    | inl d ↦
        let wrong : (n.mode.bits % 512 == 511 + mode_sticky) ≡ false = ground arith in
        (wrong_permissions (codes "/tmp"), rw (e, d, wrong) refl)
  ]
