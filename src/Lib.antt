-- ===== src/Lib.antt =====
-- Models of go-apk, a library that resolves, fetches and installs Alpine packages.
--
-- Parts, and the files that model them:
-- - Version, Version/Parse (pkg/apk/version.go): `ParseVersion` with the regular expression that it
--   matches, `CompareVersions`, `includesVersion` and `satisfies`. Version/Order and Version/Includes
--   hold the proofs.
-- - Constraint (pkg/apk/version.go): `resolvePackageNameVersionPin`, which reads a name with an
--   operator, a version and a pin. Everything below reads the texts of constraints with it.
-- - Resolver/Package, Resolver/Index (pkg/apk/package.go, pkg/apk/repository.go, pkg/apk/repo.go): the
--   packages and `NewPkgResolver`, which lists them under their names and what they provide.
-- - Resolver/Cache (pkg/apk/repo.go): the caches of `PkgResolver`; the other
--   models call `ParseVersion` and `resolvePackageNameVersionPin` themselves.
-- - Resolver/Filter (pkg/apk/version.go): `filterPackages`.
-- - Resolver/Compare (pkg/apk/repo.go): `comparePackages`, `sortPackages`, `bestPackage`.
-- - Resolver/Disqualify (pkg/apk/repo.go): `conflictingVersion`, `disqualifyProviders`,
--   `disqualifyConflicts` and `constrain`, which fill the set of disqualified packages.
-- - Resolver/Solve (pkg/apk/repo.go, pkg/apk/util.go): `ResolvePackage`, `resolvePackage`,
--   `nextPackage`; Solve/Dependencies has `getPackageDependencies`, Solve/World
--   `GetPackageWithDependencies` and `GetPackagesWithDependencies`. Maps that Go functions share and
--   change are threaded through as states.
-- - Database (pkg/apk/package.go): the record of a package and `PackageToInstalled`;
--   Database/Index (pkg/apk/apkindex.go): `ParsePackageIndex`; Database/Installed
--   (pkg/apk/installed.go, pkg/apk/common.go): `ParseInstalled`. The two packages' records are apart:
--   Resolver/Package has only the fields that the resolver reads, with the pointer's identity.
-- - World (pkg/apk/world.go): `GetWorld` and `SetWorld`, on the contents of the file.
-- - Passwd (pkg/passwd/passwd.go, pkg/passwd/group.go): the files of users and groups.
-- - MemFs (pkg/fs/memfs.go): the file system in memory. A node's number stands for its pointer, and
--   all nodes are the state that the operations pass on. MemFs/Lookup has `getNode`, `Stat` and
--   `Lstat`, MemFs/Entries what changes the entries of directories, MemFs/Attributes modes, owners,
--   attributes and `ReadDir`, MemFs/Files the opening of files and `memFile`. MemFs/Reach has the
--   sequences of operations, and Valid, Resolution, Growth, Directories, Opening, Contents and Laws
--   the proofs.
-- - Install (pkg/apk/install.go): Install/Files has `writeOneFile`, `checksumFromHeader` and
--   `installRegularFile`, Install/Entries `installAPKFiles` and `lazilyInstallAPKFiles`. The file
--   system of `APK` is that of MemFs. Conflicts, Steps, Taken, Owners and
--   Contents have the proofs.
-- - DirFs (pkg/fs/rwosfs.go): `caseSensitiveOnDisk`, `createOnDisk` and `removeOnDisk`, which keep the
--   variants of names on a disk that does not tell cases apart, and `sanitizePath`. DirFs/Store has the
--   state of `dirFS`, a disk with a MemFs beside it, and DirFs/Operations its operations; Laws and
--   Foreign have the proofs.
-- - Installer (pkg/apk/installed.go, pkg/apk/implementation.go): Installer/Sorting has
--   `sortTarHeaders`, Installer/Records `AddInstalledPackage`, `GetInstalled` and
--   `isInstalledPackage`, Installer/Control the readers of .PKGINFO (pkg/apk/util.go), the triggers
--   and the archive of scripts, Installer/Keys `fetchAlpineKeys` with pkg/apk/releases.go,
--   Installer/InitDb `InitDB` and `ListInitFiles`, and Installer/Packages `installPackage`,
--   `InstallPackages` and the check of conflicts in `FixateWorld`. A package is installed with Install,
--   recorded with Records, and read back with Database/Installed. Shorter, Trees, Placed,
--   Complete, Found, Listing and Reached have the proofs on the order of headers, Perms, Listed,
--   Recorded and Append those on the database, Growing, Grows and InitLaws those on `InitDB`, and
--   Exclusive those on packages. A number stands for a package's pointer: `fresh` is above those of all
--   packages that own files, and each package that `InstallPackages` reads takes the next.
-- - Retrieval (pkg/apk/index.go): `shouldCheckSignatureForIndex`, the check of signatures in
--   `getRepositoryIndex`, and `GetRepositoryIndexes`.
-- - TarFs (internal/tarfs/tarfs.go): `New`, which indexes the entries of an archive, and `Open`,
--   `Readlink`, `Stat` and `ReadDir` on that index. Sorting by name is an argument of `new_tar_fs`.
--   TarFs/Laws and TarFs/Links have the proofs.
-- - Base: strings as lists of bytes, decimal numbers, base64, paths, the line scanner, maps.
--
-- Conventions. Strings are lists of bytes; the tests of spaces and digits, and the
-- change to lower case, are those of ASCII text.
-- Numbers are unbounded, with the bounds of `strconv` and the wrap-around of conversions written out.
-- A Go map is an association list; where Go iterates over one, the order is a parameter. Errors are
-- values; the texts of messages are left out, but the reasons for which a package is disqualified
-- are kept as data. A panic is a result of its own.
--
-- Parameters. `Slices` (Resolver/Compare) stands for golang.org/x/exp/slices, which is not in the
-- repository: `MinLaws` (Resolver/Compare/Preorder) and `LoopLaws`
-- (Resolver/Solve/Dependencies/Termination) state what is documented of it, and Resolver/Tests/Library
-- has functions that fulfil these. `visits` (Resolver/Solve/World) is the sequence of keys that Go
-- visits in a map to which the loop itself adds. `Unix` (MemFs/Entries) has the device numbers of
-- golang.org/x/sys/unix. `Library` (Install) has crypto/sha1, what comes back from a temporary file,
-- and the order in which Go visits a map; a `Reader` is the sequence of what its calls of `Read` give.
-- `Library` (Retrieval) has the network, archives and the signature package. `Os` (DirFs/Store) is
-- package os on a disk. `Network` (Installer/Keys) has the releases and what addresses give, `TarWriter`
-- (Installer/Control) what archive/tar writes, and `Archive` and `Expanded` what was read of a package's
-- archives. `InstallPackages` expands packages in goroutines while one installs them in order: its
-- model has the order, and a package that this one never sees expanded is `none`.
--
-- Fuel. `package_dependencies` has the depth of its recursion as fuel, and more than the number of
-- names that are listed is enough. The loop over the constraints has their number, and so has
-- `choose_loop`: each round deletes at least the constraint that it is about. In MemFs, `links` counts
-- the symbolic links that may still be followed, down from `maxLinks`, and `hops` does so in TarFs, down
-- from `maxHops`. `read_file` has the number of calls of `Read`, for which more than the length of the
-- file is enough; `rounds_for` in Install/Files is that. `sort_tar_headers` has the depth of its
-- recursion: more than the length of every path is enough, unless a header is of the working directory
-- itself, with which `sortTarHeaders` does not end.
--
-- Not modelled: contexts and tracing; times, locks and the capacity of a file's data in MemFs, so that
-- a write behind the end always panics; what `DirFS` reads of a directory that is there, and
-- pkg/fs/apkfs.go; the writing of archives, signing, `globalIndexCache`, caches of files, the network,
-- and of pkg/apk/implementation.go the keyring, `CalculateWorld` and the cache of packages. Where
-- GetWorld and the files of users are modelled, they are functions of the contents of a file. Packages
-- are installed into MemFs, with no lazy installation in Installer/Packages.
pub mod Base
pub mod Version
pub mod Constraint
pub mod Passwd
pub mod World
pub mod Database
pub mod MemFs
pub mod Install
pub mod TarFs
pub mod DirFs
pub mod Retrieval
pub mod Resolver
pub mod Installer
