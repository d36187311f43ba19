-- ===== src/Installer/Growing.antt =====
-- pkg/apk/implementation.go: sequences of steps that take nothing away.
use go_apk.Base.{ℕ, List, [], ◌∷◌, refl}
use go_apk.Base.Bytes.{Bytes}
use go_apk.MemFs.{permissions, MemFs, Error, Result, ok, err, and_then}
use go_apk.MemFs.Entries.{mkdir}
use go_apk.MemFs.Reach.{Growth, by_mkdir, Growths, here, next}
use go_apk.Install.{Outcome, done, failed, Run, chain, lift}
use go_apk.Installer.InitDb.{InitError, Init, finished, stopped, and_finish, unless_failed, each}

pub then-Growths : {a b c : MemFs} → Growths a b → Growths b c → Growths a c
then-Growths g here = g
then-Growths g (next h s) = next (then-Growths g h) s

pub one : {a b : MemFs} → Growth a b → Growths a b
one g = next here g

pub finish-Growths :
    (fs : MemFs) (m : MemFs × Init) (f : MemFs → MemFs × Init)
    → Growths fs m.0
    → ((s : MemFs) → Growths s (f s).0)
    → Growths fs (and_finish m f).0
finish-Growths fs (s, finished) f g h = then-Growths g (h s)
finish-Growths fs (s, stopped e) f g h = g

pub chain-Growths :
    {A B : Type 0} (fs : MemFs) (m : MemFs × Outcome A) (f : A → Run MemFs B)
    → Growths fs m.0
    → ((a : A) (s : MemFs) → Growths s (f a s).0)
    → Growths fs (chain m f).0
chain-Growths fs (s, done a) f g h = then-Growths g (h a s)
chain-Growths fs (s, failed e) f g h = g

pub bind-Growths :
    {A B : Type 0} (fs : MemFs) (m : MemFs × Result A) (f : A → MemFs → MemFs × Result B)
    → Growths fs m.0
    → ((a : A) (s : MemFs) → Growths s (f a s).0)
    → Growths fs (and_then m f).0
bind-Growths fs (s, ok a) f g h = then-Growths g (h a s)
bind-Growths fs (s, err e) f g h = g

pub lift-Growths :
    {A : Type 0} (fs : MemFs) (m : MemFs × Result A) → Growths fs m.0 → Growths fs (lift m).0
lift-Growths fs (s, ok a) g = g
lift-Growths fs (s, err e) g = g

pub unless-Growths :
    (fs : MemFs) (f : Error → InitError) (m : MemFs × Result (Unit {0}))
    → Growths fs m.0
    → Growths fs (unless_failed f m).0
unless-Growths fs f (s, ok u) g = g
unless-Growths fs f (s, err e) g = g

pub each-Growths :
    {A : Type 0} (f : A → MemFs → MemFs × Init) (xs : List A)
    → ((x : A) (s : MemFs) → Growths s (f x s).0)
    → (fs : MemFs) → Growths fs (each f xs fs).0
unfolding each
each-Growths f [] h fs = here
each-Growths f (x ∷ xs) h fs = finish-Growths fs (f x fs) (each f xs) (h x fs) (each-Growths f xs h)

pub mkdir-Growths :
    (path : Bytes) (perms : ℕ) (fs : MemFs) → Growths fs (mkdir path (permissions perms) fs).0
mkdir-Growths path perms fs = one (by_mkdir path (permissions perms) refl)
