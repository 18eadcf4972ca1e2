-- ===== src/Session/Switched.antt =====
-- From hw2/trctl.c to the log of fs/trfs: what becomes of a call that trctl switches on or off.
use trfs_stackable_filesyste.Common.{ℕ, List, [], ◌∷◌, ℤ}
use trfs_stackable_filesyste.Kernel.{File, Kernel, State}
use trfs_stackable_filesyste.Tracing.{Tracing}
use trfs_stackable_filesyste.Ctl.{names, ctl_main}
use trfs_stackable_filesyste.Ctl.Bits.{name_of}
use trfs_stackable_filesyste.Ctl.Module.{Variable, Opened, module_posix}
use trfs_stackable_filesyste.Session.{Request, call_number}
use trfs_stackable_filesyste.Session.Logged.{Logged}

module _ {W : Type 0} (k : Kernel W) (f : File) (v : Variable k)
    (open_mount : Opened W f → ℤ × Opened W f) (close : ℤ → Opened W f → Opened W f)
    (strtol : List ℕ → ℤ) where
  -- The state that trctl leaves when it is run with the call's name behind `sign`.
  abbrev pub after_trctl : ℕ → Request → List ℕ → ℕ → Opened W f → State W
  after_trctl sign r mount old s =
      (ctl_main (module_posix k f v open_mount close strtol)
        ((sign ∷ name_of (call_number r) names) ∷ mount ∷ []) old s).1.0
