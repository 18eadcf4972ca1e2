-- ===== src/Examples/Others.antt =====
-- The theorems about the requests that are not traced, at concrete data.
use trfs_stackable_filesyste.Common.{
  ℕ, ◌≡◌, ◌≢◌, ◌⊎◌, refl, arith, true, false, List, [], pos, negsuc, ◌==◌,
}
use trfs_stackable_filesyste.Kernel.{ErrPtr, State, Outcome, ok, oops}
use trfs_stackable_filesyste.File.Lower.{trfs_mmap, trfs_fault, trfs_page_mkwrite, trfs_file_llseek}
use trfs_stackable_filesyste.File.Lower.Laws.{trfs_file_llseek_big, trfs_fault-trfs_mmap}
use trfs_stackable_filesyste.Tracing.{Finds}
use trfs_stackable_filesyste.Lookup.Dentries.{trfs_d_release}
use trfs_stackable_filesyste.Lookup.Names.{trfs_lookup}
use trfs_stackable_filesyste.Lookup.Balance.{IsLookedUp, trfs_d_release-trfs_lookup}
use trfs_stackable_filesyste.Session.Others.{Other, read_iter, Reply, serve_other}
use trfs_stackable_filesyste.Session.Others.Passed.{live_with, IsPassed}
use trfs_stackable_filesyste.Session.Others.Total.{serve_other_passes}
use trfs_stackable_filesyste.Examples.Toy.{toy, toy_tracing, mounted}

-- A vectored read of the file 3.
abbrev reading : Other
reading = read_iter 3 9

abbrev state_of : {A : Type 0} → Outcome (A × State (List ℕ)) → State (List ℕ)
state_of oops = mounted
state_of (ok (e, s)) = s

serve_other_passes_example :
    (e : Reply) × (s' : State (List ℕ)) × (serve_other toy reading mounted ≡ ok (e, s'))
    × IsPassed toy_tracing (live_with e mounted.live) mounted s'
serve_other_passes_example =
    serve_other_passes toy toy_tracing reading mounted
      (record { lower_file = 6; lower_vm_ops = 0 }, refl, (λ e. ground arith))

-- The dentry 3 has no private data yet, its parent has.
abbrev newly : State (List ℕ)
newly = record mounted { d_fsdata = λ d. d == 1; infos = 1 }

abbrev pub toy_finds : Finds toy
toy_finds = record {
  vfs_path_lookup_ne = λ p q d w h. ground arith;
  d_lookup_ne = λ p d c w h. ground arith;
  d_alloc_ne = λ p d c w h. ground arith;
  kern_path_ne = λ name w p h. ground arith;
  d_make_root_ne = λ i d w h. ground arith;
  kern_path_error = λ name w e h. ground arith;
}

trfs_d_release-trfs_lookup_example :
    (r : ErrPtr) × (s' : State (List ℕ)) × (trfs_lookup toy 3 newly ≡ ok (r, s'))
    × IsLookedUp 3 newly s'
    × ((s'.d_fsdata 3 ≡ false)
        ⊎ ((v : State (List ℕ)) × (trfs_d_release 3 s' ≡ ok (tt, v))
            × (v.refs ≡ 0)
            × (v.infos ≡ 1)
            × (v.d_fsdata 3 ≡ false)))
trfs_d_release-trfs_lookup_example =
    trfs_d_release-trfs_lookup toy toy_finds 3 newly (λ e. ground arith) refl refl

-- A seek to 3 GB.
trfs_file_llseek_big_example :
    trfs_file_llseek toy 3 (pos 3221225472) 0 mounted
    ≡ ok (negsuc 1073741823, record mounted { world = [] })
trfs_file_llseek_big_example =
    trfs_file_llseek_big toy 3 (pos 3221225472) 0 3221225472 mounted [] refl (omega arith)
      (omega arith)

abbrev mapped : State (List ℕ)
unfolding trfs_mmap
mapped = state_of (trfs_mmap toy 3 20 true mounted)

mapping : trfs_mmap toy 3 20 true mounted ≡ ok (pos 0, mapped)
unfolding trfs_mmap
mapping = refl

trfs_fault-trfs_mmap_example :
    (trfs_fault toy 3 (record mapped { world = [] }) ≢ oops)
    × (trfs_page_mkwrite toy 3 (record mapped { world = [] }) ≢ oops)
trfs_fault-trfs_mmap_example =
    trfs_fault-trfs_mmap toy 3 20 true mounted mapped [] (λ u. λ e. ground arith) (λ ops u. refl)
      mapping
