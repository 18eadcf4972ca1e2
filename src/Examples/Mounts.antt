-- ===== src/Examples/Mounts.antt =====
-- The theorems about mounting at concrete data.
use trfs_stackable_filesyste.Common.{◌≡◌, refl, arith, true, some, List, [], ◌∷◌, ℕ}
use trfs_stackable_filesyste.Mount.{reads_beyond, trfs_mount}
use trfs_stackable_filesyste.Mount.Laws.{IsKey, trfs_mount-IsKey}

-- "tf"
abbrev key : List ℕ
key = 116 ∷ 102 ∷ []

key-IsKey : IsKey key
key-IsKey = ((λ e. ground arith), ((λ e. ground arith), tt))

trfs_mount-IsKey_example : trfs_mount (λ i n. true) (some key) (some (47 ∷ 100 ∷ [])) ≡ reads_beyond
trfs_mount-IsKey_example = trfs_mount-IsKey (λ i n. true) key (47 ∷ 100 ∷ []) refl key-IsKey
