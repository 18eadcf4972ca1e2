-- ===== src/Icache/Store.antt =====
-- What is seen of the module's inodes: which are live, the lower inode of each, and the references to
-- lower inodes that the module has taken and put.
use trfs_stackable_filesyste.Common.{ℕ, ◌+◌, ◌≢◌, List, [], ◌∷◌, ◌==◌, if◌then◌else◌}
use trfs_stackable_filesyste.Kernel.{
  Inode, Effect, set_lower_inode, clear_lower_inode, clear_info, hold_inode,
}

-- The live inodes with their lower inodes, the latest first; 0 is NULL.
pub record Store : Type 0 where
  pub objects : List (ℕ × ℕ)
  pub taken : ℕ → ℕ
  pub put : ℕ → ℕ

abbrev pub count_up : ℕ → (ℕ → ℕ) → ℕ → ℕ
count_up l f m = if l == m then f m + 1 else f m

-- The field `lower_inode` of an inode.
abbrev pub lower_of : ℕ → List (ℕ × ℕ) → ℕ
lower_of i [] = 0
lower_of i ((j, l) ∷ os) = let rest = lower_of i os in if i == j then l else rest

abbrev pub assign : ℕ → ℕ → List (ℕ × ℕ) → List (ℕ × ℕ)
assign i l [] = []
assign i l ((j, m) ∷ os) = let rest = assign i l os in if i == j then (j, l) ∷ os else (j, m) ∷ rest

abbrev pub remove : ℕ → List (ℕ × ℕ) → List (ℕ × ℕ)
remove i [] = []
remove i ((j, m) ∷ os) = let rest = remove i os in if i == j then os else (j, m) ∷ rest

-- `i` is not live.
abbrev pub IsNew : ℕ → List (ℕ × ℕ) → Type 0
IsNew i [] = Unit
IsNew i ((j, m) ∷ os) = (i ≢ j) × IsNew i os

-- `i` is live.
pub data IsLive (i : ℕ) : List (ℕ × ℕ) → Type 0 where
  here : (l : ℕ) (os : List (ℕ × ℕ)) → IsLive i ((i, l) ∷ os)
  there : (o : ℕ × ℕ) (os : List (ℕ × ℕ)) → IsLive i os → IsLive i (o ∷ os)

-- How many live inodes stand over `l`.
abbrev pub over : ℕ → List (ℕ × ℕ) → ℕ
over l [] = 0
over l ((j, m) ∷ os) = let rest = over l os in if l == m then rest + 1 else rest

-- How often `l` is in a list.
abbrev pub occurrences : ℕ → List ℕ → ℕ
occurrences l [] = 0
occurrences l (m ∷ ms) = let rest = occurrences l ms in if l == m then rest + 1 else rest

abbrev pub take_one : ℕ → Store → Store
take_one l s = record s { taken = λ m. count_up l s.taken m }

-- `iput` of NULL does nothing.
abbrev pub put_one : ℕ → Store → Store
put_one l s = record s { put = λ m. if l == 0 then s.put m else count_up l s.put m }

abbrev pub add : ℕ → ℕ → Store → Store
add i l s = record s { objects = (i, l) ∷ s.objects }

abbrev pub set_lower : ℕ → ℕ → Store → Store
set_lower i l s = record s { objects = assign i l s.objects }

-- What an effect does to them, but for `iput`; `number` says which inode a name means.
abbrev pub after_effect : (Inode → ℕ) → Effect → Store → Store
after_effect number (set_lower_inode u l) s = set_lower (number u) (number l) s
after_effect number (clear_lower_inode u) s = set_lower (number u) 0 s
after_effect number (clear_info u) s = set_lower (number u) 0 s
after_effect number (hold_inode i) s = take_one (number i) s
after_effect number _ s = s
