-- ===== src/Icache/Count.antt =====
-- Counting the module's inodes over a lower inode.
use trfs_stackable_filesyste.Common.{
  ℕ, ◌+◌, ◌≡◌, ◌≢◌, ◌≤◌, refl, arith, inl, inr, false, Bool, Bool-cases, List, [], ◌∷◌, ◌==◌,
  if◌then◌else◌,
}
use trfs_stackable_filesyste.Icache.Store.{
  lower_of, assign, remove, IsNew, IsLive, here, there, over,
}
use trfs_stackable_filesyste.Icache.Iget.{NoneOver}

-- The live inodes are different.
abbrev pub AreDistinct : List (ℕ × ℕ) → Type 0
AreDistinct [] = Unit
AreDistinct ((j, m) ∷ os) = IsNew j os × AreDistinct os

-- They stand over inodes of other file systems, or over NULL.
abbrev pub AreForeign : (ℕ → Bool) → List (ℕ × ℕ) → Type 0
AreForeign is_own [] = Unit
AreForeign is_own ((j, m) ∷ os) = (is_own m ≡ false) × AreForeign is_own os

ne-IsLive : (i j : ℕ) (os : List (ℕ × ℕ)) → IsLive i os → IsNew j os → j ≢ i
ne-IsLive i j os (here l os') (n, h) = n
ne-IsLive i j os (there (c, m) os' v) (n, h) = ne-IsLive i j os' v h

pub over-NoneOver : (l : ℕ) (os : List (ℕ × ℕ)) → AreDistinct os → NoneOver l os → over l os ≡ 0
over-NoneOver l [] d n = refl
over-NoneOver l ((j, m) ∷ os) (new, d) n =
    let tail : NoneOver l os =
      λ i v e. n i (there (j, m) os v) (ground (arith, e, ne-IsLive i j os v new)) in
    ground (arith, n j (here m os), over-NoneOver l os d tail)

pub over-remove :
    (l i : ℕ) (os : List (ℕ × ℕ))
    → IsLive i os
    → over l os ≡ over l (remove i os) + (if l == lower_of i os then 1 else 0)
over-remove l i os (here m os') = ground arith
over-remove l i os (there (j, m) os' v) = ground (arith, over-remove l i os' v)

pub remove-assign : (i l : ℕ) (os : List (ℕ × ℕ)) → remove i (assign i l os) ≡ remove i os
remove-assign i l [] = refl
remove-assign i l ((j, m) ∷ os) = ground (arith, remove-assign i l os)

IsNew-remove : (i j : ℕ) (os : List (ℕ × ℕ)) → IsNew j os → IsNew j (remove i os)
IsNew-remove i j [] h = tt
IsNew-remove i j ((c, m) ∷ os) (n, h) = elim (Bool-cases (i == c)) [
  | inl e ↦ rw e h
  | inr e ↦ rw e (n, IsNew-remove i j os h)
]

pub AreDistinct-remove : (i : ℕ) (os : List (ℕ × ℕ)) → AreDistinct os → AreDistinct (remove i os)
AreDistinct-remove i [] h = tt
AreDistinct-remove i ((c, m) ∷ os) (n, h) = elim (Bool-cases (i == c)) [
  | inl e ↦ rw e h
  | inr e ↦ rw e (IsNew-remove i c os n, AreDistinct-remove i os h)
]

pub AreForeign-remove :
    (f : ℕ → Bool) (i : ℕ) (os : List (ℕ × ℕ)) → AreForeign f os → AreForeign f (remove i os)
AreForeign-remove f i [] h = tt
AreForeign-remove f i ((c, m) ∷ os) (n, h) = elim (Bool-cases (i == c)) [
  | inl e ↦ rw e h
  | inr e ↦ rw e (n, AreForeign-remove f i os h)
]

pub lower_of_foreign :
    (f : ℕ → Bool) (i : ℕ) (os : List (ℕ × ℕ))
    → f 0 ≡ false
    → AreForeign f os
    → f (lower_of i os) ≡ false
lower_of_foreign f i [] z h = z
lower_of_foreign f i ((c, m) ∷ os) z (n, h) = elim (Bool-cases (i == c)) [
  | inl e ↦ rw e n
  | inr e ↦ rw e (lower_of_foreign f i os z h)
]

over_live : (l i : ℕ) (os : List (ℕ × ℕ)) → IsLive i os → lower_of i os ≡ l → 1 ≤ over l os
over_live l i os v e = ground (arith, over-remove l i os v, e)

-- Behind another inode.
lower_of_tail :
    (l i c m : ℕ) (os : List (ℕ × ℕ))
    → IsNew c os
    → IsLive i os
    → lower_of i ((c, m) ∷ os) ≡ l
    → lower_of i os ≡ l
lower_of_tail l i c m os new v e = ground (arith, e, ne-IsLive i c os v new)

-- Two live inodes over the same are the same.
pub single_live :
    (l i j : ℕ) (os : List (ℕ × ℕ))
    → IsLive i os
    → IsLive j os
    → AreDistinct os
    → over l os ≤ 1
    → lower_of i os ≡ l
    → lower_of j os ≡ l
    → i ≡ j
single_live l i j _ (here m os) (here n os') d h p q = refl
single_live l i j _ (here m os) (there o os' v) (new, d) h p q =
    absurd (ground (arith, h, p, over_live l j os v (lower_of_tail l j i m os new v q)))
single_live l i j _ (there o os v) (here m os') (new, d) h p q =
    absurd (ground (arith, h, q, over_live l i os v (lower_of_tail l i j m os new v p)))
single_live l i j _ (there (c, m) os v) (there o os' w) (new, d) h p q =
    single_live l i j os v w d (ground (arith, h)) (lower_of_tail l i c m os new v p)
      (lower_of_tail l j c m os new w q)
