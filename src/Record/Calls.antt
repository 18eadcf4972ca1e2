-- ===== src/Record/Calls.antt =====
-- A property of every record type, from the twelve calls and the rest.
use trfs_stackable_filesyste.Common.{ℕ, zero, suc, ◌<◌, arith}
use trfs_stackable_filesyste.Record.{
  open_call, read_call, write_call, release_call, create_call, link_call, unlink_call, symlink_call,
  mkdir_call, rmdir_call, mknod_call, rename_call,
}

pub by_call {ℓ} :
    (P : ℕ → Type ℓ)
    → P open_call
    → P read_call
    → P write_call
    → P release_call
    → P create_call
    → P link_call
    → P unlink_call
    → P symlink_call
    → P mkdir_call
    → P rmdir_call
    → P mknod_call
    → P rename_call
    → ((t : ℕ) → ¬ (t < 12) → P t)
    → (t : ℕ) → P t
by_call P p0 p1 p2 p3 p4 p5 p6 p7 p8 p9 p10 p11 rest zero = p0
by_call P p0 p1 p2 p3 p4 p5 p6 p7 p8 p9 p10 p11 rest (suc zero) = p1
by_call P p0 p1 p2 p3 p4 p5 p6 p7 p8 p9 p10 p11 rest (suc (suc zero)) = p2
by_call P p0 p1 p2 p3 p4 p5 p6 p7 p8 p9 p10 p11 rest (suc (suc (suc zero))) = p3
by_call P p0 p1 p2 p3 p4 p5 p6 p7 p8 p9 p10 p11 rest (suc (suc (suc (suc zero)))) = p4
by_call P p0 p1 p2 p3 p4 p5 p6 p7 p8 p9 p10 p11 rest (suc (suc (suc (suc (suc zero))))) = p5
by_call P p0 p1 p2 p3 p4 p5 p6 p7 p8 p9 p10 p11 rest (suc (suc (suc (suc (suc (suc zero)))))) = p6
by_call P p0 p1 p2 p3 p4 p5 p6 p7 p8 p9 p10 p11 rest
      (suc (suc (suc (suc (suc (suc (suc zero))))))) =
    p7
by_call P p0 p1 p2 p3 p4 p5 p6 p7 p8 p9 p10 p11 rest
      (suc (suc (suc (suc (suc (suc (suc (suc zero)))))))) =
    p8
by_call P p0 p1 p2 p3 p4 p5 p6 p7 p8 p9 p10 p11 rest
      (suc (suc (suc (suc (suc (suc (suc (suc (suc zero))))))))) =
    p9
by_call P p0 p1 p2 p3 p4 p5 p6 p7 p8 p9 p10 p11 rest
      (suc (suc (suc (suc (suc (suc (suc (suc (suc (suc zero)))))))))) =
    p10
by_call P p0 p1 p2 p3 p4 p5 p6 p7 p8 p9 p10 p11 rest
      (suc (suc (suc (suc (suc (suc (suc (suc (suc (suc (suc zero))))))))))) =
    p11
by_call P p0 p1 p2 p3 p4 p5 p6 p7 p8 p9 p10 p11 rest
      (suc (suc (suc (suc (suc (suc (suc (suc (suc (suc (suc (suc t)))))))))))) =
    rest (suc (suc (suc (suc (suc (suc (suc (suc (suc (suc (suc (suc t))))))))))))
      (λ h. absurd (omega arith))

-- So of the twelve calls alone.
pub by_call_below {ℓ} :
    (P : ℕ → Type ℓ)
    → P open_call
    → P read_call
    → P write_call
    → P release_call
    → P create_call
    → P link_call
    → P unlink_call
    → P symlink_call
    → P mkdir_call
    → P rmdir_call
    → P mknod_call
    → P rename_call
    → (t : ℕ) → t < 12
    → P t
by_call_below P p0 p1 p2 p3 p4 p5 p6 p7 p8 p9 p10 p11 =
    by_call (λ t. t < 12 → P t) (λ h. p0) (λ h. p1) (λ h. p2) (λ h. p3) (λ h. p4) (λ h. p5)
      (λ h. p6) (λ h. p7) (λ h. p8) (λ h. p9) (λ h. p10) (λ h. p11) (λ t n h. absurd (n h))
