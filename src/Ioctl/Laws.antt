-- ===== src/Ioctl/Laws.antt =====
-- What a control call does to the mask, whatever the lower file system makes of it.
use trfs_stackable_filesyste.Common.{
  ℕ, ◌≡◌, ◌≢◌, ap, ◌∙◌, inl, inr, arith, ◌||◌, some, ℤ, ◌==◌, if◌then◌else◌,
}
use trfs_stackable_filesyste.Kernel.{File, FileInfo, Kernel, State, oops, ok, Outcome-cases}
use trfs_stackable_filesyste.Ioctl.{cmd_all, cmd_none, cmd_hex, trfs_command, trfs_unlocked_ioctl}

-- The mask after a command.
abbrev pub mask_after : ℕ → ℕ → ℕ → ℕ
mask_after cmd arg mask =
    if cmd == cmd_all || (cmd == cmd_none || cmd == cmd_hex) then arg else mask

module _ {W : Type 0} (k : Kernel W) where
  pub trfs_unlocked_ioctl-ne-oops :
      (f : File) (cmd arg : ℕ) (i : FileInfo) (s : State W)
      → s.file_info f ≡ some i
      → trfs_unlocked_ioctl k f cmd arg s ≢ oops
  unfolding trfs_unlocked_ioctl trfs_command
  trfs_unlocked_ioctl-ne-oops f cmd arg i s h = λ b. ground arith

  pub trfs_unlocked_ioctl_shape :
      (f : File) (cmd arg : ℕ) (s s' : State W) (e : ℤ)
      → trfs_unlocked_ioctl k f cmd arg s ≡ ok (e, s')
      → s'
        ≡ record s { sb = record (s.sb) { mask = mask_after cmd arg s.sb.mask }; world = s'.world }
  unfolding trfs_unlocked_ioctl trfs_command
  trfs_unlocked_ioctl_shape f cmd arg s s' e h = ground arith

  -- On an open file a control call returns. It sets the mask to its argument by the three
  -- setting commands and by no other, with whatever result, and changes nothing else of the module's
  -- own state.
  pub trfs_unlocked_ioctl_mask :
      (f : File) (cmd arg : ℕ) (i : FileInfo) (s : State W)
      → s.file_info f ≡ some i
      → (e : ℤ) × (w : W) × (trfs_unlocked_ioctl k f cmd arg s
          ≡ ok (
            e,
            record s { sb = record (s.sb) { mask = mask_after cmd arg s.sb.mask }; world = w },
          ))
  trfs_unlocked_ioctl_mask f cmd arg i s h =
      elim (Outcome-cases (trfs_unlocked_ioctl k f cmd arg s)) [
        | inl bad ↦ absurd (trfs_unlocked_ioctl-ne-oops f cmd arg i s h bad)
        | inr ((e, s'), g) ↦ (
          e,
          s'.world,
          g ∙ ap (λ (v : State W). ok (e, v)) (trfs_unlocked_ioctl_shape f cmd arg s s' e g),
        )
      ]
