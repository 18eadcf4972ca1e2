-- ===== src/Ctl/Mask.antt =====
-- The control program over a mounted file system: what becomes of the mask.
use trfs_stackable_filesyste.Common.{
  ℕ, Bool, true, false, ltb, if◌then◌else◌, refl, ◌≤◌, ◌<◌, ◌≡◌, sym, inl, inr, arith, List, [],
  ◌∷◌, ℤ, Bool-cases, ◌∙◌,
}
use trfs_stackable_filesyste.Ioctl.{cmd_hex}
use trfs_stackable_filesyste.Ioctl.Laws.{mask_after}
use trfs_stackable_filesyste.Ctl.{
  same, Posix, Ctl, names, bit, add_bit, sub_bit, test_name, test_names, test_args, change_bits,
  set_hex, one_command, dispatch, ctl_main, bitmap_max, but_last,
}
use trfs_stackable_filesyste.Record.Calls.{by_call_below}

-- `mask_of` is the mask of the file system at the mount point: a control call does to it what the
-- handler does, and nothing else changes it.
pub record Device {S : Type 0} (p : Posix S) (mask_of : S → ℕ) : Type 0 where
  pub ioctl_mask :
      (fd : ℤ) (cmd arg : ℕ) (s : S)
      → mask_of (p.ioctl fd cmd arg s).1 ≡ mask_after cmd arg (mask_of s)
  pub ioctl_ret_map : (fd : ℤ) (old : ℕ) (s : S) → (p.ioctl_ret fd old s).0.1 ≡ mask_of s
  pub ioctl_ret_mask : (fd : ℤ) (old : ℕ) (s : S) → mask_of (p.ioctl_ret fd old s).1 ≡ mask_of s
  pub open_mask : (s : S) → mask_of (p.open_mount s).1 ≡ mask_of s
  pub close_mask : (fd : ℤ) (s : S) → mask_of (p.close fd s) ≡ mask_of s

-- The program's copy is the mask, and the mask has only the bits of the twelve calls.
abbrev pub InStep : {S : Type 0} → (S → ℕ) → Ctl S → Type 0
InStep mask_of c = (mask_of c.system ≡ c.map) × (c.map ≤ bitmap_max)

abbrev Known : List (List ℕ × ℕ) → Type 0
Known [] = Unit
Known ((name, b) ∷ ns) = (b < 12) × Known ns

-- The names of the calls are known: a test on each.
is_known : List (List ℕ × ℕ) → Bool
is_known [] = true
is_known ((name, b) ∷ ns) = let rest = is_known ns in if ltb b 12 then rest else false

is_known-Known : (ns : List (List ℕ × ℕ)) → is_known ns ≡ true → Known ns
unfolding is_known
is_known-Known [] h = tt
is_known-Known ((name, b) ∷ ns) h = (ground arith, is_known-Known ns (ground arith))

names-Known : Known names
unfolding is_known
names-Known = is_known-Known names refl

add_bit_fits : (b r : ℕ) → b < 12 → r ≤ bitmap_max → bit b r ≡ 0 → add_bit b r ≤ bitmap_max
add_bit_fits b r h =
    by_call_below (λ b. r ≤ bitmap_max → bit b r ≡ 0 → add_bit b r ≤ bitmap_max)
      (λ l z. omega arith) (λ l z. omega arith) (λ l z. omega arith) (λ l z. omega arith)
      (λ l z. omega arith) (λ l z. omega arith) (λ l z. omega arith) (λ l z. omega arith)
      (λ l z. omega arith) (λ l z. omega arith) (λ l z. omega arith) (λ l z. omega arith) b h

sub_bit_fits : (b r : ℕ) → b < 12 → r ≤ bitmap_max → bit b r ≡ 1 → sub_bit b r ≤ bitmap_max
sub_bit_fits b r h =
    by_call_below (λ b. r ≤ bitmap_max → bit b r ≡ 1 → sub_bit b r ≤ bitmap_max)
      (λ l z. omega arith) (λ l z. omega arith) (λ l z. omega arith) (λ l z. omega arith)
      (λ l z. omega arith) (λ l z. omega arith) (λ l z. omega arith) (λ l z. omega arith)
      (λ l z. omega arith) (λ l z. omega arith) (λ l z. omega arith) (λ l z. omega arith) b h

module _ {S : Type 0} (p : Posix S) (mask_of : S → ℕ) (D : Device p mask_of) (fd : ℤ) where
  test_name-InStep :
      (arg name : List ℕ) (b : ℕ) (c : Ctl S)
      → b < 12
      → InStep mask_of c
      → InStep mask_of (test_name p fd arg name b c)
  test_name-InStep arg name b c h i = elim (Bool-cases (same arg (43 ∷ name))) [
    | inl e ↦
        ground
          (arith, add_bit_fits b c.map h (i.1), D.ioctl_mask fd cmd_hex (add_bit b c.map) c.system)
    | inr e ↦
        ground
          (arith, sub_bit_fits b c.map h (i.1), D.ioctl_mask fd cmd_hex (sub_bit b c.map) c.system)
  ]

  test_names-InStep :
      (arg : List ℕ) (ns : List (List ℕ × ℕ)) (c : Ctl S)
      → Known ns
      → InStep mask_of c
      → InStep mask_of (test_names p fd arg ns c)
  unfolding test_names
  test_names-InStep arg [] c k i = i
  test_names-InStep arg ((name, b) ∷ ns) c (h, k) i =
      test_names-InStep arg ns (test_name p fd arg name b c) k (test_name-InStep arg name b c h i)

  test_args-InStep :
      (args : List (List ℕ)) (c : Ctl S) → InStep mask_of c → InStep mask_of (test_args p fd args c)
  unfolding test_args
  test_args-InStep [] c i = i
  test_args-InStep (a ∷ rest) c i =
      test_args-InStep rest (test_names p fd a names c) (test_names-InStep a names c names-Known i)

  -- If the mask has no bit beyond those of the calls, then after the changes by name the file system
  -- has the mask that the program has worked out, and it has none either.
  pub change_bits-InStep :
      (args : List (List ℕ)) (old : ℕ) (s : S)
      → mask_of s ≤ bitmap_max
      → InStep mask_of (change_bits p fd args old s)
  unfolding change_bits
  change_bits-InStep args old s h =
      test_args-InStep args _ (
        D.ioctl_ret_mask fd old s ∙ sym (D.ioctl_ret_map fd old s),
        rw (D.ioctl_ret_map fd old s) h,
      )

  set_hex_mask :
      (command : List ℕ) (s : S)
      → mask_of s ≤ bitmap_max
      → mask_of (set_hex p fd command s).1 ≤ bitmap_max
  unfolding set_hex
  set_hex_mask command s h = grind (arith, D.ioctl_mask fd)

  one_command_mask :
      (command : List ℕ) (old : ℕ) (s : S)
      → mask_of s ≤ bitmap_max
      → mask_of (one_command p fd command old s).1 ≤ bitmap_max
  unfolding one_command
  one_command_mask command old s h =
      grind
        (arith, D.ioctl_mask fd, change_bits-InStep (command ∷ []) old s, set_hex_mask command s)

  dispatch_mask :
      (a : List ℕ) (rest : List (List ℕ)) (old : ℕ) (s : S)
      → mask_of s ≤ bitmap_max
      → mask_of (dispatch p fd a rest old s).1 ≤ bitmap_max
  unfolding dispatch
  dispatch_mask a [] old s h = grind (arith, D.ioctl_ret_mask fd old s)
  dispatch_mask a (b ∷ []) old s h = one_command_mask a old s h
  dispatch_mask a (b ∷ c ∷ more) old s h =
      grind (arith, change_bits-InStep (but_last (a ∷ b ∷ c ∷ more)) old s h)

module _ {S : Type 0} (p : Posix S) (mask_of : S → ℕ) (D : Device p mask_of) where
  -- Whatever its arguments are, the program never leaves a mask with a bit beyond the twelve calls,
  -- if there was none before.
  pub ctl_main_mask :
      (args : List (List ℕ)) (old : ℕ) (s : S)
      → mask_of s ≤ bitmap_max
      → mask_of (ctl_main p args old s).1 ≤ bitmap_max
  unfolding ctl_main
  ctl_main_mask [] old s h = grind (arith, D.close_mask)
  ctl_main_mask (a ∷ rest) old s h = rw (D.close_mask (p.open_mount s).0) (
      dispatch_mask p mask_of D (p.open_mount s).0 a rest old (p.open_mount s).1
        (rw (D.open_mask s) h))
