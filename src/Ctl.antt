-- ===== src/Ctl.antt =====
-- The control program, hw2/trctl.c: it reads the mask of a mounted file system, sets it, or changes
-- single bits by name. Strings are lists of bytes without their final 0.
pub mod Bits
pub mod Mask
pub mod Module
pub mod Switch
use trfs_stackable_filesyste.Common.{
  ℕ, zero, suc, ◌+◌, ◌-◌, ◌/◌, ◌%◌, ◌^◌, Bool, true, false, ◌||◌, not, List, [], ◌∷◌, ℤ, pos,
  negsuc, ltb, ◌==◌, if◌then◌else◌, length,
}
use trfs_stackable_filesyste.Record.{
  open_call, read_call, write_call, release_call, create_call, link_call, unlink_call, symlink_call,
  mkdir_call, rmdir_call, mknod_call, rename_call,
}
use trfs_stackable_filesyste.Ioctl.{cmd_all, cmd_none, cmd_hex}

abbrev pub bitmap_max : ℕ
bitmap_max = 0xfff

-- `!strcmp(a, b)`
abbrev pub same : List ℕ → List ℕ → Bool
same [] [] = true
same [] (y ∷ ys) = false
same (x ∷ xs) [] = false
same (x ∷ xs) (y ∷ ys) = let rest = same xs ys in if x == y then rest else false

-- What the C library and the kernel do. `ioctl_ret` gets what `retmapval` held and says what it holds
-- then.
pub record Posix (S : Type 0) : Type 0 where
  pub open_mount : S → ℤ × S
  pub ioctl : ℤ → ℕ → ℕ → S → ℤ × S
  pub ioctl_ret : ℤ → ℕ → S → (ℤ × ℕ) × S
  pub close : ℤ → S → S
  -- `strtol(s, NULL, 16)`
  pub strtol : List ℕ → ℤ

-- What the program prints.
pub data Message : Type 0 where
  too_few_arguments : Message
  current_bitmap : ℕ → Message
  not_hex : Message
  too_large : Message

-- The names in the order of the tests, with the bits; 43 is '+' and 45 is '-'.
abbrev pub names : List (List ℕ × ℕ)
names =
    (111 ∷ 112 ∷ 101 ∷ 110 ∷ [], open_call)
    ∷ (114 ∷ 101 ∷ 97 ∷ 100 ∷ [], read_call)
    ∷ (119 ∷ 114 ∷ 105 ∷ 116 ∷ 101 ∷ [], write_call)
    ∷ (99 ∷ 108 ∷ 111 ∷ 115 ∷ 101 ∷ [], release_call)
    ∷ (99 ∷ 114 ∷ 101 ∷ 97 ∷ 116 ∷ 101 ∷ [], create_call)
    ∷ (108 ∷ 105 ∷ 110 ∷ 107 ∷ [], link_call)
    ∷ (117 ∷ 110 ∷ 108 ∷ 105 ∷ 110 ∷ 107 ∷ [], unlink_call)
    ∷ (115 ∷ 121 ∷ 109 ∷ 108 ∷ 105 ∷ 110 ∷ 107 ∷ [], symlink_call)
    ∷ (109 ∷ 107 ∷ 100 ∷ 105 ∷ 114 ∷ [], mkdir_call)
    ∷ (114 ∷ 109 ∷ 100 ∷ 105 ∷ 114 ∷ [], rmdir_call)
    ∷ (109 ∷ 107 ∷ 110 ∷ 111 ∷ 100 ∷ [], mknod_call)
    ∷ (114 ∷ 101 ∷ 110 ∷ 97 ∷ 109 ∷ 101 ∷ [], rename_call)
    ∷ []

-- `(r >> b) & 1`, `r + (1 << b)`, `r - (1 << b)` on `unsigned long`.
abbrev pub bit : ℕ → ℕ → ℕ
bit b r = r / 2 ^ b % 2

abbrev pub add_bit : ℕ → ℕ → ℕ
add_bit b r = (r + 2 ^ b) % 2 ^ 64

abbrev pub sub_bit : ℕ → ℕ → ℕ
sub_bit b r = (r + 2 ^ 64 - 2 ^ b) % 2 ^ 64

-- `rc`, `retmapval` and the system.
pub record Ctl (S : Type 0) : Type 0 where
  pub rc : ℤ
  pub map : ℕ
  pub system : S

-- `(unsigned long) l`
abbrev to_ulong : ℤ → ℕ
to_ulong (pos n) = n % 2 ^ 64
to_ulong (negsuc n) = 2 ^ 64 - 1 - n % 2 ^ 64

module _ {S : Type 0} (p : Posix S) (fd : ℤ) where
  -- `retmapval = r; rc = ioctl(fd, HEX, retmapval);`
  abbrev pub put_map : ℕ → Ctl S → Ctl S
  put_map r c = record {
    rc = (p.ioctl fd cmd_hex r c.system).0;
    map = r;
    system = (p.ioctl fd cmd_hex r c.system).1;
  }

  -- The two tests for one name.
  abbrev pub test_name : List ℕ → List ℕ → ℕ → Ctl S → Ctl S
  test_name arg name b c =
      if same arg (43 ∷ name)
      then (if bit b c.map == 0 then put_map (add_bit b c.map) c else c)
      else if same arg (45 ∷ name)
      then (if bit b c.map == 1 then put_map (sub_bit b c.map) c else c)
      else c

  -- The body of the loop: all names are tested, one after the other.
  unfoldable pub test_names : List ℕ → List (List ℕ × ℕ) → Ctl S → Ctl S
  test_names arg [] c = c
  test_names arg ((name, b) ∷ ns) c = test_names arg ns (test_name arg name b c)

  -- The loop runs from `argv[1]` to the last argument but one, the mount point; these are `args`.
  unfoldable pub test_args : List (List ℕ) → Ctl S → Ctl S
  test_args [] c = c
  test_args (a ∷ rest) c = test_args rest (test_names a names c)

  -- The part under `extra_cr`.
  unfoldable pub change_bits : List (List ℕ) → ℕ → S → Ctl S
  change_bits args old s = test_args args (record {
    rc = (p.ioctl_ret fd old s).0.0;
    map = (p.ioctl_ret fd old s).0.1;
    system = (p.ioctl_ret fd old s).1;
  })

  -- `command[n]`, with the final 0.
  abbrev char_at : ℕ → List ℕ → ℕ
  char_at n [] = 0
  char_at zero (c ∷ cs) = c
  char_at (suc n) (c ∷ cs) = char_at n cs

  abbrev skip_two : List ℕ → List ℕ
  skip_two (a ∷ b ∷ cs) = cs
  skip_two _ = []

  -- A mask in hexadecimal.
  unfoldable pub set_hex : List ℕ → S → (ℤ × List Message) × S
  set_hex command s =
      if not (char_at 0 command == 48)
      then ((pos 0, not_hex ∷ []), s)
      else if not (char_at 1 command == 120 || char_at 1 command == 88)
      then ((pos 0, not_hex ∷ []), s)
      else let bitmapval = to_ulong (p.strtol (skip_two command)) in
        let answer = p.ioctl fd cmd_hex bitmapval s in
        if ltb bitmap_max bitmapval
        then ((pos 0, too_large ∷ []), s)
        else ((answer.0, []), answer.1)

  -- `argc == 3`; `old` is what `retmapval` holds, since nothing sets it.
  unfoldable pub one_command : List ℕ → ℕ → S → (ℤ × List Message) × S
  one_command command old s =
      let all = p.ioctl fd cmd_all bitmap_max s in
      let none = p.ioctl fd cmd_none 0 s in
      let changed = change_bits (command ∷ []) old s in
      if same command (97 ∷ 108 ∷ 108 ∷ [])
      then ((all.0, []), all.1)
      else if same command (110 ∷ 111 ∷ 110 ∷ 101 ∷ [])
      then ((none.0, []), none.1)
      else if char_at 0 command == 43 || char_at 0 command == 45
      then ((changed.rc, []), changed.system)
      else set_hex command s

-- All but the last.
abbrev pub but_last : List (List ℕ) → List (List ℕ)
but_last [] = []
but_last (a ∷ []) = []
but_last (a ∷ b ∷ rest) = a ∷ but_last (b ∷ rest)

module _ {S : Type 0} (p : Posix S) where
  -- By the arguments behind the program's name: the first and the others.
  unfoldable pub dispatch : ℤ → List ℕ → List (List ℕ) → ℕ → S → (ℤ × List Message) × S
  dispatch fd mount [] old s =
      let answer = p.ioctl_ret fd old s in ((answer.0.0, current_bitmap answer.0.1 ∷ []), answer.1)
  dispatch fd command (mount ∷ []) old s = one_command p fd command old s
  dispatch fd a (b ∷ c ∷ more) old s =
      let changed = change_bits p fd (but_last (a ∷ b ∷ c ∷ more)) old s in
      ((changed.rc, []), changed.system)

  -- The result, what is printed, and the system. Without an argument nothing is opened, and -1 is
  -- closed.
  unfoldable pub ctl_main : List (List ℕ) → ℕ → S → (ℤ × List Message) × S
  ctl_main [] old s = ((pos 0, too_few_arguments ∷ []), p.close (negsuc 0) s)
  ctl_main (a ∷ rest) old s =
      let opened = p.open_mount s in
      let r = dispatch opened.0 a rest old opened.1 in (r.0, p.close opened.0 r.1)
