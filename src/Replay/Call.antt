-- ===== src/Replay/Call.antt =====
-- `replay_record` of hw2/treplay.c: the call of one record is made again below /usr/src/replay.
-- The system calls are parameters, and so is what the memory behind a block holds.
pub mod Laws
use trfs_stackable_filesyste.Common.{
  ℕ, Bool, true, false, String, Option, none, some, List, [], ◌∷◌, ◌++◌, ℤ, pos, negsuc, eqb_ℤ,
  is_negative, ◌==◌, ◌&&◌, length, zero, suc, if◌then◌else◌,
}
use trfs_stackable_filesyste.Record.{
  open_call, read_call, write_call, release_call, create_call, link_call, unlink_call, symlink_call,
  mkdir_call, rmdir_call, mknod_call, rename_call,
}
use trfs_stackable_filesyste.Replay.{Run, done, fault, ◌>>=◌, Item}

-- The system calls; a path that is NULL is passed on. `beyond` is what the memory behind a block holds
-- up to the next 0, and `slack n` says if a block of `n` bytes has room for one more.
pub record Sys (S : Type 0) : Type 0 where
  pub open_file : List ℕ → ℕ → S → ℤ × S
  pub open_mode : List ℕ → ℕ → ℕ → S → ℤ × S
  pub read : ℤ → ℕ → S → ℤ × S
  pub write : ℤ → List ℕ → S → ℤ × S
  pub close : ℤ → S → ℤ × S
  pub link : List ℕ → Option (List ℕ) → S → ℤ × S
  pub unlink : List ℕ → S → ℤ × S
  pub symlink : List ℕ → Option (List ℕ) → S → ℤ × S
  pub mkdir : List ℕ → ℕ → S → ℤ × S
  pub rmdir : List ℕ → S → ℤ × S
  pub mknod : List ℕ → ℕ → ℕ → S → ℤ × S
  pub rename : List ℕ → Option (List ℕ) → S → ℤ × S
  pub beyond : List ℕ → List ℕ
  pub slack : ℕ → Bool

-- One `printf`: a text, and behind it nothing, a number for `%d`, or the string for `%s`, whose pointer
-- may be NULL. The ends of line are left out.
pub data Line : Type 0 where
  line : String → Line
  number : String → ℤ → Line
  path : String → Option (List ℕ) → Line

abbrev pub original_value : ℤ → Line
original_value = number "Original return value : "

abbrev pub replay_value : ℤ → Line
replay_value = number "Replay return value : "

-- The global `fd`, the system, and what has been printed.
pub record Replayer (S : Type 0) : Type 0 where
  pub fd : ℤ
  pub system : S
  pub printed : List Line

-- "/usr/src/replay"
abbrev pub replay_path : List ℕ
replay_path =
    47 ∷ 117 ∷ 115 ∷ 114 ∷ 47 ∷ 115 ∷ 114 ∷ 99 ∷ 47 ∷ 114 ∷ 101 ∷ 112 ∷ 108 ∷ 97 ∷ 121 ∷ []

-- The string at a block that need not have a 0: up to it, or on through what is behind.
abbrev pub c_string : List ℕ → List ℕ → List ℕ
c_string beyond [] = beyond
c_string beyond (c ∷ cs) = let rest = c_string beyond cs in if c == 0 then [] else c ∷ rest

-- `errval > 0`
abbrev is_positive : ℤ → Bool
is_positive (pos zero) = false
is_positive (pos (suc n)) = true
is_positive (negsuc n) = false

module _ {S : Type 0} (sys : Sys S) where
  -- The string of a block that may be NULL.
  abbrev pub string_at : Option (List ℕ) → Option (List ℕ)
  string_at none = none
  string_at (some block) = some (c_string (sys.beyond block) block)

  abbrev pub fullpath : List ℕ → List ℕ
  fullpath block = replay_path ++ c_string (sys.beyond block) block

  abbrev pub fullpath_of : Option (List ℕ) → Option (List ℕ)
  fullpath_of none = none
  fullpath_of (some block) = some (fullpath block)

  -- The result is printed and compared with the recorded one.
  abbrev pub compare_with : ℤ → ℤ × S → Replayer S → Run (Bool × Replayer S)
  compare_with err answer r = done (
    eqb_ℤ err answer.0,
    record r { system = answer.1; printed = r.printed ++ (replay_value answer.0 ∷ []) },
  )

  -- `errval` is -1 or 0 when it is compared with `> 0`.
  abbrev pub replay_open : ℤ → ℤ × S → Replayer S → Run (Bool × Replayer S)
  replay_open err answer r =
      let errval = if is_negative answer.0 then negsuc 0 else pos 0 in
      let same = eqb_ℤ err (pos 0) && is_positive errval in
      if is_negative answer.0
      then done (
        same,
        record r { system = answer.1; printed = r.printed ++ (replay_value (negsuc 0) ∷ []) },
      )
      else done (
        same,
        record {
          fd = answer.0;
          system = answer.1;
          printed = r.printed ++ (replay_value (pos 0) ∷ []);
        },
      )

  -- `write(fd, content, strlen(content))`; a NULL content is read through.
  abbrev pub replay_write : ℤ → Option (List ℕ) → Replayer S → Run (Bool × Replayer S)
  replay_write err none r = fault
  replay_write err (some content) r =
      compare_with err (sys.write r.fd (c_string (sys.beyond content) content) r.system) r

  -- The cases of the `switch` for names. A record of no known type is taken as a success.
  abbrev replay_names : Item → Replayer S → Run (Bool × Replayer S)
  replay_names i r =
      let h = i.header in
      let path1 = fullpath i.path1 in
      let path2 = fullpath_of i.path2 in
      if h.record_type == link_call
      then compare_with h.err (sys.link path1 path2 r.system) r
      else if h.record_type == unlink_call
      then compare_with h.err (sys.unlink path1 r.system) r
      else if h.record_type == symlink_call
      then compare_with h.err (sys.symlink path1 (string_at i.path2) r.system) r
      else if h.record_type == mkdir_call
      then compare_with h.err (sys.mkdir path1 h.permission_mode r.system) r
      else if h.record_type == rmdir_call
      then compare_with h.err (sys.rmdir path1 r.system) r
      else if h.record_type == mknod_call
      then compare_with h.err (sys.mknod path1 h.permission_mode h.open_flags r.system) r
      else if h.record_type == rename_call
      then compare_with h.err (sys.rename path1 path2 r.system) r
      else done (true, r)

  -- The cases for files, before them.
  unfoldable pub replay_call : Item → Replayer S → Run (Bool × Replayer S)
  replay_call i r =
      let h = i.header in
      let path1 = fullpath i.path1 in
      if h.record_type == open_call
      then replay_open h.err (sys.open_file path1 h.open_flags r.system) r
      else if h.record_type == read_call
      then compare_with h.err (sys.read r.fd 0 r.system) r
      else if h.record_type == write_call
      then replay_write h.err i.content r
      else if h.record_type == release_call
      then compare_with h.err (sys.close r.fd r.system) r
      else if h.record_type == create_call
      then compare_with h.err (sys.open_mode path1 h.open_flags h.permission_mode r.system) r
      else replay_names i r

  -- `strcat` writes the final 0 of a full path behind the bytes that were asked of `malloc`: that is an
  -- invalid access if the block has no more.
  abbrev pub has_room : Item → Bool
  has_room i =
      sys.slack (length (fullpath i.path1))
      && elim i.path2 [ none ↦ true | some block ↦ sys.slack (length (fullpath block)) ]

  unfoldable pub replay_record : Item → Replayer S → Run (Bool × Replayer S)
  replay_record i r =
      if has_room i
      then replay_call i (record r {
        printed = r.printed ++ (line "Replay result ->" ∷ original_value i.header.err ∷ []);
      })
      else fault
