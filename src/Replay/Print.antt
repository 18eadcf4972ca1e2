-- ===== src/Replay/Print.antt =====
-- `print_record` of hw2/treplay.c, line by line.
pub mod Laws
pub mod Log
use trfs_stackable_filesyste.Common.{
  ℕ, String, Option, some, List, [], ◌∷◌, ◌++◌, pos, int32, ◌==◌, if◌then◌else◌,
}
use trfs_stackable_filesyste.Record.{
  open_call, read_call, write_call, release_call, create_call, link_call, unlink_call, symlink_call,
  mkdir_call, rmdir_call, mknod_call, rename_call,
}
use trfs_stackable_filesyste.Replay.{Item}
use trfs_stackable_filesyste.Replay.Call.{
  Sys, Line, line, number, path, string_at, fullpath, fullpath_of,
}

module _ {S : Type 0} (sys : Sys S) where
  -- The `switch`. `open_flags` is unsigned, but printed by `%d`.
  unfoldable pub print_call : ℕ → Item → List Line
  print_call record_type i =
      let fullpath1 = some (fullpath sys i.path1) in
      let fullpath2 = fullpath_of sys i.path2 in
      if record_type == open_call
      then line "System call : open()"
        ∷ path "Filepath to open : " fullpath1
        ∷ number "Open flags : " (int32 i.header.open_flags)
        ∷ number "Permission mode : " (pos i.header.permission_mode)
        ∷ []
      else if record_type == read_call
      then line "System call : read()" ∷ path "Filepath to read : " fullpath1 ∷ []
      else if record_type == write_call
      then line "System call : write()"
        ∷ path "Filepath where to write: " fullpath1
        ∷ path "Write content : " (string_at sys i.content)
        ∷ []
      else if record_type == release_call
      then line "System call : close()" ∷ path "Filepath to be closed : " fullpath1 ∷ []
      else if record_type == create_call
      then line "System call : create()" ∷ path "Filepath to be created : " fullpath1 ∷ []
      else if record_type == link_call
      then line "System call : link()"
        ∷ path "Source filepath : " fullpath1
        ∷ path "Target filepath : " fullpath2
        ∷ []
      else if record_type == unlink_call
      then line "System call : unlink()" ∷ path "Filepath to be unlinked : " fullpath1 ∷ []
      else if record_type == symlink_call
      then line "System call : symlink()"
        ∷ path "Source filepathd : " fullpath1
        ∷ path "Target filepath : " (string_at sys i.path2)
        ∷ []
      else if record_type == mkdir_call
      then line "System call : mkdir()" ∷ path "Dir path to be created : " fullpath1 ∷ []
      else if record_type == rmdir_call
      then line "System call : rmdir()" ∷ path "Dir path to be removed : " fullpath1 ∷ []
      else if record_type == mknod_call
      then line "System call : mknod()" ∷ path "Filepath to be created : " fullpath1 ∷ []
      else if record_type == rename_call
      then line "System call : rename()"
        ∷ path "Source filepath : " fullpath1
        ∷ path "Destination filepath : " fullpath2
        ∷ []
      else []

  unfoldable pub print_record : Item → List Line
  print_record i =
      line "Record details ->"
        ∷ number "Record ID : " i.header.record_id
        ∷ print_call i.header.record_type i
      ++ (number "Return value : " i.header.err ∷ [])
