-- ===== src/Replay/Print/Log.antt =====
-- What hw2/treplay.c prints of a file that holds a log, with `-n`.
use trfs_stackable_filesyste.Common.{ℕ, none, List, [], ◌∷◌, ◌++◌}
use trfs_stackable_filesyste.Entry.{Entry}
use trfs_stackable_filesyste.Replay.{Item}
use trfs_stackable_filesyste.Replay.RoundTrip.{items}
use trfs_stackable_filesyste.Replay.Call.{Sys, Line}
use trfs_stackable_filesyste.Replay.Print.{print_record}
use trfs_stackable_filesyste.Replay.Print.Laws.{Summary, summary}
use trfs_stackable_filesyste.Replay.Program.{separator, fileread}

abbrev pub summaries_of : List Entry → List Summary
summaries_of [] = []
summaries_of (e ∷ es) = summary e.header ∷ summaries_of es

module _ {S : Type 0} (sys : Sys S) where
  abbrev pub print_all : List Item → List Line
  print_all [] = []
  print_all (i ∷ is) = (print_record sys i ++ (separator ∷ [])) ++ print_all is

  -- The lines for a log.
  abbrev pub log_lines : List ℕ → List Entry → List Line
  log_lines bytes [] = []
  log_lines bytes (e ∷ es) = fileread bytes ∷ print_all (items none none (e ∷ es))
