-- ===== src/Replay/Program.antt =====
-- `main` of hw2/treplay.c around the loop: the options, the body of the loop, and the way out.
pub mod Laws
use trfs_stackable_filesyste.Common.{
  ℕ, ◌+◌, ◌%◌, ◌^◌, String, int32, Bool, true, false, not, ◌&&◌, List, [], ◌∷◌, ◌++◌, ltb, leb,
  ◌==◌, if◌then◌else◌, length,
}
use trfs_stackable_filesyste.Replay.{Run, done, fault, ◌>>=◌, Item, replay_file}
use trfs_stackable_filesyste.Replay.Call.{Sys, Line, line, number, Replayer, replay_record}
use trfs_stackable_filesyste.Replay.Print.{print_record}

-- `nVal`, `sVal`, `errVal` and `param_len`. The first two are not initialised.
pub record Options : Type 0 where
  pub n_val : Bool
  pub s_val : Bool
  pub err_val : Bool
  pub param_len : ℕ

-- One value of `getopt`: 'n', 's' or '?'.
abbrev pub option : ℕ → Options → Options
option c o =
    if c == 110
    then record o { n_val = true; param_len = o.param_len + 1 }
    else if c == 115
    then record o { s_val = true; param_len = o.param_len + 1 }
    else if c == 63
    then record o { err_val = true }
    else o

unfoldable pub options : List ℕ → Options → Options
options [] o = o
options (c ∷ cs) o = options cs (option c o)

-- What to do: leave at once with a message, print the records, or replay them, and then stop at a
-- deviation or not.
pub data Mode : Type 0 where
  leave : String → Mode
  print : Mode
  replay : Bool → Mode

-- `n` and `s` are what stands in `nVal` and `sVal` before they are set. `abort` is read only where
-- the records are replayed.
unfoldable pub mode : ℕ → List ℕ → Bool → Bool → Mode
unfolding options
mode argc given n s =
    let o = options given (record { n_val = n; s_val = s; err_val = false; param_len = 0 }) in
    if ltb argc 2
    then leave "Input parameters missing."
    else if o.err_val
    then leave "Input options are incorrect. Terminating treplay call."
    else if ltb 1 o.param_len
    then leave "Cannot take more than 1 parameters. Terminating treplay call."
    else if (argc == 2) && ltb 0 o.param_len
    then leave "Wrong input parameters. Terminating treplay call."
    else if argc == 3
    then (if not o.n_val && o.s_val then replay true else print)
    else replay false

-- "-----------------------------------------------------------------"
abbrev pub separator : Line
separator = line "-----------------------------------------------------------------"

abbrev pub printf : {S : Type 0} → List Line → Replayer S → Replayer S
printf ls r = record r { printed = r.printed ++ ls }

-- `fileread` is an `int`.
abbrev pub fileread : List ℕ → Line
fileread file = number "Fileread : " (int32 (length file % 2 ^ 32))

module _ {S : Type 0} (sys : Sys S) where
  abbrev pub print_item : Item → Replayer S → Run (Bool × Replayer S)
  print_item i r = done (true, printf (print_record sys i ++ (separator ∷ [])) r)

  -- `if (abort && !replay_res) { …; goto exit; }`
  abbrev pub go_on_unless : Bool → Bool × Replayer S → Run (Bool × Replayer S)
  go_on_unless abort (replay_res, r) =
      let r' = printf (separator ∷ []) r in
      if abort && not replay_res
      then done (false, printf (line "Deviation occured. Terminating replay!!!" ∷ []) r')
      else done (true, r')

  abbrev pub replay_item : Bool → Item → Replayer S → Run (Bool × Replayer S)
  replay_item abort i r = replay_record sys i (printf (print_record sys i) r) >>= go_on_unless abort

  -- `free(tracer)` of a pointer that was never set; `null` says if it happens to be NULL.
  abbrev pub free_tracer : Bool → Replayer S → Run (Replayer S)
  free_tracer true r = done r
  free_tracer false r = fault

  -- On a file of one byte the loop has no round.
  abbrev pub visit_file :
      (Item → Replayer S → Run (Bool × Replayer S)) → Bool → List ℕ → Replayer S → Run (Replayer S)
  visit_file visit null file r =
      if length file == 0
      then done r
      else (replay_file visit file (printf (fileread file ∷ []) r) >>= λ r'.
          if leb (length file) 1 then free_tracer null r' else done r')

  -- `file` is the content of the file at the last argument, which can be read.
  unfoldable pub treplay : Mode → Bool → List ℕ → Replayer S → Run (Replayer S)
  treplay (leave message) null file r = free_tracer null (printf (line message ∷ []) r)
  treplay print null file r = visit_file print_item null file r
  treplay (replay abort) null file r = visit_file (replay_item abort) null file r

  -- A fourth argument is complained of, and then read as the file.
  abbrev pub notices : ℕ → List Line
  notices argc = if ltb 3 argc then line "Too many input parameters." ∷ [] else []

  -- `given` are the values of `getopt`.
  unfoldable pub main : ℕ → List ℕ → Bool → Bool → Bool → List ℕ → Replayer S → Run (Replayer S)
  main argc given n s null file r =
      treplay (mode argc given n s) null file (printf (notices argc) r)
