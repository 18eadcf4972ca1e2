-- ===== src/Replay/Print/Laws.antt =====
-- What is printed of a record says which call it was, its number and its result.
use trfs_stackable_filesyste.Common.{
  ℕ, suc, ◌≡◌, refl, ap, ◌∙◌, arith, String, Option, none, some, List, [], ◌∷◌, ◌++◌, append_assoc,
  ℤ, pos, eqb_text, ltb, if◌then◌else◌,
}
use trfs_stackable_filesyste.Record.{TraceDs}
use trfs_stackable_filesyste.Record.Calls.{by_call}
use trfs_stackable_filesyste.Replay.{Item}
use trfs_stackable_filesyste.Replay.Call.{Sys, Line, line, number, path}
use trfs_stackable_filesyste.Replay.Print.{print_call, print_record}

-- The texts that name the calls, in the order of their numbers.
abbrev call_names : List String
call_names =
    "System call : open()" ∷ "System call : read()" ∷ "System call : write()"
    ∷ "System call : close()" ∷ "System call : create()" ∷ "System call : link()"
    ∷ "System call : unlink()" ∷ "System call : symlink()" ∷ "System call : mkdir()"
    ∷ "System call : rmdir()" ∷ "System call : mknod()" ∷ "System call : rename()" ∷ []

abbrev position : String → List String → ℕ → Option ℕ → Option ℕ
position t [] n otherwise = otherwise
position t (s ∷ ss) n otherwise =
    let later = position t ss (suc n) otherwise in if eqb_text t s then some n else later

-- A record as the lines tell it: its number, its call, if it is a known one, and its result.
pub record Summary : Type 0 where
  pub record_id : ℤ
  pub call : Option ℕ
  pub err : ℤ

-- What is known of the record whose lines are being read.
abbrev pub begun : ℤ → Option ℕ → Summary
begun n c = record { record_id = n; call = c; err = pos 0 }

-- A reader of the printed lines: one summary for each "Return value : ".
abbrev pub summaries : Summary → List Line → List Summary
summaries m [] = []
summaries m (line t ∷ ls) = summaries (record m { call = position t call_names 0 m.call }) ls
summaries m (path t p ∷ ls) = summaries m ls
summaries m (number t v ∷ ls) =
    let as_id = summaries (record m { record_id = v; call = none }) ls in
    let same = summaries m ls in
    if eqb_text t "Record ID : "
    then as_id
    else if eqb_text t "Return value : "
    then record m { err = v } ∷ same
    else same

abbrev pub summary : TraceDs → Summary
summary h = record {
  record_id = h.record_id;
  call = if ltb h.record_type 12 then some h.record_type else none;
  err = h.err;
}

module _ {S : Type 0} (sys : Sys S) where
  IsSummed : Item → ℕ → Type 0
  IsSummed i t =
      (m : Summary) (rest : List Line)
      → summaries m (print_call sys t i ++ rest)
        ≡ summaries (record m { call = if ltb t 12 then some t else m.call }) rest

  print_call-IsSummed : (i : Item) (t : ℕ) → IsSummed i t
  unfolding IsSummed print_call
  print_call-IsSummed i t =
      by_call (IsSummed i) (λ m rest. refl) (λ m rest. refl) (λ m rest. refl) (λ m rest. refl)
        (λ m rest. refl) (λ m rest. refl) (λ m rest. refl) (λ m rest. refl) (λ m rest. refl)
        (λ m rest. refl) (λ m rest. refl) (λ m rest. refl) (λ t h m rest. ground arith) t

  abbrev ending : Item → List Line
  ending i = number "Return value : " i.header.err ∷ []

  abbrev begun' : Summary → Item → Summary
  begun' m i = record m { record_id = i.header.record_id; call = none }

  -- The reader gets a record's summary out of its lines, and goes on behind them with the same.
  pub summaries-print_record :
      (i : Item) (m : Summary) (rest : List Line)
      → summaries m (print_record sys i ++ rest)
        ≡ summary i.header ∷ summaries (record (summary i.header) { err = m.err }) rest
  unfolding print_record IsSummed
  summaries-print_record i m rest =
      ap (λ ls. summaries (begun' m i) ls)
        (append_assoc (print_call sys i.header.record_type i) (ending i) rest)
      ∙ print_call-IsSummed i i.header.record_type (begun' m i) (ending i ++ rest)
