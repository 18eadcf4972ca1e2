-- ===== src/Replay/Call/Laws.antt =====
-- What `replay_record` of hw2/treplay.c reports of a record.
use trfs_stackable_filesyste.Common.{
  ℕ, ◌≡◌, ◌≢◌, ◌<◌, refl, arith, Bool, false, Option, none, some, List, [], ◌∷◌, ◌++◌, ℤ, pos,
  eqb_ℤ, append_assoc, ◌∙◌, Bool-cases, inl, inr,
}
use trfs_stackable_filesyste.Record.{open_call}
use trfs_stackable_filesyste.Record.Calls.{by_call}
use trfs_stackable_filesyste.Replay.{Run, done, stuck, Item}
use trfs_stackable_filesyste.Replay.Call.{
  Sys, Line, line, number, original_value, replay_value, Replayer, compare_with, replay_write,
  c_string, has_room, replay_call, replay_record,
}

-- The value in the last line.
abbrev pub last_value : List Line → ℤ
last_value [] = pos 0
last_value (l ∷ []) = elim l [ number t v ↦ v | _ ↦ pos 0 ]
last_value (l ∷ m ∷ ls) = last_value (m ∷ ls)

last_value-append : (ls : List Line) (v : ℤ) → last_value (ls ++ (replay_value v ∷ [])) ≡ v
last_value-append [] v = refl
last_value-append (l ∷ []) v = refl
last_value-append (l ∷ m ∷ ls) v = last_value-append (m ∷ ls) v

module _ {S : Type 0} (sys : Sys S) where
  pub replay_record-ne-stuck : (i : Item) (r : Replayer S) → replay_record sys i r ≢ stuck
  unfolding replay_record replay_call
  replay_record-ne-stuck i r = λ e. ground arith

  -- A record of an `open` whose replay returns is reported as a deviation, whatever the recorded and the new
  -- result.
  pub replay_record-open :
      (i : Item) (r r' : Replayer S) (b : Bool)
      → i.header.record_type ≡ open_call
      → replay_record sys i r ≡ done (b, r')
      → b ≡ false
  unfolding replay_record replay_call
  replay_record-open i r r' b h e = ground arith

  Reported : ℤ → Replayer S → Run (Bool × Replayer S) → Type 0
  Reported err r result =
      (b : Bool) (r' : Replayer S)
      → result ≡ done (b, r')
      → (b ≡ eqb_ℤ err (last_value r'.printed))
        × (r'.fd ≡ r.fd)
        × (r'.printed ≡ r.printed ++ (replay_value (last_value r'.printed) ∷ []))

  compared :
      (err : ℤ) (answer : ℤ × S) (r : Replayer S) → Reported err r (compare_with sys err answer r)
  unfolding Reported
  compared err answer r = λ b r' e. ground (arith, last_value-append r.printed (answer.0))

  written :
      (err : ℤ) (c : Option (List ℕ)) (r : Replayer S) → Reported err r (replay_write sys err c r)
  unfolding Reported
  written err none r = λ b r' e. ground arith
  written err (some c) r = compared err (sys.write r.fd (c_string (sys.beyond c) c) r.system) r

  -- The item, with another record type.
  abbrev typed : Item → ℕ → Item
  typed i t = record i { header = record i.header { record_type = t } }

  IsReported : Item → Replayer S → ℕ → Type 0
  IsReported i r t =
      t ≢ open_call → t < 12 → Reported i.header.err r (replay_call sys (typed i t) r)

  replay_call-IsReported : (i : Item) (r : Replayer S) (t : ℕ) → IsReported i r t
  unfolding IsReported replay_call
  replay_call-IsReported i r =
      by_call (IsReported i r) (λ h l. absurd (h refl)) (λ h l. compared i.header.err _ r)
        (λ h l. written i.header.err i.content r) (λ h l. compared i.header.err _ r)
        (λ h l. compared i.header.err _ r) (λ h l. compared i.header.err _ r)
        (λ h l. compared i.header.err _ r) (λ h l. compared i.header.err _ r)
        (λ h l. compared i.header.err _ r) (λ h l. compared i.header.err _ r)
        (λ h l. compared i.header.err _ r) (λ h l. compared i.header.err _ r)
        (λ t n h l. absurd (n l))

  -- A record of any of the eleven other calls is reported as a success exactly if the recorded result
  -- is the new one, the value that is printed behind it; `fd` is kept.
  pub replay_record-agrees :
      (i : Item) (r r' : Replayer S) (b : Bool)
      → i.header.record_type ≢ open_call
      → i.header.record_type < 12
      → replay_record sys i r ≡ done (b, r')
      → (b ≡ eqb_ℤ i.header.err (last_value r'.printed))
        × (r'.fd ≡ r.fd)
        × (r'.printed
            ≡ r.printed
              ++ (line "Replay result ->"
                  ∷ original_value i.header.err
                  ∷ replay_value (last_value r'.printed)
                  ∷ []))
  unfolding replay_record Reported IsReported
  replay_record-agrees i r r' b h l e =
      let head = line "Replay result ->" ∷ original_value i.header.err ∷ [] in
      elim (Bool-cases (has_room sys i)) [
        | inl room ↦
            let e' : replay_call sys i (record r { printed = r.printed ++ head }) ≡ done (b, r') =
              ground (arith, e, room) in
            let (eb, ef, ep) =
              replay_call-IsReported i (record r { printed = r.printed ++ head })
                i.header.record_type h l b r' e' in
            (eb, ef, ep ∙ append_assoc r.printed head (replay_value (last_value r'.printed) ∷ []))
        | inr none_left ↦ absurd (ground (arith, e, none_left))
      ]
