-- ===== src/Replay.antt =====
-- The reader of the trace file, `main` of hw2/treplay.c: the loop over the records.
pub mod Total
pub mod Call
pub mod Print
pub mod Program
pub mod RoundTrip
use trfs_stackable_filesyste.Common.{
  ℕ, zero, suc, ◌+◌, ◌-◌, ◌^◌, Bool, true, false, Option, none, some, List, ℤ, pos, negsuc, ltb,
  leb, ◌==◌, if◌then◌else◌, length, take, drop,
}
use trfs_stackable_filesyste.Record.{TraceDs, load_trace_ds, sizeof_trace_ds}

-- How a run of a user program goes on: with a value; it reads or writes where it may not; or, which
-- is no behaviour of the program, the fuel of a loop is used up.
pub data Run {ℓ} (A : Type ℓ) : Type ℓ where
  done : A → Run A
  fault : Run A
  stuck : Run A

infixl 5 ◌>>=◌ ◌>>◌
abbrev pub ◌>>=◌ {ℓ κ} : {A : Type ℓ} {B : Type κ} → Run A → (A → Run B) → Run B
done a >>= f = f a
fault >>= f = fault
stuck >>= f = stuck

abbrev pub ◌>>◌ {ℓ κ} : {A : Type ℓ} {B : Type κ} → Run A → Run B → Run B
m >> f = m >>= λ _. f

-- A record with the buffers for its paths and its content, of which the last two may be NULL.
pub record Item : Type 0 where
  pub header : TraceDs
  pub path1 : List ℕ
  pub path2 : Option (List ℕ)
  pub content : Option (List ℕ)

-- `memcpy(p, source, n)` into a block of `n` bytes. A negative `n` is a huge `size_t`.
unfoldable pub copy : List ℕ → ℤ → Run (List ℕ)
copy source (pos n) = if leb n (length source) then done (take n source) else fault
copy source (negsuc n) = fault

-- `if (n != 0) p = memcpy(malloc(n), source, n);`: otherwise `p` keeps what it was.
unfoldable pub copy_if : List ℕ → ℤ → Option (List ℕ) → Run (Option (List ℕ))
copy_if source (pos zero) old = done old
copy_if source (pos (suc n)) old = do block ← copy source (pos (suc n)); done (some block)
copy_if source (negsuc n) old = fault

-- A length that was copied is not negative.
abbrev pub size : ℤ → ℕ
size (pos n) = n
size (negsuc n) = 0

-- The record at the front of what is left of the buffer.
unfoldable pub read_record : List ℕ → Option (List ℕ) → Option (List ℕ) → Run Item
unfolding copy copy_if
read_record rest path2 content = elim (load_trace_ds rest) [
  | none ↦ fault
  | some tracer ↦ (do
    let after = drop sizeof_trace_ds rest
    pathbuf1 ← copy after tracer.path_len1
    let after1 = drop (size tracer.path_len1) after
    pathbuf2 ← copy_if after1 tracer.path_len2 path2
    pathbuf3 ← copy_if (drop (size tracer.path_len2) after1) tracer.write_len content
    done (record { header = tracer; path1 = pathbuf1; path2 = pathbuf2; content = pathbuf3 }))
]

-- The bytes that a record takes up.
abbrev pub record_size : TraceDs → ℕ
record_size r = sizeof_trace_ds + size r.path_len1 + size r.path_len2 + size r.write_len

-- `prev_rec_size` is an `int`: past its range it is negative, and the next read is out of bounds.
abbrev pub advance : ℕ → TraceDs → Run ℕ
advance prev r = if ltb (prev + record_size r) (2 ^ 31) then done (prev + record_size r) else fault

-- The loop. `visit` is its body past the reading, and says whether to go on. `pathbuf2` and
-- `content` live across the rounds.
module _ {S : Type 0} (visit : Item → S → Run (Bool × S)) where
  unfoldable pub replay_loop : ℕ → List ℕ → ℕ → Option (List ℕ) → Option (List ℕ) → S → Run S
  replay_loop zero buffer prev path2 content s = stuck
  replay_loop (suc fuel) buffer prev path2 content s = elim (ltb prev (length buffer - 1)) [
    | false ↦ done s
    | true ↦ (do
      item ← read_record (drop prev buffer) path2 content
      (go_on, s') ← visit item s
      elim go_on [
        | false ↦ done s'
        | true ↦ advance prev item.header >>= λ prev'.
            replay_loop fuel buffer prev' item.path2 item.content s'
      ])
  ]

  -- One round more than the buffer has bytes.
  unfoldable pub replay_file : List ℕ → S → Run S
  replay_file buffer s = replay_loop (suc (length buffer)) buffer 0 none none s
