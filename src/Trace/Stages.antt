-- ===== src/Trace/Stages.antt =====
-- The shared block of fs/trfs/file.c and fs/trfs/inode.c in three stages, and its runs by several
-- handlers at once: nothing keeps one from running between the stages of another. A stage is taken as a
-- whole, although even the writes of one `append` can be apart.
use trfs_stackable_filesyste.Common.{ℕ, ◌+◌, ◌≡◌, arith, List, [], ◌∷◌, ℤ}
use trfs_stackable_filesyste.Record.{TraceDs}
use trfs_stackable_filesyste.Kernel.{
  Dentry, Kernel, State, ok, M, pure, ◌>>=◌, ◌>>◌, read_state, kmalloc,
}
use trfs_stackable_filesyste.Trace.{
  Second, Place, Extra, find_path, find_second, append_record, set_record_id, next_id, short, trace,
}

-- What one handler logs.
pub record Job : Type 0 where
  pub rec_type : ℕ
  pub open_flags : ℕ
  pub perm_mode : ℕ
  pub err : ℤ
  pub dentry : Dentry
  pub second : Second

-- Its local variables, once the paths are found.
pub record Locals : Type 0 where
  pub rec_id : ℤ
  pub tracer : TraceDs
  pub place : Place
  pub extra : Extra

module _ {W : Type 0} (k : Kernel W) where
  -- `rec_id = sb_info->record_id;` and the paths.
  unfoldable pub load : Job → M W Locals
  load j = do
    s ← read_state
    let rec_id = s.sb.record_id
    buffer ← kmalloc k 256
    (buffer1, p) ← find_path k j.dentry buffer
    extra ← find_second k j.second j.err buffer1
    pure (record {
      rec_id = rec_id;
      tracer = record {
        path_len1 = short p.len;
        path_len2 = extra.path_len2;
        write_len = extra.write_len;
        record_id = rec_id;
        record_type = j.rec_type;
        open_flags = j.open_flags;
        permission_mode = j.perm_mode;
        err = j.err;
      };
      place = p;
      extra = extra;
    })

  abbrev pub append : Locals → M W (Unit {0})
  append l = append_record k l.tracer l.place l.extra

  -- `sb_info->record_id = ++rec_id;`
  abbrev pub store : Locals → M W (Unit {0})
  store l = set_record_id k (next_id l.rec_id)

  -- One after the other they are the block.
  pub trace-stages :
      (j : Job) (s : State W)
      → trace k j.rec_type j.open_flags j.perm_mode j.err j.dentry j.second s
        ≡ (do l ← load j; append l; store l; pure 3) s
  unfolding load trace
  trace-stages j s = ground arith

-- Where a handler is.
pub data Stage : Type 0 where
  waiting : Job → Stage
  loaded : Locals → Stage
  appended : Locals → Stage
  finished : Stage

-- One of the handlers has gone from the first stage to the second.
pub data Moved (a b : Stage) : List Stage → List Stage → Type 0 where
  here : {xs : List Stage} → Moved a b (a ∷ xs) (b ∷ xs)
  there : {xs ys : List Stage} (c : Stage) → Moved a b xs ys → Moved a b (c ∷ xs) (c ∷ ys)

module _ {W : Type 0} (k : Kernel W) where
  -- Any number of handlers that run their stages in any order.
  pub data Runs (s : State W) (xs : List Stage) : State W → List Stage → Type 0 where
    begin : Runs s xs s xs
    loads :
        {u v : State W} {ys zs : List Stage} (j : Job) (l : Locals)
        → Runs s xs u ys
        → Moved (waiting j) (loaded l) ys zs
        → load k j u ≡ ok (l, v)
        → Runs s xs v zs
    appends :
        {u v : State W} {ys zs : List Stage} (l : Locals)
        → Runs s xs u ys
        → Moved (loaded l) (appended l) ys zs
        → append k l u ≡ ok (tt, v)
        → Runs s xs v zs
    stores :
        {u v : State W} {ys zs : List Stage} (l : Locals)
        → Runs s xs u ys
        → Moved (appended l) finished ys zs
        → store k l u ≡ ok (tt, v)
        → Runs s xs v zs
    world_moves :
        {u : State W} {ys : List Stage} (w : W)
        → Runs s xs u ys
        → Runs s xs (record u { world = w }) ys

-- How many are done.
abbrev pub is_finished : Stage → ℕ
is_finished finished = 1
is_finished (waiting j) = 0
is_finished (loaded l) = 0
is_finished (appended l) = 0

abbrev pub count_finished : List Stage → ℕ
count_finished [] = 0
count_finished (x ∷ xs) = is_finished x + count_finished xs
