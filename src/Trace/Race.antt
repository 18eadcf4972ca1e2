-- ===== src/Trace/Race.antt =====
-- What holds when handlers of fs/trfs log at the same time, and what is lost.
use trfs_stackable_filesyste.Common.{
  ℕ, suc, ◌+◌, ◌≤◌, ◌<◌, ◌^◌, ◌≡◌, refl, sym, ◌∙◌, arith, List, [], ◌∷◌, ℤ, pos, length, bits32,
  int32,
}
use trfs_stackable_filesyste.Kernel.{Kernel, State, ok}
use trfs_stackable_filesyste.Trace.{find_path, find_second, append_record, next_id}
use trfs_stackable_filesyste.Trace.Stages.{
  Job, Locals, load, append, store, Stage, waiting, loaded, appended, finished, Moved, here, there,
  Runs, begin, loads, appends, stores, world_moves, is_finished, count_finished,
}

-- From `n` on, but not beyond `b`.
abbrev pub Between : ℕ → ℕ → ℤ → Type 0
Between n b z = (m : ℕ) × (z ≡ pos m) × (n ≤ m) × (m ≤ b)

-- The ids of a handler under way.
abbrev pub IdBetween : ℕ → ℕ → Stage → Type 0
IdBetween n b (loaded l) = Between n b l.rec_id × (l.tracer.record_id ≡ l.rec_id)
IdBetween n b (appended l) = Between n b l.rec_id × (l.tracer.record_id ≡ l.rec_id)
IdBetween n b (waiting j) = Unit
IdBetween n b finished = Unit

abbrev pub AllBetween : ℕ → ℕ → List Stage → Type 0
AllBetween n b [] = Unit
AllBetween n b (x ∷ xs) = IdBetween n b x × AllBetween n b xs

abbrev pub all_waiting : List Job → List Stage
all_waiting [] = []
all_waiting (j ∷ js) = waiting j ∷ all_waiting js

Between-later : (n b c : ℕ) (z : ℤ) → b ≤ c → Between n b z → Between n c z
Between-later n b c z h (m, e, l, g) = (m, e, l, omega (arith, g, h))

IdBetween-later : (n b c : ℕ) (x : Stage) → b ≤ c → IdBetween n b x → IdBetween n c x
IdBetween-later n b c (loaded l) h (q, e) = (Between-later n b c l.rec_id h q, e)
IdBetween-later n b c (appended l) h (q, e) = (Between-later n b c l.rec_id h q, e)
IdBetween-later n b c (waiting j) h q = tt
IdBetween-later n b c finished h q = tt

AllBetween-later : (n b c : ℕ) (xs : List Stage) → b ≤ c → AllBetween n b xs → AllBetween n c xs
AllBetween-later n b c [] h q = tt
AllBetween-later n b c (x ∷ xs) h (q, qs) =
    (IdBetween-later n b c x h q, AllBetween-later n b c xs h qs)

-- One handler moves: how many are done, and the ids of the others.
count_finished-Moved :
    (a c : Stage) (xs ys : List Stage)
    → Moved a c xs ys
    → is_finished a + count_finished ys ≡ is_finished c + count_finished xs
count_finished-Moved a c xs ys here = omega arith
count_finished-Moved a c xs ys (there x m) = omega (arith, count_finished-Moved a c _ _ m)

count_finished-same :
    (a c : Stage) (xs ys : List Stage)
    → Moved a c xs ys
    → is_finished a ≡ is_finished c
    → count_finished ys ≡ count_finished xs
count_finished-same a c xs ys m e = omega (arith, count_finished-Moved a c xs ys m)

length-Moved : (a c : Stage) (xs ys : List Stage) → Moved a c xs ys → length ys ≡ length xs
length-Moved a c xs ys here = refl
length-Moved a c xs ys (there x m) = omega (arith, length-Moved a c _ _ m)

AllBetween-Moved :
    (n b : ℕ) (a c : Stage) (xs ys : List Stage)
    → Moved a c xs ys
    → AllBetween n b xs
    → IdBetween n b a × (IdBetween n b c → AllBetween n b ys)
AllBetween-Moved n b a c xs ys here (q, qs) = (q, λ r. (r, qs))
AllBetween-Moved n b a c xs ys (there x m) (q, qs) =
    let (r, f) = AllBetween-Moved n b a c _ _ m qs in (r, λ g. (q, f g))

count_finished-le : (xs : List Stage) → count_finished xs ≤ length xs
count_finished-le [] = omega arith
count_finished-le (waiting j ∷ xs) = omega (arith, count_finished-le xs)
count_finished-le (loaded l ∷ xs) = omega (arith, count_finished-le xs)
count_finished-le (appended l ∷ xs) = omega (arith, count_finished-le xs)
count_finished-le (finished ∷ xs) = omega (arith, count_finished-le xs)

count_finished-all_waiting : (js : List Job) → count_finished (all_waiting js) ≡ 0
count_finished-all_waiting [] = refl
count_finished-all_waiting (j ∷ js) = omega (arith, count_finished-all_waiting js)

length-all_waiting : (js : List Job) → length (all_waiting js) ≡ length js
length-all_waiting [] = refl
length-all_waiting (j ∷ js) = omega (arith, length-all_waiting js)

AllBetween-all_waiting : (n b : ℕ) (js : List Job) → AllBetween n b (all_waiting js)
AllBetween-all_waiting n b [] = tt
AllBetween-all_waiting n b (j ∷ js) = (tt, AllBetween-all_waiting n b js)

pub next_id_lem : (m : ℕ) → suc m < 2 ^ 31 → next_id (pos m) ≡ pos (suc m)
unfolding next_id bits32 int32
next_id_lem m h = ground arith

module _ {W : Type 0} (k : Kernel W) where
  load-sb :
      (j : Job) (l : Locals) (u v : State W)
      → load k j u ≡ ok (l, v)
      → (v.sb ≡ u.sb) × (l.rec_id ≡ u.sb.record_id) × (l.tracer.record_id ≡ u.sb.record_id)
  unfolding load find_path find_second
  load-sb j l u v h = ground arith

  append-sb : (l : Locals) (u v : State W) → append k l u ≡ ok (tt, v) → v.sb ≡ u.sb
  unfolding append_record
  append-sb l u v h = ground arith

  store-sb :
      (l : Locals) (u v : State W) → store k l u ≡ ok (tt, v) → v.sb.record_id ≡ next_id l.rec_id
  store-sb l u v h = ground arith

  -- The record id, and those of the handlers under way, are from `n` to `b`.
  pub record IsBounded (n b : ℕ) (s : State W) (xs : List Stage) : Type 0 where
    pub id : Between n b s.sb.record_id
    pub stages : AllBetween n b xs

  loads-IsBounded :
      (n b : ℕ) (j : Job) (l : Locals) (u v : State W) (ys zs : List Stage)
      → IsBounded n b u ys
      → Moved (waiting j) (loaded l) ys zs
      → load k j u ≡ ok (l, v)
      → IsBounded n b v zs
  loads-IsBounded n b j l u v ys zs q m h =
      let (es, el, et) = load-sb j l u v h in
      let (_, f) = AllBetween-Moved n b (waiting j) (loaded l) ys zs m q.stages in
      record { id = rw es q.id; stages = f (rw el q.id, et ∙ sym el) }

  appends-IsBounded :
      (n b : ℕ) (l : Locals) (u v : State W) (ys zs : List Stage)
      → IsBounded n b u ys
      → Moved (loaded l) (appended l) ys zs
      → append k l u ≡ ok (tt, v)
      → IsBounded n b v zs
  appends-IsBounded n b l u v ys zs q m h =
      let (r, f) = AllBetween-Moved n b (loaded l) (appended l) ys zs m q.stages in
      record { id = rw (append-sb l u v h) q.id; stages = f r }

  stores-IsBounded :
      (n b : ℕ) (l : Locals) (u v : State W) (ys zs : List Stage)
      → suc b < 2 ^ 31
      → IsBounded n b u ys
      → Moved (appended l) finished ys zs
      → store k l u ≡ ok (tt, v)
      → IsBounded n (suc b) v zs
  stores-IsBounded n b l u v ys zs lt q m h =
      let (((i, e, lo, hi), _), f) = AllBetween-Moved n b (appended l) finished ys zs m q.stages in
      let next : next_id l.rec_id ≡ pos (suc i) = rw e (next_id_lem i (omega arith)) in
      record {
        id = (suc i, store-sb l u v h ∙ next, omega arith, omega arith);
        stages = AllBetween-later n b (suc b) zs (omega arith) (f tt);
      }

  Runs-length :
      (s : State W) (xs : List Stage) (v : State W) (ys : List Stage)
      → Runs k s xs v ys
      → length ys ≡ length xs
  Runs-length s xs v ys begin = refl
  Runs-length s xs v ys (loads {u = u} {ys = zs} j l p m h) =
      length-Moved (waiting j) (loaded l) zs ys m ∙ Runs-length s xs u zs p
  Runs-length s xs v ys (appends {u = u} {ys = zs} l p m h) =
      length-Moved (loaded l) (appended l) zs ys m ∙ Runs-length s xs u zs p
  Runs-length s xs v ys (stores {u = u} {ys = zs} l p m h) =
      length-Moved (appended l) finished zs ys m ∙ Runs-length s xs u zs p
  Runs-length s xs v ys (world_moves {u = u} w p) = Runs-length s xs u ys p

  -- Handlers that log at the same time, in all fewer than 2^31 with what was counted before, their stages
  -- in any order: the record id never falls below where it was, and never runs ahead of the handlers that
  -- are done; so too the id of a record that a handler writes.
  pub Runs-IsBounded :
      (n : ℕ) (js : List Job) (s v : State W) (ys : List Stage)
      → s.sb.record_id ≡ pos n
      → n + length js < 2 ^ 31
      → Runs k s (all_waiting js) v ys
      → IsBounded n (n + count_finished ys) v ys
  Runs-IsBounded n js s v ys e lt begin = record {
    id = (n, e, omega arith, omega arith);
    stages = AllBetween-all_waiting n (n + count_finished (all_waiting js)) js;
  }
  Runs-IsBounded n js s v ys e lt (loads {u = u} {ys = zs} j l p m h) =
      rw (count_finished-same (waiting j) (loaded l) zs ys m refl) (
        loads-IsBounded n (n + count_finished zs) j l u v zs ys (Runs-IsBounded n js s u zs e lt p)
          m h)
  Runs-IsBounded n js s v ys e lt (appends {u = u} {ys = zs} l p m h) =
      rw (count_finished-same (loaded l) (appended l) zs ys m refl) (
        appends-IsBounded n (n + count_finished zs) l u v zs ys (Runs-IsBounded n js s u zs e lt p)
          m h)
  Runs-IsBounded n js s v ys e lt (stores {u = u} {ys = zs} l p m h) =
      let more : n + count_finished ys ≡ suc (n + count_finished zs) =
        omega (arith, count_finished-Moved (appended l) finished zs ys m) in
      let few : suc (n + count_finished zs) < 2 ^ 31 = omega (
        arith,
        count_finished-Moved (appended l) finished zs ys m,
        count_finished-le ys,
        length-Moved (appended l) finished zs ys m,
        Runs-length s (all_waiting js) u zs p,
        length-all_waiting js,
      ) in
      rw more (
        stores-IsBounded n (n + count_finished zs) l u v zs ys few
          (Runs-IsBounded n js s u zs e lt p) m h)
  Runs-IsBounded n js s v ys e lt (world_moves {u = u} w p) =
      let q = Runs-IsBounded n js s u ys e lt p in record { id = q.id; stages = q.stages }

  -- If a second handler reads the record id before the first has stored the next one, both have a record
  -- with the same id, and whichever of them stores, in whatever state, it stores the one id behind it.
  pub store-lost :
      (i j : Job) (l m : Locals) (s u u' v w : State W)
      → load k i s ≡ ok (l, u)
      → u'.sb ≡ u.sb
      → load k j u' ≡ ok (m, v)
      → let next = record w { sb = record (w.sb) { record_id = next_id s.sb.record_id } } in
        (store k l w ≡ ok (tt, next))
        × (store k m w ≡ ok (tt, next))
        × (l.tracer.record_id ≡ s.sb.record_id)
        × (m.tracer.record_id ≡ s.sb.record_id)
  store-lost i j l m s u u' v w a e b =
      let (e1, l1, t1) = load-sb i l s u a in
      let (e2, l2, t2) = load-sb j m u' v b in
      (ground (arith, l1), ground (arith, l2, e, e1), t1, ground (arith, t2, e, e1))
