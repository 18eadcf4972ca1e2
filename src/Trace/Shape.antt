-- ===== src/Trace/Shape.antt =====
-- What the shared block does to the module's own state.
use trfs_stackable_filesyste.Common.{ℕ, ◌+◌, ◌≡◌, arith, inl, inr, ℤ, if◌then◌else◌}
use trfs_stackable_filesyste.Kernel.{
  Dentry, Kernel, State, Outcome, ok, oops, world_of, Outcome-cases,
}
use trfs_stackable_filesyste.Trace.{
  next_id, Second, nothing, path, text, content, find_path, find_second, append_record, trace,
  trace_if_set, is_traced,
}

-- The state after an entry was logged, or not.
abbrev pub logged_state : {W : Type 0} → State W → W → State W
logged_state s w = record s {
  sb = record (s.sb) { record_id = next_id s.sb.record_id };
  live = s.live + 3;
  world = w;
}

module _ {W : Type 0} (k : Kernel W) where
  -- If the block returns, it has made three blocks and counted the record id on, has given back the
  -- trace file and the address limit, and has changed nothing else of the module's state.
  pub trace_shape :
      (t flags perm : ℕ) (err : ℤ) (d : Dentry) (second : Second) (s s' : State W) (n : ℕ)
      → trace k t flags perm err d second s ≡ ok (n, s')
      → (n ≡ 3) × (s' ≡ logged_state s s'.world)
  unfolding trace append_record find_path find_second
  trace_shape t flags perm err d nothing s s' n h = ground arith
  trace_shape t flags perm err d (path e) s s' n h = ground arith
  trace_shape t flags perm err d (text e) s s' n h = ground arith
  trace_shape t flags perm err d (content e) s s' n h = ground arith

  -- So too with the test of the mask; the block is passed over where the bit is not set. The result
  -- and the world are the step's own.
  abbrev stepped : ℕ → State W → Outcome (ℕ × W) → Outcome (ℕ × State W)
  stepped t s oops = oops
  stepped t s (ok (n, w)) = ok (
    n,
    record s {
      sb = record (s.sb) {
        record_id = if is_traced s.sb.mask t then next_id s.sb.record_id else s.sb.record_id;
      };
      live = s.live + n;
      world = w;
    },
  )

  pub trace_if_set_shape :
      (t flags perm : ℕ) (err : ℤ) (d : Dentry) (second : Second) (s : State W)
      → trace_if_set k t flags perm err d second s
        ≡ stepped t s (world_of (trace_if_set k t flags perm err d second s))
  unfolding trace_if_set world_of
  trace_if_set_shape t flags perm err d second s =
      elim (Outcome-cases (trace k t flags perm err d second s)) [
        | inl e ↦ ground arith
        | inr ((n, s'), e) ↦ ground (arith, trace_shape t flags perm err d second s s' n)
      ]
