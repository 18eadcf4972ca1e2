-- ===== src/Session/Fits.antt =====
-- The entries of the handlers of fs/trfs fit the record's C types.
use trfs_stackable_filesyste.Common.{
  ℕ, ◌-◌, ◌<◌, ◌≤◌, ◌^◌, ◌≡◌, refl, arith, List, ℤ, pos, negsuc, IsInt32, length, length-take,
  length-drop, length-append, take, drop,
}
use trfs_stackable_filesyste.Record.{IsTraceDs}
use trfs_stackable_filesyste.Entry.{IsEntry}
use trfs_stackable_filesyste.Kernel.{Dentry}
use trfs_stackable_filesyste.Trace.{Second, nothing, path, text, content}
use trfs_stackable_filesyste.Trace.Buffer.{clobber}
use trfs_stackable_filesyste.Trace.Tfile.{logged_entry, SecondFits}

length-clobber : (p1 p2 : List ℕ) → length (clobber p1 p2) ≡ length p1
length-clobber p1 p2 =
    let a = take (length p1 - length p2) p1 in
    let b = drop (length p2 - length p1) p2 in
    omega (
      arith,
      length-append a b,
      length-take (length p1 - length p2) p1,
      length-drop (length p2 - length p1) p2,
    )

module _ {i err : ℤ} {t flags perm n1 n2 n3 : ℕ} where
  header_fits :
      t < 2 ^ 8
      → flags < 2 ^ 32
      → perm < 2 ^ 16
      → IsInt32 err
      → IsInt32 i
      → n1 < 2 ^ 15
      → n2 < 2 ^ 15
      → n3 < 2 ^ 31
      → IsTraceDs (record {
        path_len1 = pos n1;
        path_len2 = pos n2;
        write_len = pos n3;
        record_id = i;
        record_type = t;
        open_flags = flags;
        permission_mode = perm;
        err = err;
      })
  header_fits ht hf hp he hi h1 h2 h3 = record {
    path_len1_fits = h1;
    path_len2_fits = h2;
    write_len_fits = h3;
    record_id_fits = hi;
    record_type_fits = ht;
    open_flags_fits = hf;
    permission_mode_fits = hp;
    err_fits = he;
  }

pub logged_entry-IsEntry :
    (paths : Dentry → List ℕ) (i : ℤ) (t flags perm : ℕ) (err : ℤ) (d : Dentry) (second : Second)
    → t < 2 ^ 8
    → flags < 2 ^ 32
    → perm < 2 ^ 16
    → IsInt32 err
    → IsInt32 i
    → length (paths d) ≤ 255
    → SecondFits paths err second
    → IsEntry (logged_entry paths i t flags perm err d second)
logged_entry-IsEntry paths i t flags perm err d nothing ht hf hp he hi l f = record {
  header_fits = header_fits ht hf hp he hi (omega arith) (omega arith) (omega arith);
  path1_counted = refl;
  path2_counted = refl;
  content_counted = refl;
}
logged_entry-IsEntry paths i t flags perm err d (path e) ht hf hp he hi l f = record {
  header_fits = header_fits ht hf hp he hi (omega arith) (omega arith) (omega arith);
  path1_counted = rw (length-clobber (paths d) (paths e));
  path2_counted = refl;
  content_counted = refl;
}
logged_entry-IsEntry paths i t flags perm err d (text cs) ht hf hp he hi l f = record {
  header_fits = header_fits ht hf hp he hi (omega arith) (f) (omega arith);
  path1_counted = refl;
  path2_counted = refl;
  content_counted = refl;
}
logged_entry-IsEntry paths i t flags perm (pos n) d (content buf) ht hf hp he hi l f = record {
  header_fits =
      header_fits ht hf hp he hi (omega arith) (omega arith) (omega (arith, length-take n buf));
  path1_counted = refl;
  path2_counted = refl;
  content_counted = refl;
}
logged_entry-IsEntry paths i t flags perm (negsuc n) d (content buf) ht hf hp he hi l f = absurd f
