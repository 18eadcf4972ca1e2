-- ===== src/Record.antt =====
-- `struct trfs_trace_ds` of fs/trfs/trfs.h and hw2/treplay.h, and its image in memory: 28 bytes,
-- lowest byte first, with three bytes of padding behind `record_type` and two behind
-- `permission_mode`.
pub mod RoundTrip
pub mod Calls
use trfs_stackable_filesyste.Common.{
  ℕ, ◌+◌, ◌*◌, ◌/◌, ◌%◌, ◌^◌, ◌<◌, List, [], ◌∷◌, ◌++◌, Option, none, some,
}
use trfs_stackable_filesyste.Common.{ℤ, bits16, int16, bits32, int32, IsInt16, IsInt32, take, drop}

-- The numbers of the traced calls.
abbrev pub open_call : ℕ
open_call = 0

abbrev pub read_call : ℕ
read_call = 1

abbrev pub write_call : ℕ
write_call = 2

abbrev pub release_call : ℕ
release_call = 3

abbrev pub create_call : ℕ
create_call = 4

abbrev pub link_call : ℕ
link_call = 5

abbrev pub unlink_call : ℕ
unlink_call = 6

abbrev pub symlink_call : ℕ
symlink_call = 7

abbrev pub mkdir_call : ℕ
mkdir_call = 8

abbrev pub rmdir_call : ℕ
rmdir_call = 9

abbrev pub mknod_call : ℕ
mknod_call = 10

abbrev pub rename_call : ℕ
rename_call = 11

pub record TraceDs : Type 0 where
  pub path_len1 : ℤ
  pub path_len2 : ℤ
  pub write_len : ℤ
  pub record_id : ℤ
  pub record_type : ℕ
  pub open_flags : ℕ
  pub permission_mode : ℕ
  pub err : ℤ

-- Every field is a value of its C type.
pub record IsTraceDs (r : TraceDs) : Type 0 where
  pub path_len1_fits : IsInt16 r.path_len1
  pub path_len2_fits : IsInt16 r.path_len2
  pub write_len_fits : IsInt32 r.write_len
  pub record_id_fits : IsInt32 r.record_id
  pub record_type_fits : r.record_type < 2 ^ 8
  pub open_flags_fits : r.open_flags < 2 ^ 32
  pub permission_mode_fits : r.permission_mode < 2 ^ 16
  pub err_fits : IsInt32 r.err

-- sizeof(struct trfs_trace_ds)
abbrev pub sizeof_trace_ds : ℕ
sizeof_trace_ds = 28

abbrev pub le16 : ℕ → List ℕ
le16 w = (w % 2 ^ 8) ∷ (w / 2 ^ 8 % 2 ^ 8) ∷ []

abbrev pub le32 : ℕ → List ℕ
le32 w = (w % 2 ^ 8) ∷ (w / 2 ^ 8 % 2 ^ 8) ∷ (w / 2 ^ 16 % 2 ^ 8) ∷ (w / 2 ^ 24 % 2 ^ 8) ∷ []

-- The struct's image in a block of 28 bytes whose padding keeps what the block held.
unfoldable pub store_trace_ds : TraceDs → List ℕ → List ℕ
store_trace_ds r block =
    le16 (bits16 r.path_len1)
    ++ (le16 (bits16 r.path_len2)
        ++ (le32 (bits32 r.write_len)
            ++ (le32 (bits32 r.record_id)
                ++ ((r.record_type % 2 ^ 8)
                    ∷ (take 3 (drop 13 block)
                        ++ (le32 (r.open_flags % 2 ^ 32)
                            ++ (le16 (r.permission_mode % 2 ^ 16)
                                ++ (take 2 (drop 22 block) ++ le32 (bits32 r.err)))))))))

abbrev pub of_le16 : ℕ → ℕ → ℕ
of_le16 a b = a + b * 2 ^ 8

abbrev pub of_le32 : ℕ → ℕ → ℕ → ℕ → ℕ
of_le32 a b c d = a + b * 2 ^ 8 + c * 2 ^ 16 + d * 2 ^ 24

-- `memcpy(tracer, p, 28)` and the fields of `*tracer`; `none` if `p` has fewer than 28 bytes.
unfoldable pub load_trace_ds : List ℕ → Option TraceDs
load_trace_ds
      (a0 ∷ a1 ∷ b0 ∷ b1 ∷ c0 ∷ c1 ∷ c2 ∷ c3 ∷ d0 ∷ d1 ∷ d2 ∷ d3 ∷ t ∷ p0 ∷ p1 ∷ p2 ∷ f0 ∷ f1 ∷ f2
        ∷ f3 ∷ m0 ∷ m1 ∷ q0 ∷ q1 ∷ e0 ∷ e1 ∷ e2 ∷ e3 ∷ rest) =
    some (record {
      path_len1 = int16 (of_le16 a0 a1);
      path_len2 = int16 (of_le16 b0 b1);
      write_len = int32 (of_le32 c0 c1 c2 c3);
      record_id = int32 (of_le32 d0 d1 d2 d3);
      record_type = t;
      open_flags = of_le32 f0 f1 f2 f3;
      permission_mode = of_le16 m0 m1;
      err = int32 (of_le32 e0 e1 e2 e3);
    })
load_trace_ds _ = none
