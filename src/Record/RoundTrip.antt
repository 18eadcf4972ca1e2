-- ===== src/Record/RoundTrip.antt =====
-- A record read back from the bytes that it was stored as.
use trfs_stackable_filesyste.Common.{
  ℕ, zero, suc, ◌+◌, ◌/◌, ◌%◌, ◌^◌, ◌≤◌, ◌<◌, ◌≡◌, refl, ap, ◌∙◌, arith, List, [], ◌∷◌, ◌++◌, some,
}
use trfs_stackable_filesyste.Common.{
  ℤ, IsInt16, IsInt32, bits16, int16, bits32, int32, int16-bits16, int32-bits32, bits16-lt,
  bits32-lt, take, drop, length,
}
use trfs_stackable_filesyste.Record.{
  TraceDs, IsTraceDs, store_trace_ds, load_trace_ds, sizeof_trace_ds, of_le16, of_le32,
}

le16_lem : (w : ℕ) → w < 2 ^ 16 → of_le16 (w % 2 ^ 8) (w / 2 ^ 8 % 2 ^ 8) ≡ w
le16_lem w h = omega arith

le32_lem :
    (w : ℕ)
    → w < 2 ^ 32
    → of_le32 (w % 2 ^ 8) (w / 2 ^ 8 % 2 ^ 8) (w / 2 ^ 16 % 2 ^ 8) (w / 2 ^ 24 % 2 ^ 8) ≡ w
le32_lem w h = omega arith

mod_lem : (w m : ℕ) → w < m → w % m ≡ w
mod_lem w m h = grind arith

-- The parts of a block that the padding keeps have their full length.
two_of :
    (n : ℕ) (xs : List ℕ)
    → n + 2 ≤ length xs
    → (a : ℕ) × (b : ℕ) × (take 2 (drop n xs) ≡ a ∷ b ∷ [])
two_of zero [] h = absurd (omega arith)
two_of zero (a ∷ []) h = absurd (omega arith)
two_of zero (a ∷ b ∷ xs) h = (a, b, refl)
two_of (suc n) [] h = absurd (omega arith)
two_of (suc n) (x ∷ xs) h = two_of n xs (omega arith)

three_of :
    (n : ℕ) (xs : List ℕ)
    → n + 3 ≤ length xs
    → (a : ℕ) × (b : ℕ) × (c : ℕ) × (take 3 (drop n xs) ≡ a ∷ b ∷ c ∷ [])
three_of zero [] h = absurd (omega arith)
three_of zero (a ∷ []) h = absurd (omega arith)
three_of zero (a ∷ b ∷ []) h = absurd (omega arith)
three_of zero (a ∷ b ∷ c ∷ xs) h = (a, b, c, refl)
three_of (suc n) [] h = absurd (omega arith)
three_of (suc n) (x ∷ xs) h = three_of n xs (omega arith)

stored16 : (z : ℤ) → IsInt16 z → int16 (of_le16 (bits16 z % 2 ^ 8) (bits16 z / 2 ^ 8 % 2 ^ 8)) ≡ z
stored16 z h = ap int16 (le16_lem (bits16 z) (bits16-lt z)) ∙ int16-bits16 z h

stored32 :
    (z : ℤ)
    → IsInt32 z
    → int32 (
        of_le32
          (bits32 z % 2 ^ 8)
          (bits32 z / 2 ^ 8 % 2 ^ 8)
          (bits32 z / 2 ^ 16 % 2 ^ 8)
          (bits32 z / 2 ^ 24 % 2 ^ 8))
      ≡ z
stored32 z h = ap int32 (le32_lem (bits32 z) (bits32-lt z)) ∙ int32-bits32 z h

flags_lem :
    (w : ℕ)
    → w < 2 ^ 32
    → of_le32
        (w % 2 ^ 32 % 2 ^ 8)
        (w % 2 ^ 32 / 2 ^ 8 % 2 ^ 8)
        (w % 2 ^ 32 / 2 ^ 16 % 2 ^ 8)
        (w % 2 ^ 32 / 2 ^ 24 % 2 ^ 8)
      ≡ w
flags_lem w h = omega arith

mode_lem : (w : ℕ) → w < 2 ^ 16 → of_le16 (w % 2 ^ 16 % 2 ^ 8) (w % 2 ^ 16 / 2 ^ 8 % 2 ^ 8) ≡ w
mode_lem w h = omega arith

-- What is stored for a record whose fields fit is read back as that record, whatever the padding
-- held and whatever follows.
pub load-store :
    (r : TraceDs) (block rest : List ℕ)
    → IsTraceDs r
    → length block ≡ sizeof_trace_ds
    → load_trace_ds (store_trace_ds r block ++ rest) ≡ some r
unfolding store_trace_ds load_trace_ds
load-store r block rest v h =
    let (p0, p1, p2, e) = three_of 13 block (omega arith) in
    let (q0, q1, e') = two_of 22 block (omega arith) in
    rw (e, e')
      (λ i. some (record {
        path_len1 = stored16 r.path_len1 v.path_len1_fits i;
        path_len2 = stored16 r.path_len2 v.path_len2_fits i;
        write_len = stored32 r.write_len v.write_len_fits i;
        record_id = stored32 r.record_id v.record_id_fits i;
        record_type = mod_lem r.record_type (2 ^ 8) v.record_type_fits i;
        open_flags = flags_lem r.open_flags v.open_flags_fits i;
        permission_mode = mode_lem r.permission_mode v.permission_mode_fits i;
        err = stored32 r.err v.err_fits i;
      }))

pub length-store :
    (r : TraceDs) (block : List ℕ)
    → length block ≡ sizeof_trace_ds
    → length (store_trace_ds r block) ≡ sizeof_trace_ds
unfolding store_trace_ds
length-store r block h =
    let (p0, p1, p2, e) = three_of 13 block (omega arith) in
    let (q0, q1, e') = two_of 22 block (omega arith) in rw (e, e') refl

-- A record is read only where its 28 bytes are.
pub load_takes :
    (bytes : List ℕ) (r : TraceDs) → load_trace_ds bytes ≡ some r → sizeof_trace_ds ≤ length bytes
unfolding load_trace_ds
load_takes
      (_ ∷ _ ∷ _ ∷ _ ∷ _ ∷ _ ∷ _ ∷ _ ∷ _ ∷ _ ∷ _ ∷ _ ∷ _ ∷ _ ∷ _ ∷ _ ∷ _ ∷ _ ∷ _ ∷ _ ∷ _ ∷ _ ∷ _ ∷ _
        ∷ _ ∷ _ ∷ _ ∷ _ ∷ rest)
      r e =
    omega arith
load_takes _ r e = cc
