-- ===== src/Trace/Buffer.antt =====
-- The path buffer of the tracing handlers: what `dentry_path_raw` leaves in it for one path, and
-- for a second path in the same buffer.
use native.Mathlib.Decide.{dec_le}
use trfs_stackable_filesyste.Common.{
  ℕ, ◌+◌, ◌-◌, ◌≤◌, ◌<◌, ◌^◌, ◌≡◌, refl, sym, ◌∙◌, arith, some, List, [], ◌∷◌, ◌++◌, pos,
  append_assoc, append-nil, length, take, drop, All, length-append, length-take, take-append,
  drop-append, int16, length-drop, take-append_parts, drop-append_parts, take_of_le, drop_of_le,
  take_zero, drop_zero,
}
use trfs_stackable_filesyste.Trace.{short, strlen}

-- What `strlen` and a read find in a buffer that a path was put into.
pub strlen_lem : (p : List ℕ) → All (λ c. 0 < c) p → strlen (p ++ (0 ∷ [])) ≡ some (length p)
unfolding strlen
strlen_lem [] h = refl
strlen_lem (c ∷ p) h = ground (arith, strlen_lem p h.1)

abbrev pub placed : List ℕ → List ℕ → List ℕ
placed buffer p = take (255 - length p) buffer ++ (p ++ (0 ∷ []))

drop_at : (n : ℕ) (xs ys : List ℕ) → n ≡ length xs → drop n (xs ++ ys) ≡ ys
drop_at n xs ys e = rw e (drop-append xs ys)

pub take_at : (n : ℕ) (xs ys : List ℕ) → n ≡ length xs → take n (xs ++ ys) ≡ xs
take_at n xs ys e = rw e (take-append xs ys)

pub drop-placed :
    (buffer p : List ℕ)
    → length buffer ≡ 256
    → length p ≤ 255
    → drop (255 - length p) (placed buffer p) ≡ p ++ (0 ∷ [])
drop-placed buffer p h l =
    drop_at (255 - length p) (take (255 - length p) buffer) (p ++ (0 ∷ []))
      (omega (arith, length-take (255 - length p) buffer))

pub length-placed :
    (buffer p : List ℕ) → length buffer ≡ 256 → length p ≤ 255 → length (placed buffer p) ≡ 256
length-placed buffer p h l = omega (
  arith,
  length-append (take (255 - length p) buffer) (p ++ (0 ∷ [])),
  length-append p (0 ∷ []),
  length-take (255 - length p) buffer,
)

pub short_lem : (n : ℕ) → n < 2 ^ 15 → short n ≡ pos n
unfolding short int16
short_lem n h = ground arith

-- What is left of a path in the buffer after a second one was put there: the second path covers the
-- end of the first.
abbrev pub clobber : List ℕ → List ℕ → List ℕ
clobber p1 p2 = take (length p1 - length p2) p1 ++ drop (length p2 - length p1) p2

-- A front of length `a`, then `p` and a NUL, cut at `a + n`.
take-front :
    (a n : ℕ) (front p : List ℕ)
    → length front ≡ a
    → n ≤ length p
    → take (a + n) (front ++ (p ++ (0 ∷ []))) ≡ front ++ take n p
take-front a n front p h l =
    let z : List ℕ = 0 ∷ [] in
    let e1 : take (a + n) front ≡ front = take_of_le (a + n) front (omega arith) in
    let e2 : a + n - length front ≡ n = omega arith in
    let e3 : take (n - length p) z ≡ [] = take_zero (n - length p) z (omega arith) in
    take-append_parts (a + n) front (p ++ z) ∙ rw (e1, e2, take-append_parts n p z, e3, append-nil)

take-drop-placed_short :
    (buffer p1 p2 : List ℕ)
    → length buffer ≡ 256
    → length p1 ≤ 255
    → length p2 ≤ length p1
    → take (length p1) (drop (255 - length p1) (placed (placed buffer p1) p2)) ≡ clobber p1 p2
take-drop-placed_short buffer p1 p2 h l1 l2 =
    let z : List ℕ = 0 ∷ [] in
    let a = 255 - length p1 in
    let n = length p1 - length p2 in
    let front = take a buffer in
    let e0 : 255 - length p2 ≡ a + n = omega arith in
    let e1 : length front ≡ a = omega (arith, length-take a buffer) in
    let e2 : drop a ((front ++ take n p1) ++ (p2 ++ z)) ≡ take n p1 ++ (p2 ++ z) =
      rw append_assoc (drop_at a front (take n p1 ++ (p2 ++ z)) (sym e1)) in
    let e3 : take (length p1) ((take n p1 ++ p2) ++ z) ≡ take n p1 ++ p2 =
      take_at (length p1) (take n p1 ++ p2) z
        (omega (arith, length-append (take n p1) p2, length-take n p1)) in
    let e4 : drop (length p2 - length p1) p2 ≡ p2 =
      drop_zero (length p2 - length p1) p2 (omega arith) in
    rw (e0, take-front a n front p1 e1 (omega arith), e2, e4, ← append_assoc (take n p1) p2 z) e3

take-drop-placed_long :
    (buffer p1 p2 : List ℕ)
    → length buffer ≡ 256
    → length p1 ≤ length p2
    → length p2 ≤ 255
    → take (length p1) (drop (255 - length p1) (placed (placed buffer p1) p2)) ≡ clobber p1 p2
take-drop-placed_long buffer p1 p2 h l1 l2 =
    let z : List ℕ = 0 ∷ [] in
    let a = 255 - length p1 in
    let front = take (255 - length p2) (placed buffer p1) in
    let n = length p2 - length p1 in
    let e1 : length front ≡ 255 - length p2 = omega (
      arith,
      length-take (255 - length p2) (placed buffer p1),
      length-placed buffer p1 h (omega arith),
    ) in
    let e2 : drop a front ≡ [] = drop_of_le a front (omega arith) in
    let e3 : a - length front ≡ n = omega arith in
    let e4 : drop (n - length p2) z ≡ z = drop_zero (n - length p2) z (omega arith) in
    let e5 : take (length p1) (drop n p2 ++ z) ≡ drop n p2 =
      take_at (length p1) (drop n p2) z (omega (arith, length-drop n p2)) in
    let e6 : take (length p1 - length p2) p1 ≡ [] =
      take_zero (length p1 - length p2) p1 (omega arith) in
    rw (drop-append_parts a front (p2 ++ z), e2, e3, drop-append_parts n p2 z, e4, e6) e5

pub take-drop-placed :
    (buffer p1 p2 : List ℕ)
    → length buffer ≡ 256
    → length p1 ≤ 255
    → length p2 ≤ 255
    → take (length p1) (drop (255 - length p1) (placed (placed buffer p1) p2)) ≡ clobber p1 p2
take-drop-placed buffer p1 p2 h l1 l2 = elim (dec_le (length p2) (length p1)) [
  | yes p ↦ take-drop-placed_short buffer p1 p2 h l1 p
  | no p ↦ take-drop-placed_long buffer p1 p2 h (omega arith) l2
]
