-- ===== src/Ctl/Bits.antt =====
-- What the arguments of the control program do to a mask, bit by bit.
use trfs_stackable_filesyste.Common.{
  ℕ, ◌+◌, ◌/◌, ◌%◌, ◌^◌, ◌<◌, ◌≡◌, refl, inl, inr, arith, List, [], ◌∷◌, ℤ, ◌==◌, if◌then◌else◌,
  Bool-cases,
}
use trfs_stackable_filesyste.Record.Calls.{by_call_below}
use trfs_stackable_filesyste.Ctl.{Posix, Ctl, names, bit, add_bit, sub_bit, put_map, test_names}

-- Of `r` and `r'` the bits above and below `b` are the same, and the bit `b` of `r'` is `v`.
abbrev pub SetsBit : ℕ → ℕ → ℕ → ℕ → Type 0
SetsBit b v r r' = (r' / 2 ^ (b + 1) ≡ r / 2 ^ (b + 1)) × (bit b r' ≡ v) × (r' % 2 ^ b ≡ r % 2 ^ b)

-- The name of a call, as the program tests for it.
abbrev pub name_of : ℕ → List (List ℕ × ℕ) → List ℕ
name_of i [] = []
name_of i ((name, b) ∷ ns) = if i == b then name else name_of i ns

add_bit_sets : (b r : ℕ) → b < 12 → r < 2 ^ 64 → bit b r ≡ 0 → SetsBit b 1 r (add_bit b r)
add_bit_sets b r h =
    by_call_below (λ b. r < 2 ^ 64 → bit b r ≡ 0 → SetsBit b 1 r (add_bit b r))
      (λ l z. (omega arith, omega arith, omega arith))
      (λ l z. (omega arith, omega arith, omega arith))
      (λ l z. (omega arith, omega arith, omega arith))
      (λ l z. (omega arith, omega arith, omega arith))
      (λ l z. (omega arith, omega arith, omega arith))
      (λ l z. (omega arith, omega arith, omega arith))
      (λ l z. (omega arith, omega arith, omega arith))
      (λ l z. (omega arith, omega arith, omega arith))
      (λ l z. (omega arith, omega arith, omega arith))
      (λ l z. (omega arith, omega arith, omega arith))
      (λ l z. (omega arith, omega arith, omega arith))
      (λ l z. (omega arith, omega arith, omega arith)) b h

sub_bit_sets : (b r : ℕ) → b < 12 → r < 2 ^ 64 → bit b r ≡ 1 → SetsBit b 0 r (sub_bit b r)
sub_bit_sets b r h =
    by_call_below (λ b. r < 2 ^ 64 → bit b r ≡ 1 → SetsBit b 0 r (sub_bit b r))
      (λ l z. (omega arith, omega arith, omega arith))
      (λ l z. (omega arith, omega arith, omega arith))
      (λ l z. (omega arith, omega arith, omega arith))
      (λ l z. (omega arith, omega arith, omega arith))
      (λ l z. (omega arith, omega arith, omega arith))
      (λ l z. (omega arith, omega arith, omega arith))
      (λ l z. (omega arith, omega arith, omega arith))
      (λ l z. (omega arith, omega arith, omega arith))
      (λ l z. (omega arith, omega arith, omega arith))
      (λ l z. (omega arith, omega arith, omega arith))
      (λ l z. (omega arith, omega arith, omega arith))
      (λ l z. (omega arith, omega arith, omega arith)) b h

module _ {S : Type 0} (p : Posix S) (fd : ℤ) where
  on_sets :
      (b : ℕ) (c : Ctl S)
      → b < 12
      → c.map < 2 ^ 64
      → SetsBit b 1 c.map (if bit b c.map == 0 then put_map p fd (add_bit b c.map) c else c).map
  on_sets b c h l = elim (Bool-cases (bit b c.map == 0)) [
    | inl e ↦ rw e (add_bit_sets b c.map h l (ground arith))
    | inr e ↦ rw e (refl, (ground arith), refl)
  ]

  off_sets :
      (b : ℕ) (c : Ctl S)
      → b < 12
      → c.map < 2 ^ 64
      → SetsBit b 0 c.map (if bit b c.map == 1 then put_map p fd (sub_bit b c.map) c else c).map
  off_sets b c h l = elim (Bool-cases (bit b c.map == 1)) [
    | inl e ↦ rw e (sub_bit_sets b c.map h l (ground arith))
    | inr e ↦ rw e (refl, (ground arith), refl)
  ]

  test_names_set :
      (i : ℕ) (c : Ctl S)
      → i < 12
      → c.map < 2 ^ 64
      → SetsBit i 1 c.map (test_names p fd (43 ∷ name_of i names) names c).map
  unfolding test_names
  test_names_set i c h l =
      by_call_below (λ i. SetsBit i 1 c.map (test_names p fd (43 ∷ name_of i names) names c).map)
        (on_sets 0 c (omega arith) l) (on_sets 1 c (omega arith) l) (on_sets 2 c (omega arith) l)
        (on_sets 3 c (omega arith) l) (on_sets 4 c (omega arith) l) (on_sets 5 c (omega arith) l)
        (on_sets 6 c (omega arith) l) (on_sets 7 c (omega arith) l) (on_sets 8 c (omega arith) l)
        (on_sets 9 c (omega arith) l) (on_sets 10 c (omega arith) l) (on_sets 11 c (omega arith) l)
        i h

  test_names_clear :
      (i : ℕ) (c : Ctl S)
      → i < 12
      → c.map < 2 ^ 64
      → SetsBit i 0 c.map (test_names p fd (45 ∷ name_of i names) names c).map
  unfolding test_names
  test_names_clear i c h l =
      by_call_below (λ i. SetsBit i 0 c.map (test_names p fd (45 ∷ name_of i names) names c).map)
        (off_sets 0 c (omega arith) l) (off_sets 1 c (omega arith) l) (off_sets 2 c (omega arith) l)
        (off_sets 3 c (omega arith) l) (off_sets 4 c (omega arith) l) (off_sets 5 c (omega arith) l)
        (off_sets 6 c (omega arith) l) (off_sets 7 c (omega arith) l) (off_sets 8 c (omega arith) l)
        (off_sets 9 c (omega arith) l) (off_sets 10 c (omega arith) l)
        (off_sets 11 c (omega arith) l) i h

  -- An argument `+` and the name of one of the twelve calls sets the call's bit in an `unsigned long`
  -- and leaves all others; an argument `-` and the name clears the bit and leaves all others.
  pub test_names-SetsBit :
      (i : ℕ) (c : Ctl S)
      → i < 12
      → c.map < 2 ^ 64
      → SetsBit i 1 c.map (test_names p fd (43 ∷ name_of i names) names c).map
        × SetsBit i 0 c.map (test_names p fd (45 ∷ name_of i names) names c).map
  test_names-SetsBit i c h l = (test_names_set i c h l, test_names_clear i c h l)
