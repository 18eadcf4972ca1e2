-- ===== src/Session/Returned.antt =====
-- The result that a traced call of fs/trfs logs, and the one it returns.
use trfs_stackable_filesyste.Common.{
  ℕ, ◌≡◌, ◌⊎◌, sym, ◌∙◌, arith, true, ℤ, pos, inl, inr, is_error, Bool-cases,
}
use trfs_stackable_filesyste.Record.{create_call, mkdir_call}

-- The result in the record of a call `t` that returned `e`: the same, but that trfs_create and trfs_mkdir
-- log the lower call's success before trfs_interpose can still fail.
abbrev pub AsReturned : ℕ → ℤ → ℤ → Type 0
AsReturned t e err =
    (err ≡ e) ⊎ ((err ≡ pos 0) × (is_error e ≡ true) × ((t ≡ create_call) ⊎ (t ≡ mkdir_call)))

pub logged_before :
    (t : ℕ) (e err : ℤ)
    → (t ≡ create_call) ⊎ (t ≡ mkdir_call)
    → (is_error err ≡ true → e ≡ err)
    → AsReturned t e err
logged_before t e err h g = elim (Bool-cases (is_error err)) [
  | inl bad ↦ inl (sym (g bad))
  | inr good ↦ elim (Bool-cases (is_error e)) [
    | inl bad ↦ inr (ground arith, bad, h)
    | inr fine ↦ inl (ground arith)
  ]
]

pub returned_on : (t : ℕ) (e err x : ℤ) → AsReturned t e err → AsReturned t err x → AsReturned t e x
returned_on t e err x (inl p) (inl q) = inl (q ∙ p)
returned_on t e err x (inl p) (inr q) = inr (rw (← p) q)
returned_on t e err x (inr p) (inl q) = rw q (inr p)
returned_on t e err x (inr p) (inr q) = absurd (ground arith)
