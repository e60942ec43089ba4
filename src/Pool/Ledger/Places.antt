-- ===== src/Pool/Ledger/Places.antt =====
-- The places of the list of reserves: `push_res_list` of pool/src/storage.rs.
use blend_contracts.Base.{
  suc, length, nth, ℕ, ◌+◌, ◌-◌, ◌≡◌, inl, inr, refl, false, Bool-cases, none, some, List, [], ◌∷◌,
  ◌++◌, arith, ◌==◌,
}
use blend_contracts.Base.Host.{Address}

pub nth-length : (a : Address) (l : List Address) → nth (length l) (l ++ (a ∷ [])) ≡ some a
nth-length a [] = ground arith
nth-length a (b ∷ l) =
    let e : suc (length l) - 1 ≡ length l = omega arith in
    let n : (suc (length l) == 0) ≡ false = ground arith in rw (n, e) (nth-length a l)

pub nth-length-none : (l : List Address) → nth (length l) l ≡ none
nth-length-none [] = refl
nth-length-none (b ∷ l) =
    let e : suc (length l) - 1 ≡ length l = omega arith in
    let n : (suc (length l) == 0) ≡ false = ground arith in rw (n, e) (nth-length-none l)

pub length-++ : (a : Address) (l : List Address) → length (l ++ (a ∷ [])) ≡ length l + 1
length-++ a [] = omega arith
length-++ a (b ∷ l) = let h = length-++ a l in omega arith

pub nth-++_some :
    (i : ℕ) (a b : Address) (l : List Address) → nth i l ≡ some b → nth i (l ++ (a ∷ [])) ≡ some b
nth-++_some i a b [] h = absurd (cc h)
nth-++_some i a b (c ∷ l) h = elim (Bool-cases (i == 0)) [
  | inl t ↦ rw t (rw t at h)
  | inr f ↦ rw f (nth-++_some (i - 1) a b l (rw f at h))
]

pub nth-++_none :
    (i : ℕ) (a : Address) (l : List Address) → nth i (l ++ (a ∷ [])) ≡ none → nth i l ≡ none
nth-++_none i a [] h = refl
nth-++_none i a (c ∷ l) h = elim (Bool-cases (i == 0)) [
  | inl t ↦ absurd (cc (rw t at h))
  | inr f ↦ rw f (nth-++_none (i - 1) a l (rw f at h))
]
