-- ===== src/Backstop/Pool/Shares.antt =====
-- The exchange rate between backstop shares and tokens: backstop/src/backstop/pool.rs.
use native.Mathlib.Nat.{mul-div_cancel_left, mul-div-le, div-mul-le_self, div-le_of_le-mul}
use blend_contracts.Base.{
  int_laws, ◌⊎◌, inl, inr, sym, ap, ◌∙◌, sym, ap, ◌∙◌, ℕ, ◌+◌, ◌-◌, ◌*◌, ◌/◌, ◌≤◌, ◌<◌, ◌≡◌, arith,
  ℤ, pos, ◌+ℤ◌, ◌-ℤ◌, ◌*ℤ◌, ◌≤ℤ◌, pos-+ℤ, pos--ℤ, pos-*ℤ, parts_of_eq, ok, checked,
}
use blend_contracts.Base.FixedPoint.{FixedPoint, FixedPointLaws}
use blend_contracts.Backstop.Pool.{
  PoolBalance, convert_to_shares, convert_to_tokens, deposit, withdraw,
}

-- What a successful write of the pool's balance holds.
pub deposit_lem :
    (t s : ℤ) (b : PoolBalance) {b' : PoolBalance}
    → deposit t s b ≡ ok b'
    → (b'.tokens ≡ b.tokens +ℤ t) × (b'.shares ≡ b.shares +ℤ s) × (b'.q4w ≡ b.q4w)
unfolding deposit checked
deposit_lem t s b h = ground arith

pub withdraw_lem :
    (t s : ℤ) (b : PoolBalance) {b' : PoolBalance}
    → withdraw t s b ≡ ok b'
    → (b'.tokens ≡ b.tokens -ℤ t)
      × (b'.shares ≡ b.shares -ℤ s)
      × (b'.q4w ≡ b.q4w -ℤ s)
      × (t ≤ℤ b.tokens)
      × (s ≤ℤ b.shares)
      × (s ≤ℤ b.q4w)
unfolding withdraw checked
withdraw_lem t s b h = ground arith

module _ (math : FixedPoint) (laws : FixedPointLaws math) where
  pub convert_to_shares_lem :
      (t S T : ℕ) (b : PoolBalance) {s : ℤ}
      → b.shares ≡ pos S
      → b.tokens ≡ pos T
      → 0 < S
      → 0 < T
      → convert_to_shares math (pos t) b ≡ ok s
      → s ≡ pos (t * S / T)
  unfolding convert_to_shares
  convert_to_shares_lem t S T b {s} eS eT hS hT h = laws.mul_floor_value t S T s hT (ground arith)

  pub convert_to_tokens_lem :
      (s S T : ℕ) (b : PoolBalance) {t : ℤ}
      → b.shares ≡ pos S
      → b.tokens ≡ pos T
      → 0 < S
      → convert_to_tokens math (pos s) b ≡ ok t
      → t ≡ pos (s * T / S)
  unfolding convert_to_tokens
  convert_to_tokens_lem s S T b {t} eS eT hS h = laws.mul_floor_value s T S t hS (ground arith)

  -- No entry: the first deposit is one share for each token.
  pub convert_to_shares_first :
      (t : ℤ) (b : PoolBalance) → b.shares ≡ pos 0 → convert_to_shares math t b ≡ ok t
  unfolding convert_to_shares
  convert_to_shares_first t b e = rw e

  -- Without shares an amount counts as it is.
  convert_to_tokens_empty :
      (t : ℤ) (b : PoolBalance) → b.shares ≡ pos 0 → convert_to_tokens math t b ≡ ok t
  unfolding convert_to_tokens
  convert_to_tokens_empty t b e = rw e

nothing_or : (n : ℕ) → (n ≡ 0) ⊎ (0 < n)
nothing_or n = ground arith

rate_up : (S T t k : ℕ) → T * k ≤ t * S → T * (S + k) ≤ (T + t) * S
rate_up S T t k h = omega arith

rate_diff : (s d r c : ℕ) → r * (s + d) ≤ s * (r + c) → (r + c) * d ≤ c * (s + d)
rate_diff s d r c h = omega arith

rate_split : (S T s r d c : ℕ) → S ≡ s + d → T ≡ r + c → r * S ≤ s * T → T * d ≤ c * S
rate_split S T s r d c e f h = rw (e, f) (rate_diff s d r c (rw (e, f) at h))

rate_down : (S T s r : ℕ) → s ≤ S → r ≤ T → r * S ≤ s * T → T * (S - s) ≤ (T - r) * S
rate_down S T s r hs hr h = rate_split S T s r (S - s) (T - r) (omega arith) (omega arith) h

-- Floor of the tokens behind k shares, where k shares were minted for t tokens.
round_trip : (S T t k : ℕ) → 0 < S → T * k ≤ t * S → k * (T + t) / (S + k) ≤ t
round_trip S T t k hS h = div-le_of_le-mul (S + k) (omega arith)

-- The rate of `b` is at most the rate of `b'`: tokens behind a share, multiplied out.
abbrev pub RateLe : PoolBalance → PoolBalance → Type 0
RateLe b b' = b.tokens *ℤ b'.shares ≤ℤ b'.tokens *ℤ b.shares

module _ (math : FixedPoint) (laws : FixedPointLaws math) where
  -- Where a pool has shares and tokens, a deposit that mints the shares of the current rate leaves
  -- the tokens behind a share as many as before or more.
  pub deposit-RateLe :
      (t S T : ℕ) (b : PoolBalance) {s : ℤ} {b' : PoolBalance}
      → b.shares ≡ pos S
      → b.tokens ≡ pos T
      → 0 < S
      → 0 < T
      → convert_to_shares math (pos t) b ≡ ok s
      → deposit (pos t) s b ≡ ok b'
      → RateLe b b'
  deposit-RateLe t S T b {s} {b'} eS eT hS hT hs hd =
      let e = convert_to_shares_lem math laws t S T b eS eT hS hT hs in
      let l = deposit_lem (pos t) s b hd in
      rw (l.0, l.1, e, eS, eT)
        (simp (pos-+ℤ, pos-*ℤ) (omega (arith, rate_up S T t (t * S / T) (mul-div-le (t * S) T))))

  -- Where a pool has shares, a withdrawal that pays the tokens of the current rate leaves the
  -- tokens behind a share as many as before or more.
  pub withdraw-RateLe :
      (s S T : ℕ) (b : PoolBalance) {t : ℤ} {b' : PoolBalance}
      → b.shares ≡ pos S
      → b.tokens ≡ pos T
      → 0 < S
      → convert_to_tokens math (pos s) b ≡ ok t
      → withdraw t (pos s) b ≡ ok b'
      → RateLe b b'
  withdraw-RateLe s S T b {t} {b'} eS eT hS ht hw =
      let e = convert_to_tokens_lem math laws s S T b eS eT hS ht in
      let l = withdraw_lem t (pos s) b hw in
      let hr : s * T / S ≤ T = omega (arith, parts_of_eq t _ e, parts_of_eq b.tokens _ eT) in
      let hs : s ≤ S = omega (arith, parts_of_eq b.shares _ eS) in
      rw (l.0, l.1, e, eS, eT)
        (rw (pos--ℤ S s hs, pos--ℤ T _ hr)
          (simp pos-*ℤ
            (omega (arith, rate_down S T s (s * T / S) hs hr (div-mul-le_self (s * T) S)))))

  repeat_deposit :
      (t S T : ℕ) (b : PoolBalance) {s r : ℤ} {b' : PoolBalance}
      → b.shares ≡ pos S
      → b.tokens ≡ pos T
      → 0 < S
      → 0 < T
      → convert_to_shares math (pos t) b ≡ ok s
      → deposit (pos t) s b ≡ ok b'
      → convert_to_tokens math s b' ≡ ok r
      → r ≤ℤ pos t
  repeat_deposit t S T b {s} {r} {b'} eS eT hS hT hs hd hr =
      let e = convert_to_shares_lem math laws t S T b eS eT hS hT hs in
      let l = deposit_lem (pos t) s b hd in
      let k : ℕ = t * S / T in
      let eS' : b'.shares ≡ pos (S + k) = rw (l.1, e, eS) (pos-+ℤ S k) in
      let eT' : b'.tokens ≡ pos (T + t) = rw (l.0, eT) (pos-+ℤ T t) in
      let er =
        convert_to_tokens_lem math laws k (S + k) (T + t) b' eS' eT' (omega arith) (rw e at hr) in
      rw er (omega (arith, round_trip S T t k hS (mul-div-le (t * S) T)))

  -- With no shares before, the whole pool belongs to the new ones.
  first_deposit :
      (t T : ℕ) (b : PoolBalance) {s r : ℤ} {b' : PoolBalance}
      → b.shares ≡ pos 0
      → b.tokens ≡ pos T
      → convert_to_shares math (pos t) b ≡ ok s
      → deposit (pos t) s b ≡ ok b'
      → convert_to_tokens math s b' ≡ ok r
      → (r ≤ℤ pos t) ⊎ (r ≡ pos (T + t))
  first_deposit t T b {s} {r} {b'} eS eT hs hd hr =
      let m : ok (pos t) ≡ ok s = sym (convert_to_shares_first math laws (pos t) b eS) ∙ hs in
      let e : s ≡ pos t = cc in
      let l = deposit_lem (pos t) s b hd in
      let eS' : b'.shares ≡ pos t = rw (l.1, e, eS) (omega int_laws) in
      let eT' : b'.tokens ≡ pos (T + t) = rw (l.0, eT) (pos-+ℤ T t) in
      elim (nothing_or t) [
        | inl z ↦
            let n = convert_to_tokens_empty math laws s b' (eS' ∙ ap pos z) in
            let same : ok s ≡ ok r = sym n ∙ hr in let q : r ≡ pos t = cc in inl (omega int_laws)
        | inr ht ↦
            let er = convert_to_tokens_lem math laws t t (T + t) b' eS' eT' ht (rw e at hr) in
            inr (er ∙ ap pos (mul-div_cancel_left (T + t) ht))
      ]

  -- Where a pool that has shares also has tokens, the shares minted for a deposit at the current rate
  -- are worth at most the deposit right after it, or the pool had no shares and they are worth all its
  -- tokens, those that were donated before included.
  pub deposit-convert_to_tokens :
      (t S T : ℕ) (b : PoolBalance) {s r : ℤ} {b' : PoolBalance}
      → b.shares ≡ pos S
      → b.tokens ≡ pos T
      → (S ≡ 0) ⊎ (0 < T)
      → convert_to_shares math (pos t) b ≡ ok s
      → deposit (pos t) s b ≡ ok b'
      → convert_to_tokens math s b' ≡ ok r
      → (r ≤ℤ pos t) ⊎ ((S ≡ 0) × (r ≡ pos (T + t)))
  deposit-convert_to_tokens t S T b eS eT h hs hd hr = elim (nothing_or S) [
    | inl z ↦ elim (first_deposit t T b (eS ∙ ap pos z) eT hs hd hr) [
      | inl le ↦ inl le
      | inr all ↦ inr (z, all)
    ]
    | inr hS ↦
        let hT : 0 < T = elim h [ inl z ↦ absurd (omega arith) | inr hT ↦ hT ] in
        inl (repeat_deposit t S T b eS eT hS hT hs hd hr)
  ]
