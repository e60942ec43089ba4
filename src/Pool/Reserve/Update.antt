-- ===== src/Pool/Reserve/Update.antt =====
-- Bringing a reserve up to date: `Reserve::load` of pool/src/pool/reserve.rs.
use blend_contracts.Base.{
  unwrap_ok, ℕ, zero, suc, ◌+◌, ◌-◌, ◌*◌, ◌/◌, ◌≤◌, ◌<◌, ◌≡◌, refl, parts_of_eq, true, some, arith,
  ltb, ◌==◌, if◌then◌else◌, ℤ, pos, negsuc, pos_part, +ℤ_parts, -ℤ_parts, ◌≤ℤ◌, ◌<ℤ◌, ltb_ℤ, eqb_ℤ,
  pos_of_nonneg, ok, unwrap, add_i128, sub_i128, checked_ok, Ensures, Ensures-ok, Ensures-bind,
  Ensures-if,
}
use blend_contracts.Base.FixedPoint.{FixedPoint, FixedPointLaws}
use blend_contracts.Base.Host.{Env}
use blend_contracts.Pool.State.{PoolConfig, ReserveConfig, scalar_7, scalar_9}
use blend_contracts.Pool.Interest.{calc_accrual}
use blend_contracts.Pool.Interest.Accrual.{calc_accrual-bounds}
use blend_contracts.Pool.Reserve.{
  Reserve, to_asset_from_b_token, to_asset_from_d_token, total_supply, total_liabilities,
  utilization, credit_interest, accrue, update,
}
use blend_contracts.Pool.Reserve.Quotients.{d_rate_up, owed_mono, credit_small}
use blend_contracts.Pool.Reserve.Growth.{
  IsSound, supplied, owed, Grows, SameShares, unpaid_Grows, paid_Grows, same_Grows, with_time,
}
use native.Mathlib.Nat.{zero-div}

pos_part_mono : (a b : ℤ) → pos 0 ≤ℤ a → a ≤ℤ b → pos_part a ≤ pos_part b
pos_part_mono (pos a) (pos b) n h = omega arith
pos_part_mono (pos a) (negsuc b) n h = absurd (omega arith)
pos_part_mono (negsuc a) b n h = absurd (omega arith)

sum_pos :
    (a b c : ℤ) → pos 0 ≤ℤ a → pos 0 ≤ℤ b → add_i128 a b ≡ ok c → c ≡ pos (pos_part a + pos_part b)
sum_pos a b c ha hb h = let e = checked_ok _ h in let s = +ℤ_parts a b in ground arith

diff_pos : (a b : ℕ) (c : ℤ) → b ≤ a → sub_i128 (pos a) (pos b) ≡ ok c → c ≡ pos (a - b)
diff_pos a b c l h = let e = checked_ok _ h in let s = -ℤ_parts (pos a) (pos b) in ground arith

zero_credit : (A : ℕ) → A * 0 / scalar_7 ≡ 0
zero_credit A = let e : A * 0 ≡ 0 = omega arith in rw e (zero-div scalar_7)

credit_value :
    (math : FixedPoint) (laws : FixedPointLaws math) (rate A : ℕ) (c : ℤ)
    → (if ltb 0 rate then unwrap (math.mul_floor (pos A) (pos rate) (pos scalar_7)) else ok (pos 0))
      ≡ ok c
    → c ≡ pos (A * rate / scalar_7)
credit_value math laws zero A c h = rw (zero_credit A) (ground arith)
credit_value math laws (suc rate) A c h =
    laws.mul_floor_value A (suc rate) scalar_7 c (omega arith) (ground arith)

credit_add :
    (rate A : ℕ) (x c k : ℤ)
    → pos 0 ≤ℤ x
    → c ≡ pos (A * rate / scalar_7)
    → (if ltb 0 rate then add_i128 x c else ok x) ≡ ok k
    → k ≡ pos (pos_part x + A * rate / scalar_7)
credit_add zero A x c k hx ec h = rw (zero_credit A) (ground (arith, pos_of_nonneg x hx))
credit_add (suc rate) A x c k hx ec h =
    let positive : ltb 0 (suc rate) ≡ true = ground arith in
    let e : add_i128 x c ≡ ok k = rw positive at h in
    rw (sum_pos x c k hx (rw ec (omega arith)) e) (ground (arith, ec))

-- The backstop's part of the interest, rounded down.
abbrev credit : PoolConfig → ℕ → ℕ
credit config A = A * config.bstop_rate / scalar_7

module _ (math : FixedPoint) (laws : FixedPointLaws math) (r : Reserve) (sound : IsSound r) where
  total_supply_lem : (p : ℤ) → total_supply math r ≡ ok p → p ≡ pos (supplied r)
  unfolding total_supply to_asset_from_b_token
  total_supply_lem p h = laws.mul_floor_value _ _ _ p (omega arith) (
      ground (
        arith,
        pos_of_nonneg r.b_supply sound.b_supply,
        pos_of_nonneg r.b_rate sound.b_rate,
        unwrap_ok _ h,
      ))

  total_liabilities_lem : (p : ℤ) → total_liabilities math r ≡ ok p → p ≡ pos (owed r)
  unfolding total_liabilities to_asset_from_d_token
  total_liabilities_lem p h = laws.mul_ceil_value _ _ _ p (omega arith) (
      ground (
        arith,
        pos_of_nonneg r.d_supply sound.d_supply,
        pos_of_nonneg r.d_rate sound.d_rate,
        unwrap_ok _ h,
      ))

  div_value : (l p : ℕ) (v : ℤ) → math.div_ceil (pos l) (pos p) (pos scalar_7) ≡ some v → pos 0 ≤ℤ v
  div_value l zero v h = absurd (cc (laws.div_ceil_zero (pos l) (pos scalar_7), h))
  div_value l (suc p) v h =
      rw (laws.div_ceil_value l (suc p) scalar_7 v (omega arith) h) (omega arith)

  utilization_nonneg : Ensures (λ u. pos 0 ≤ℤ u) (utilization math r)
  unfolding utilization
  utilization_nonneg = Ensures-bind (total_liabilities math r) _ λ l el.
      Ensures-bind (total_supply math r) _ λ p ep. record {
        at = λ u eu.
            let h : math.div_ceil l p (pos scalar_7) ≡ some u = unwrap_ok _ eu in
            div_value (owed r) (supplied r) u
              (rw (total_liabilities_lem l el, total_supply_lem p ep) at h);
      }

module _ (math : FixedPoint) (laws : FixedPointLaws math) (e : Env) (config : PoolConfig) where
  div_floor_at :
      (kept B b : ℤ) {n : ℕ}
      → kept ≡ pos n
      → pos 0 ≤ℤ B
      → unwrap (math.div_floor kept B (pos scalar_9)) ≡ ok b
      → math.div_floor (pos n) (pos (pos_part B)) (pos scalar_9) ≡ some b
  div_floor_at kept B b ek hB h =
      let h' : math.div_floor kept B (pos scalar_9) ≡ some b = unwrap_ok _ h in
      ground (arith, pos_of_nonneg B hB)

  credit_interest_lem :
      (P A : ℕ) (r : Reserve)
      → IsSound r
      → pos 0 <ℤ r.b_supply
      → 0 < A
      → config.bstop_rate < scalar_7
      → Ensures
          (λ r'.
            (r'.b_supply ≡ r.b_supply)
            × (r'.d_supply ≡ r.d_supply)
            × (r'.d_rate ≡ r.d_rate)
            × (r'.ir_mod ≡ r.ir_mod)
            × (r'.backstop_credit ≡ pos (pos_part r.backstop_credit + credit config A))
            × (r'.b_rate ≡ pos ((P + A - credit config A) * scalar_9 / pos_part r.b_supply)))
          (credit_interest math e config (pos P) (pos A) r)
  unfolding credit_interest
  credit_interest_lem P A r sound hb hA hr =
      Ensures-bind
        (if ltb 0 config.bstop_rate
          then unwrap (math.mul_floor (pos A) (pos config.bstop_rate) (pos scalar_7))
          else ok (pos 0))
        _
        λ c ec.
          Ensures-bind
            (if ltb 0 config.bstop_rate then add_i128 r.backstop_credit c else ok r.backstop_credit)
            _
            λ k ek. Ensures-bind (add_i128 (pos P) (pos A)) _ λ g eg.
              Ensures-bind (sub_i128 g c) _ λ kept eq.
                Ensures-bind (unwrap (math.div_floor kept r.b_supply (pos scalar_9))) _ λ b eb.
                  let vc = credit_value math laws config.bstop_rate A c ec in
                  let small = credit_small A config.bstop_rate scalar_7 (omega arith) hA hr in
                  let vg = sum_pos (pos P) (pos A) g (omega arith) (omega arith) eg in
                  let vk =
                    diff_pos (P + A) (credit config A) kept (omega (arith, small))
                      (rw (vg, vc) at eq) in
                  Ensures-ok _ (
                    refl,
                    refl,
                    refl,
                    refl,
                    credit_add config.bstop_rate A r.backstop_credit c k sound.backstop_credit vc
                        ek,
                    laws.div_floor_value (P + A - credit config A) (pos_part r.b_supply) scalar_9 b
                        (omega arith) (div_floor_at kept r.b_supply b vk sound.b_supply eb),
                  )

  -- The growth of the borrowers' rate.
  d_rate_growth :
      (r : Reserve) (a d : ℤ)
      → IsSound r
      → pos scalar_9 ≤ℤ a
      → unwrap (math.mul_ceil a r.d_rate (pos scalar_9)) ≡ ok d
      → r.d_rate ≤ℤ d
  d_rate_growth r a d sound ha h =
      let h' : math.mul_ceil a r.d_rate (pos scalar_9) ≡ some d = unwrap_ok _ h in
      let n : pos 0 ≤ℤ a = omega (arith, ha) in
      let v =
        laws.mul_ceil_value (pos_part a) (pos_part r.d_rate) scalar_9 d (omega arith)
          (ground (arith, pos_of_nonneg a n, pos_of_nonneg r.d_rate sound.d_rate)) in
      let up =
        d_rate_up (pos_part a) (pos_part r.d_rate) scalar_9 (omega arith) (omega (arith, ha)) in
      rw v (omega (arith, up, sound.d_rate))

  -- The last step of an update: `r₁` has the new rate of the borrowers.
  share_interest :
      (i : ℤ) (r r₁ : Reserve)
      → IsSound r₁
      → pos 0 <ℤ r₁.b_supply
      → config.bstop_rate < scalar_7
      → SameShares r r₁
      → r.d_rate ≤ℤ r₁.d_rate
      → owed r ≤ owed r₁
      → i ≡ pos (owed r₁ - owed r)
      → Ensures (Grows r) (
          if ltb_ℤ (pos 0) i then credit_interest math e config (pos (supplied r₁)) i r₁ else ok r₁)
  share_interest i r r₁ s₁ hb hr same up mono ei =
      Ensures-if (ltb_ℤ (pos 0) i) _ _
        (λ h. rw ei (record { at = paid (ground (arith, parts_of_eq i _ ei, h)) }))
        (λ h. Ensures-ok _ (unpaid_Grows r r₁ s₁ same up (ground (arith, h, ei, mono))))
    where
      paid :
          0 < owed r₁ - owed r
          → (r₂ : Reserve)
          → credit_interest math e config (pos (supplied r₁)) (pos (owed r₁ - owed r)) r₁ ≡ ok r₂
          → Grows r r₂
      paid hA r₂ h =
          let A = owed r₁ - owed r in
          let l = (credit_interest_lem (supplied r₁) A r₁ s₁ hb hA hr).at r₂ h in
          paid_Grows r r₁ r₂ A (credit config A) s₁ hb same up (omega (arith, mono))
            (credit_small A config.bstop_rate scalar_7 (omega arith) hA hr) l.0 l.1 l.2 l.3 l.4 l.5

  accrue_lem :
      (config' : ReserveConfig) (u : ℤ) (r : Reserve)
      → IsSound r
      → pos 0 <ℤ u
      → pos 0 <ℤ r.b_supply
      → config.bstop_rate < scalar_7
      → Ensures (Grows r) (accrue math e config config' u r)
  unfolding accrue
  accrue_lem config' u r sound hu hb hr =
      Ensures-bind (calc_accrual math e config' u r.ir_mod r.last_time) _ λ a ea.
        Ensures-bind (total_supply math r) _ λ p ep.
          Ensures-bind (total_liabilities math r) _ λ l el.
            Ensures-bind (unwrap (math.mul_ceil a.0 r.d_rate (pos scalar_9))) _ λ d ed.
              let ba =
                (calc_accrual-bounds math laws e config' u r.ir_mod r.last_time hu sound.lower
                    sound.upper).at
                  a ea in
              let up = d_rate_growth r a.0 d sound ba.0 ed in
              let r₁ : Reserve = record r { ir_mod = a.1; d_rate = d } in
              let s₁ : IsSound r₁ = record {
                b_supply = sound.b_supply;
                d_supply = sound.d_supply;
                b_rate = sound.b_rate;
                d_rate = omega (arith, up, sound.d_rate);
                backstop_credit = sound.backstop_credit;
                lower = ba.1;
                upper = ba.2;
              } in
              let mono =
                owed_mono (pos_part r.d_supply) (pos_part r.d_rate) (pos_part d) scalar_9
                  (omega arith) (pos_part_mono r.d_rate d sound.d_rate up) in
              Ensures-bind (total_liabilities math r₁) _ λ l' el'.
                Ensures-bind (sub_i128 l' l) _ λ i ei.
                  Ensures-bind
                    (if ltb_ℤ (pos 0) i then credit_interest math e config p i r₁ else ok r₁) _
                    λ r₂ e₂.
                      let vl = total_liabilities_lem math laws r sound l el in
                      let vl' = total_liabilities_lem math laws r₁ s₁ l' el' in
                      let vp = total_supply_lem math laws r sound p ep in
                      let g =
                        (share_interest i r r₁ s₁ hb hr
                            (record {
                              b_supply = refl;
                              d_supply = refl;
                              b_rate = refl;
                              backstop_credit = refl;
                            })
                            up mono (diff_pos (owed r₁) (owed r) i mono (rw (vl, vl') at ei))).at
                          r₂ (rw vp at e₂) in
                      Ensures-ok _ (with_time r r₂ e.timestamp g)

  -- Where a reserve has no negative amount and a rate modifier between 0.1 and 10, and the
  -- backstop's rate is below one, every result of bringing it up to date has these properties too,
  -- with the same supplies. Neither rate is lower than before, and the suppliers' tokens and the
  -- backstop's credit grow together by at most what the borrowers owe more.
  pub update-Grows :
      (config' : ReserveConfig) (r : Reserve)
      → IsSound r
      → config.bstop_rate < scalar_7
      → Ensures (Grows r) (update math e config config' r)
  unfolding update
  update-Grows config' r sound hr =
      Ensures-if (e.timestamp == r.last_time) _ _ (λ _. Ensures-ok r (same_Grows r sound))
        λ _.
          Ensures-if (eqb_ℤ r.b_supply (pos 0)) _ _
            (λ _. Ensures-ok _ (with_time r r e.timestamp (same_Grows r sound)))
            λ some_b. Ensures-bind (utilization math r) _ λ u eu.
              Ensures-if (eqb_ℤ u (pos 0)) _ _
                (λ _. Ensures-ok _ (with_time r r e.timestamp (same_Grows r sound)))
                λ some_u.
                  accrue_lem config' u r sound
                    (ground (arith, (utilization_nonneg math laws r sound).at u eu))
                    (ground (arith, sound.b_supply)) hr
