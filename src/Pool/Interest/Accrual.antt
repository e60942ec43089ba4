-- ===== src/Pool/Interest/Accrual.antt =====
-- The whole of `calc_accrual` of pool/src/pool/interest.rs.
use native.Mathlib.Nat.{zero-div}
use blend_contracts.Base.{
  unwrap_ok, ℕ, ◌≡◌, arith, ltb, if◌then◌else◌, ℤ, pos, negsuc, +ℤ_parts, -ℤ_parts, ◌≤ℤ◌, ◌<ℤ◌,
  leb_ℤ, div_ℤ, pos-*ℤ, pos_of_nonneg, ok, unwrap, add_i128, sub_i128, mul_i128, sub_u, add_u,
  checked_ok, Ensures, Ensures-ok, Ensures-bind, Ensures-if,
}
use blend_contracts.Base.FixedPoint.{FixedPoint, FixedPointLaws}
use blend_contracts.Base.Host.{Env}
use blend_contracts.Pool.State.{ReserveConfig, scalar_7, scalar_9, seconds_per_year}
use blend_contracts.Pool.Interest.{
  current_ir, next_ir_mod, delta_time, calc_accrual, util_limit, ir_mod_max, ir_mod_min,
}
use blend_contracts.Pool.Interest.Bounds.{mul_ceil_nonneg, div_ceil_nonneg, next_ir_mod-bounds}

add_nonneg : (a b c : ℤ) → pos 0 ≤ℤ a → pos 0 ≤ℤ b → add_i128 a b ≡ ok c → (pos 0 ≤ℤ c) × (a ≤ℤ c)
add_nonneg a b c ha hb h =
    let e = checked_ok _ h in let s = +ℤ_parts a b in rw e (ground (arith, s))

scaled_nonneg : (n m : ℕ) (d : ℤ) → mul_i128 (pos n) (pos m) ≡ ok d → pos 0 ≤ℤ d
scaled_nonneg n m d h = rw (checked_ok _ h, pos-*ℤ n m) (omega arith)

sub_pos : (a b c : ℤ) → b <ℤ a → sub_i128 a b ≡ ok c → pos 0 <ℤ c
sub_pos a b c h e = let s = -ℤ_parts a b in rw (checked_ok _ e) (ground (arith, s))

delta_time_nonneg : (e : Env) (t : ℕ) → Ensures (λ d. pos 0 ≤ℤ d) (delta_time e t)
unfolding delta_time
delta_time_nonneg e t =
    Ensures-bind (if ltb e.timestamp t then sub_u e.timestamp 500 else ok t) _ λ last _.
      Ensures-bind (sub_u e.timestamp last) _ λ n _. record { at = λ d h. scaled_nonneg n _ d h }

mul_nonneg : (a c : ℤ) → pos 0 ≤ℤ a → mul_i128 a (pos 100) ≡ ok c → pos 0 ≤ℤ c
mul_nonneg a c h e = rw (checked_ok _ e, pos_of_nonneg a h, pos-*ℤ) (omega arith)

div_ℤ_nonneg : (a : ℤ) (d : ℕ) → pos 0 ≤ℤ a → pos 0 ≤ℤ div_ℤ a d
unfolding div_ℤ
div_ℤ_nonneg (pos n) d h = rw (zero-div d) (ground arith)
div_ℤ_nonneg (negsuc n) d h = absurd (omega arith)

module _ (math : FixedPoint) (laws : FixedPointLaws math) where
  current_ir_nonneg :
      (config : ReserveConfig) (cur_util ir_mod : ℤ)
      → pos 0 <ℤ cur_util
      → pos 0 ≤ℤ ir_mod
      → Ensures (λ r. pos 0 ≤ℤ r) (current_ir math config cur_util ir_mod)
  unfolding current_ir
  current_ir_nonneg config cur_util ir_mod hu hm =
      Ensures-if (leb_ℤ cur_util (pos config.util)) _ _
        (λ low.
          Ensures-bind (unwrap (math.div_ceil cur_util (pos config.util) (pos scalar_7))) _ λ u eu.
            Ensures-bind (unwrap (math.mul_ceil u (pos config.r_one) (pos scalar_7))) _ λ sl es.
              Ensures-bind (add_i128 sl (pos config.r_base)) _ λ b eb.
                let nu =
                  div_ceil_nonneg math laws cur_util _ u _ (ground arith) (omega arith)
                    (unwrap_ok _ eu) in
                let ns =
                  mul_ceil_nonneg math laws u _ sl _ (omega arith) nu (omega arith)
                    (unwrap_ok _ es) in
                let nb = (add_nonneg sl _ b ns (omega arith) eb).0 in
                record {
                  at = λ r h.
                      mul_ceil_nonneg math laws b ir_mod r _ (omega arith) nb hm (unwrap_ok _ h);
                })
        (λ high.
          Ensures-if (leb_ℤ cur_util (pos util_limit)) _ _
            (λ mid. Ensures-bind (sub_i128 cur_util (pos config.util)) _ λ a ea.
              Ensures-bind (sub_i128 (pos util_limit) (pos config.util)) _ λ w ew.
                Ensures-bind (unwrap (math.div_ceil a w (pos scalar_7))) _ λ u eu.
                  Ensures-bind (unwrap (math.mul_ceil u (pos config.r_two) (pos scalar_7))) _
                    λ sl es. Ensures-bind (add_i128 sl (pos config.r_one)) _ λ o eo.
                      Ensures-bind (add_i128 o (pos config.r_base)) _ λ b eb.
                        let na = sub_pos cur_util (pos config.util) a (ground arith) ea in
                        let nw = sub_pos (pos util_limit) (pos config.util) w (ground arith) ew in
                        let nu =
                          div_ceil_nonneg math laws a w u _ nw (omega (arith, na))
                            (unwrap_ok _ eu) in
                        let ns =
                          mul_ceil_nonneg math laws u _ sl _ (omega arith) nu (omega arith)
                            (unwrap_ok _ es) in
                        let no = (add_nonneg sl _ o ns (omega arith) eo).0 in
                        let nb = (add_nonneg o _ b no (omega arith) eb).0 in
                        record {
                          at = λ r h.
                              mul_ceil_nonneg math laws b ir_mod r _ (omega arith) nb hm
                                (unwrap_ok _ h);
                        })
            (λ top. Ensures-bind (sub_i128 cur_util (pos util_limit)) _ λ a ea.
              Ensures-bind (unwrap (math.div_ceil a (pos 500000) (pos scalar_7))) _ λ u eu.
                Ensures-bind (unwrap (math.mul_ceil u (pos config.r_three) (pos scalar_7))) _
                  λ x ex. Ensures-bind (add_u 32 config.r_two config.r_one) _ λ t _.
                    Ensures-bind (add_u 32 t config.r_base) _ λ rates _.
                      Ensures-bind (unwrap (math.mul_ceil ir_mod (pos rates) (pos scalar_9))) _
                        λ y ey.
                          let na = sub_pos cur_util (pos util_limit) a (ground arith) ea in
                          let nu =
                            div_ceil_nonneg math laws a _ u _ (omega arith) (omega (arith, na))
                              (unwrap_ok _ eu) in
                          let nx =
                            mul_ceil_nonneg math laws u _ x _ (omega arith) nu (omega arith)
                              (unwrap_ok _ ex) in
                          let ny =
                            mul_ceil_nonneg math laws ir_mod _ y _ (omega arith) hm (omega arith)
                              (unwrap_ok _ ey) in
                          record { at = λ r h. (add_nonneg x y r nx ny h).0 }))

  -- For a positive utilization and a rate modifier between 0.1 and 10, every computed accrual is a
  -- factor of one or more, and the new rate modifier is between 0.1 and 10.
  pub calc_accrual-bounds :
      (e : Env) (config : ReserveConfig) (cur_util ir_mod : ℤ) (last_time : ℕ)
      → pos 0 <ℤ cur_util
      → ir_mod_min ≤ℤ ir_mod
      → ir_mod ≤ℤ ir_mod_max
      → Ensures
          (λ r. (pos scalar_9 ≤ℤ r.0) × (ir_mod_min ≤ℤ r.1) × (r.1 ≤ℤ ir_mod_max))
          (calc_accrual math e config cur_util ir_mod last_time)
  unfolding calc_accrual
  calc_accrual-bounds e config cur_util ir_mod last_time hu lo hi =
      Ensures-bind (current_ir math config cur_util ir_mod) _ λ ir ei.
        Ensures-bind (delta_time e last_time) _ λ d ed.
          Ensures-bind (next_ir_mod math config cur_util ir_mod d) _ λ m em.
            Ensures-bind (mul_i128 ir (pos 100)) _ λ scaled es.
              Ensures-bind (unwrap (math.mul_ceil (div_ℤ d seconds_per_year) scaled (pos scalar_9)))
                _
                λ w ew. Ensures-bind (add_i128 (pos scalar_9) w) _ λ a ea.
                  let nd = (delta_time_nonneg e last_time).at d ed in
                  let ni =
                    (current_ir_nonneg config cur_util ir_mod hu (omega (arith, lo))).at ir ei in
                  let nw =
                    mul_ceil_nonneg math laws _ scaled w _ (omega arith) (div_ℤ_nonneg d _ nd)
                      (mul_nonneg ir scaled ni es) (unwrap_ok _ ew) in
                  let b =
                    (next_ir_mod-bounds math laws config cur_util ir_mod d nd lo hi).at m em in
                  Ensures-ok _ ((add_nonneg (pos scalar_9) w a (omega arith) nw ea).1, b.0, b.1)
