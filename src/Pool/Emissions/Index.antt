-- ===== src/Pool/Emissions/Index.antt =====
-- The emission index of a reserve: pool/src/emissions/distributor.rs.
use blend_contracts.Base.{
  unwrap_ok, ℕ, ◌≡◌, ap, ◌∙◌, ◌*◌, not, ◌&&◌, ◌||◌, Option, none, some, arith, ltb, leb, ◌==◌,
  if◌then◌else◌, ℤ, pos, pos_part, ◌≤ℤ◌, ◌<ℤ◌, eqb_ℤ, ltb_ℤ, +ℤ_parts, ◌+ℤ◌, pos-*ℤ, pos_of_nonneg,
  ok, unwrap, add_i128, mul_i128, sub_u, sub_i64, as_i64, checked_ok, Ensures, Ensures-ok,
  Ensures-bind, Ensures-if,
}
use blend_contracts.Base.Map.{nat_key, nat_beq_iff, lookup-insert}
use blend_contracts.Base.FixedPoint.{FixedPoint, FixedPointLaws}
use blend_contracts.Base.Host.{Env}
use blend_contracts.Pool.State.{
  Storage, ReserveEmissionsConfig, ReserveEmissionsData, get_res_emis_data, set_res_emis_data,
}
use blend_contracts.Pool.Emissions.{additional_index, update_emission_data_with_config}

unwrap-same : {A : Type 0} (o : Option A) {a b : A} → o ≡ some a → unwrap o ≡ ok b → a ≡ b
unwrap-same none h k = cc
unwrap-same (some c) h k = cc

stored_back :
    {Chain : Type 0} (id : ℕ) (d : ReserveEmissionsData) (s : Storage Chain)
    → get_res_emis_data id (set_res_emis_data id d s) ≡ some d
unfolding get_res_emis_data set_res_emis_data
stored_back id d s = ground (arith, lookup-insert id id d s.emis_data, nat_beq_iff id id)

module _ (math : FixedPoint) (laws : FixedPointLaws math) where
  emitted_nonneg :
      (delta eps : ℕ) (emitted supply scalar x : ℤ)
      → pos 0 <ℤ supply
      → pos 0 ≤ℤ scalar
      → mul_i128 (pos delta) (pos eps) ≡ ok emitted
      → unwrap (math.div_floor emitted supply scalar) ≡ ok x
      → pos 0 ≤ℤ x
  emitted_nonneg delta eps emitted supply scalar x hs hd he hx =
      let ee = checked_ok _ he ∙ pos-*ℤ delta eps in
      let h : math.div_floor emitted supply scalar ≡ some x = unwrap_ok _ hx in
      let v =
        laws.div_floor_value (delta * eps) (pos_part supply) (pos_part scalar) x (omega arith)
          (ground (arith, pos_of_nonneg supply (omega arith), pos_of_nonneg scalar hd)) in
      rw v (omega arith)

  additional_index_nonneg :
      (now last eps : ℕ) (supply scalar : ℤ)
      → pos 0 ≤ℤ supply
      → pos 0 ≤ℤ scalar
      → Ensures (λ x. pos 0 ≤ℤ x) (additional_index math now last eps supply scalar)
  unfolding additional_index
  additional_index_nonneg now last eps supply scalar hs hd =
      Ensures-bind (sub_i64 (as_i64 now) (as_i64 last)) _ λ span _.
        Ensures-if (ltb_ℤ (pos 0) span && (not (eqb_ℤ supply (pos 0)) && ltb 0 eps)) _ _
          (λ go. Ensures-bind (sub_u now last) _ λ delta _.
            Ensures-bind (mul_i128 (pos delta) (pos eps)) _ λ emitted ee. record {
              at = λ x ex.
                  emitted_nonneg delta eps emitted supply scalar x (ground (arith, go)) hd ee ex;
            })
          (λ _. Ensures-ok _ (omega arith))

  grown :
      (x : ℤ) (old o : ReserveEmissionsData) (index : ℤ)
      → pos 0 ≤ℤ x
      → old ≡ o
      → index ≡ x +ℤ o.index
      → old.index ≤ℤ index
  grown x old o index n same e =
      let h : old.index ≡ o.index = ap (λ (d : ReserveEmissionsData). d.index) same in
      let s = +ℤ_parts x o.index in rw (h, e) (ground (arith, s))

  -- For a supply and a scalar that are not negative, every result of an update of the emission data
  -- has an index as high as before or higher, and is what the storage then holds.
  pub index_growth :
      {Chain : Type 0} (e : Env) (id : ℕ) (supply scalar : ℤ) (config : ReserveEmissionsConfig)
      (s : Storage Chain) (old : ReserveEmissionsData)
      → get_res_emis_data id s ≡ some old
      → pos 0 ≤ℤ supply
      → pos 0 ≤ℤ scalar
      → Ensures
          (λ r. (old.index ≤ℤ r.0.index) × (get_res_emis_data id r.1 ≡ some r.0))
          (update_emission_data_with_config math e id supply scalar config s)
  unfolding update_emission_data_with_config
  index_growth e id supply scalar config s old eo hs hd =
      Ensures-bind (unwrap (get_res_emis_data id s)) _ λ o ho.
        let same : old ≡ o = unwrap-same (get_res_emis_data id s) eo ho in
        Ensures-if
          (leb config.expiration o.last_time
            || (e.timestamp == o.last_time || (config.eps == 0 || eqb_ℤ supply (pos 0))))
          _ _
          (λ _.
            Ensures-ok _
              (ground (arith, ap (λ (d : ReserveEmissionsData). d.index) same), eo ∙ ap some same))
          (λ go.
            let now =
              (if ltb config.expiration e.timestamp then config.expiration else e.timestamp) in
            Ensures-bind (additional_index math now o.last_time config.eps supply scalar) _ λ x ex.
              Ensures-bind (add_i128 x o.index) _ λ index ei.
                let n =
                  (additional_index_nonneg now o.last_time config.eps supply scalar hs hd).at x
                    ex in
                Ensures-ok _ (grown x old o index n same (checked_ok _ ei), stored_back id _ s))
