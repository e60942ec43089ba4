-- ===== src/Pool/Status/Threshold.antt =====
-- The threshold of the backstop, with the saturation that its computation runs into:
-- `calc_pool_backstop_threshold` of pool/src/pool/status.rs.
use native.Mathlib.Nat.{pow-suc, pow-zero, zero-div, le-div_iff_mul-le}
use blend_contracts.Base.{
  ℕ, zero, suc, ◌*◌, ◌/◌, ◌^◌, ◌≤◌, ◌≡◌, ◌↔◌, refl, false, inl, ◌⊎◌, arith, pos, ltb_ℤ, pos-*ℤ,
  div_ℤ, i128_max, leb, if◌then◌else◌, saturating_mul,
}
use blend_contracts.Pool.State.{scalar_7}
use blend_contracts.Pool.Status.{
  PoolBackstopData, threshold_pc, saturating_pool_pc, calc_pool_backstop_threshold,
}

abbrev clamp : ℕ → ℕ
clamp n = if leb n i128_max then n else i128_max

saturating_mul-pos : (a b : ℕ) → saturating_mul (pos a) (pos b) ≡ pos (clamp (a * b))
unfolding saturating_mul
saturating_mul-pos a b = rw pos-*ℤ (ground arith)

-- `a'` is `a`, or both are too large to tell apart.
abbrev Saturates : ℕ → ℕ → Type 0
Saturates a' a = (a' ≡ a) ⊎ ((a' ≡ i128_max) × (i128_max ≤ a))

clamp-Saturates : (a' a b : ℕ) → Saturates a' a → Saturates (clamp (a' * b)) (a * b)
clamp-Saturates a' a zero h = ground arith
clamp-Saturates a' a (suc b) h = ground arith

div_ℤ-pos : (a d : ℕ) → div_ℤ (pos a) d ≡ pos (a / d)
unfolding div_ℤ
div_ℤ-pos a d = rw (zero-div d) (ground arith)

saturating_pool_pc_lem :
    (b u : ℕ)
    → (v : ℕ) × (saturating_pool_pc (pos b) (pos u) ≡ pos v)
      × Saturates v (b * b * b * b * u * scalar_7)
unfolding saturating_pool_pc
saturating_pool_pc_lem b u =
    let c₁ = clamp-Saturates b b b (inl refl) in
    let c₂ = clamp-Saturates _ _ b c₁ in
    let c₃ = clamp-Saturates _ _ b c₂ in
    let c₄ = clamp-Saturates _ _ u c₃ in
    (_, simp saturating_mul-pos refl, clamp-Saturates _ _ scalar_7 c₄)

scaled_iff :
    (v p : ℕ) → Saturates v (p * scalar_7) → (scalar_7 ≤ v / threshold_pc) ↔ (threshold_pc ≤ p)
scaled_iff v p h =
    let q : (scalar_7 ≤ v / threshold_pc) ↔ (scalar_7 * threshold_pc ≤ v) =
      le-div_iff_mul-le (omega arith) in
    ground (arith, q)

fourth : (b : ℕ) → b ^ 4 ≡ b * b * b * b
fourth b = rw (pow-suc b 3, pow-suc b 2, pow-suc b 1, pow-suc b 0, pow-zero b) (omega arith)

-- For amounts of BLND and USDC that are not negative, the saturating computation finds the
-- threshold met exactly where the whole tokens have BLND^4 * USDC of 200k^5 or more.
pub calc_threshold_iff :
    (d : PoolBackstopData) (blnd usdc : ℕ)
    → d.blnd ≡ pos blnd
    → d.usdc ≡ pos usdc
    → (ltb_ℤ (calc_pool_backstop_threshold d) (pos scalar_7) ≡ false)
      ↔ (200000 ^ 5 ≤ (blnd / scalar_7) ^ 4 * (usdc / scalar_7))
unfolding calc_pool_backstop_threshold
calc_threshold_iff d blnd usdc eb eu =
    let pc = saturating_pool_pc_lem (blnd / scalar_7) (usdc / scalar_7) in
    let q = scaled_iff pc.0 _ pc.2 in
    rw (eb, eu, div_ℤ-pos blnd scalar_7, div_ℤ-pos usdc scalar_7, pc.1, div_ℤ-pos pc.0 threshold_pc)
      (rw fourth (ground (arith, q)))
