-- ===== src/Pool/Reserve/Growth.antt =====
-- What the update of a reserve does to its rates: `Reserve::load` of pool/src/pool/reserve.rs.
use blend_contracts.Base.{
  ℕ, ◌+◌, ◌-◌, ◌*◌, ◌/◌, ◌≤◌, ◌<◌, ◌≡◌, refl, ap, ◌∙◌, parts_of_eq, arith, pos, pos_part, ◌≤ℤ◌,
  ◌<ℤ◌,
}
use blend_contracts.Base.FixedPoint.{ceil_div}
use blend_contracts.Pool.State.{scalar_9}
use blend_contracts.Pool.Interest.{ir_mod_max, ir_mod_min}
use blend_contracts.Pool.Reserve.{Reserve}
use blend_contracts.Pool.Reserve.Quotients.{b_rate_up, paid_back}

-- No amount is negative, and the rate modifier is between its bounds.
pub record IsSound (r : Reserve) : Type 0 where
  pub b_supply : pos 0 ≤ℤ r.b_supply
  pub d_supply : pos 0 ≤ℤ r.d_supply
  pub b_rate : pos 0 ≤ℤ r.b_rate
  pub d_rate : pos 0 ≤ℤ r.d_rate
  pub backstop_credit : pos 0 ≤ℤ r.backstop_credit
  pub lower : ir_mod_min ≤ℤ r.ir_mod
  pub upper : r.ir_mod ≤ℤ ir_mod_max

-- What the suppliers can take, rounded down, and what the borrowers owe, rounded up.
abbrev pub supplied : Reserve → ℕ
supplied r = pos_part r.b_supply * pos_part r.b_rate / scalar_9

abbrev pub owed : Reserve → ℕ
owed r = ceil_div (pos_part r.d_supply * pos_part r.d_rate) scalar_9

-- From `r` to `r'` both rates grow or stay, and suppliers and backstop gain together at most what the
-- borrowers owe more.
pub record Grows (r r' : Reserve) : Type 0 where
  pub sound : IsSound r'
  pub b_supply : r'.b_supply ≡ r.b_supply
  pub d_supply : r'.d_supply ≡ r.d_supply
  pub d_rate : r.d_rate ≤ℤ r'.d_rate
  pub b_rate : r.b_rate ≤ℤ r'.b_rate
  pub covered :
      supplied r' + pos_part r'.backstop_credit + owed r
      ≤ supplied r + pos_part r.backstop_credit + owed r'

-- What the growth of the borrowers' rate leaves alone.
pub record SameShares (r r' : Reserve) : Type 0 where
  pub b_supply : r'.b_supply ≡ r.b_supply
  pub d_supply : r'.d_supply ≡ r.d_supply
  pub b_rate : r'.b_rate ≡ r.b_rate
  pub backstop_credit : r'.backstop_credit ≡ r.backstop_credit

pub supplied_same :
    (r r' : Reserve) → r'.b_supply ≡ r.b_supply → r'.b_rate ≡ r.b_rate → supplied r' ≡ supplied r
supplied_same r r' e f = let g = ap pos_part e in let h = ap pos_part f in rw (g, h) refl

pub owed_same :
    (r r' : Reserve) → r'.d_supply ≡ r.d_supply → r'.d_rate ≡ r.d_rate → owed r' ≡ owed r
owed_same r r' e f = let g = ap pos_part e in let h = ap pos_part f in rw (g, h) refl

pub unpaid_Grows :
    (r r₁ : Reserve)
    → IsSound r₁
    → SameShares r r₁
    → r.d_rate ≤ℤ r₁.d_rate
    → owed r ≡ owed r₁
    → Grows r r₁
unpaid_Grows r r₁ s₁ same up eq = record {
  sound = s₁;
  b_supply = same.b_supply;
  d_supply = same.d_supply;
  d_rate = up;
  b_rate = omega (arith, parts_of_eq r₁.b_rate _ same.b_rate);
  covered =
      omega
        (arith, supplied_same r r₁ same.b_supply same.b_rate, ap pos_part same.backstop_credit, eq);
}

pub paid_Grows :
    (r r₁ r₂ : Reserve) (A c : ℕ)
    → IsSound r₁
    → pos 0 <ℤ r₁.b_supply
    → SameShares r r₁
    → r.d_rate ≤ℤ r₁.d_rate
    → owed r₁ ≡ owed r + A
    → c < A
    → r₂.b_supply ≡ r₁.b_supply
    → r₂.d_supply ≡ r₁.d_supply
    → r₂.d_rate ≡ r₁.d_rate
    → r₂.ir_mod ≡ r₁.ir_mod
    → r₂.backstop_credit ≡ pos (pos_part r₁.backstop_credit + c)
    → r₂.b_rate ≡ pos ((supplied r₁ + A - c) * scalar_9 / pos_part r₁.b_supply)
    → Grows r r₂
paid_Grows r r₁ r₂ A c s₁ hb same up eA hc eb ed edr em ec er = record {
  sound = record {
    b_supply = rw eb s₁.b_supply;
    d_supply = rw ed s₁.d_supply;
    b_rate = rw er (omega arith);
    d_rate = rw edr s₁.d_rate;
    backstop_credit = rw ec (omega arith);
    lower = rw em s₁.lower;
    upper = rw em s₁.upper;
  };
  b_supply = eb ∙ same.b_supply;
  d_supply = ed ∙ same.d_supply;
  d_rate = rw edr up;
  b_rate =
      omega
        (arith, parts_of_eq r₂.b_rate _ er, parts_of_eq r₁.b_rate _ same.b_rate, rate, s₁.b_rate);
  covered = omega (
    arith,
    back,
    supplied_same r r₁ same.b_supply same.b_rate,
    ap pos_part ec,
    owed_same r₁ r₂ ed edr,
    ap pos_part same.backstop_credit,
    eA,
    hc,
  );
}
  where
    rate : pos_part r₁.b_rate ≤ (supplied r₁ + A - c) * scalar_9 / pos_part r₁.b_supply
    rate =
        b_rate_up (pos_part r₁.b_supply) (pos_part r₁.b_rate) A c scalar_9 (omega arith)
          (omega arith) hc

    back : supplied r₂ ≤ supplied r₁ + A - c
    back =
        let g = ap pos_part eb in
        let h = ap pos_part er in
        rw (g, h) (paid_back (pos_part r₁.b_supply) (supplied r₁ + A - c) scalar_9 (omega arith))

pub same_Grows : (r : Reserve) → IsSound r → Grows r r
same_Grows r s = record {
  sound = s;
  b_supply = refl;
  d_supply = refl;
  d_rate = omega arith;
  b_rate = omega arith;
  covered = omega arith;
}

-- The time of the last update does not matter.
pub with_time : (r r' : Reserve) (t : ℕ) → Grows r r' → Grows r (record r' { last_time = t })
with_time r r' t g = record {
  sound = record {
    b_supply = g.sound.b_supply;
    d_supply = g.sound.d_supply;
    b_rate = g.sound.b_rate;
    d_rate = g.sound.d_rate;
    backstop_credit = g.sound.backstop_credit;
    lower = g.sound.lower;
    upper = g.sound.upper;
  };
  b_supply = g.b_supply;
  d_supply = g.d_supply;
  d_rate = g.d_rate;
  b_rate = g.b_rate;
  covered = g.covered;
}
