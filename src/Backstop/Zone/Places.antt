-- ===== src/Backstop/Zone/Places.antt =====
-- The pools of the reward zone: `add_to_reward_zone` of backstop/src/emissions/manager.rs.
use blend_contracts.Base.{
  ℕ, ◌+◌, ◌-◌, ◌≤◌, ◌≡◌, ◌⊎◌, inl, inr, refl, Bool, true, false, not, Bool-cases, Option, none,
  some, List, [], ◌∷◌, length, arith, ◌==◌, ltb, leb_ℤ, if◌then◌else◌, ℤ, ok, or_panic, or_panic_ok,
  unwrap, backstop_error, BackstopError, sub_u, Ensures, Ensures-ok, Ensures-bind, Ensures-panic_if,
  Ensures-if,
}
use blend_contracts.Base.FixedPoint.{FixedPoint}
use blend_contracts.Base.Host.{Address, Env}
use blend_contracts.Backstop.Pool.{load_pool_backstop_data, require_pool_above_threshold}
use blend_contracts.Backstop.State.{Storage, get_pool_balance, set_reward_zone}
use blend_contracts.Backstop.Zone.{
  has_pool, first_index_of, set_at, max_rz_len, swap_pool, add_to_reward_zone,
}

-- How often a pool is in the zone.
abbrev pub count : Address → List Address → ℕ
count pool [] = 0
count pool (a ∷ zone) = (if a == pool then 1 else 0) + count pool zone

-- No pool is in the zone twice.
pub record IsZone (zone : List Address) : Type 0 where
  pub once : (pool : Address) → count pool zone ≤ 1

absent_count :
    (pool : Address) (zone : List Address) → has_pool pool zone ≡ false → count pool zone ≡ 0
unfolding has_pool
absent_count pool [] h = refl
absent_count pool (a ∷ zone) h = elim (Bool-cases (a == pool)) [
  | inl same ↦ ground (arith, h)
  | inr other ↦
      let r : has_pool pool zone ≡ false = ground (arith, h) in
      let ih = absent_count pool zone r in ground (arith, ih)
]

set_count :
    (i : ℕ) (to_add : Address) (zone : List Address) (pool : Address)
    → count pool (set_at i to_add zone) ≤ count pool zone + (if to_add == pool then 1 else 0)
unfolding set_at
set_count i to_add [] pool = omega arith
set_count i to_add (a ∷ zone) pool = let ih = set_count (i - 1) to_add zone pool in ground arith

set_length :
    (i : ℕ) (to_add : Address) (zone : List Address) → length (set_at i to_add zone) ≡ length zone
unfolding set_at
set_length i to_add [] = refl
set_length i to_add (a ∷ zone) = let ih = set_length (i - 1) to_add zone in ground arith

placed :
    (i : ℕ) (to_add to_remove : Address) (zone : List Address)
    → first_index_of to_remove zone ≡ some i
    → has_pool to_add (set_at i to_add zone) ≡ true
unfolding first_index_of set_at has_pool
placed i to_add to_remove [] h = absurd (cc h)
placed i to_add to_remove (a ∷ zone) h =
    next (first_index_of to_remove zone) (a == to_remove) h
      (λ j e. placed j to_add to_remove zone e) refl
  where
    next :
        (found : Option ℕ) (same : Bool)
        → (if same then some 0 else elim found [ none ↦ none | some j ↦ some (j + 1) ]) ≡ some i
        → ((j : ℕ) → found ≡ some j → has_pool to_add (set_at j to_add zone) ≡ true)
        → found ≡ found
        → has_pool to_add (if i == 0 then to_add ∷ zone else a ∷ set_at (i - 1) to_add zone) ≡ true
    next found true h ih _ = let e : 0 ≡ i = cc in ground arith
    next none false h ih _ = absurd (cc h)
    next (some j) false h ih _ =
        let e : j + 1 ≡ i = cc in
        let k : i - 1 ≡ j = omega arith in
        let r = ih j refl in
        let n : (i == 0) ≡ false = ground arith in rw (n, k) (ground (arith, r))

-- The zone with the pool in it, once, in a place of its own or in that of another.
abbrev IsAdded : Address → List Address → ℕ → List Address → Type 0
IsAdded to_add old limit zone =
    (has_pool to_add zone ≡ true)
    × IsZone zone
    × ((length zone ≤ limit) ⊎ (length zone ≡ length old))

new_once :
    (to_add : Address) (zone : List Address)
    → IsZone zone
    → count to_add zone ≡ 0
    → (pool : Address) → (if to_add == pool then 1 else 0) + count pool zone ≤ 1
new_once to_add zone h c pool = elim (Bool-cases (to_add == pool)) [
  | inl same ↦
      let e : to_add ≡ pool = ground (arith, same) in
      let z : count pool zone ≡ 0 = rw e at c in ground (arith, same, z)
  | inr other ↦ let o = h.once pool in ground (arith, other, o)
]

pushed :
    (to_add : Address) (zone : List Address) (limit : ℕ)
    → IsZone zone
    → count to_add zone ≡ 0
    → ltb (length zone) limit ≡ true
    → IsAdded to_add zone limit (to_add ∷ zone)
unfolding has_pool
pushed to_add zone limit h c room =
    (ground arith, record { once = new_once to_add zone h c }, inl (ground arith))

swapped :
    {Chain : Type 0} (math : FixedPoint) (e : Env) (to_add to_remove : Address) (tokens : ℤ)
    (s : Storage Chain)
    → IsZone s.reward_zone
    → count to_add s.reward_zone ≡ 0
    → Ensures
        (IsAdded to_add s.reward_zone (max_rz_len e))
        (swap_pool math e to_add to_remove tokens s)
unfolding swap_pool
swapped math e to_add to_remove tokens s h c =
    Ensures-bind
      (or_panic (backstop_error BackstopError.invalid_reward_zone_entry)
        (first_index_of to_remove s.reward_zone))
      _
      λ i ei. Ensures-bind (sub_u e.timestamp 86400) _ λ day_ago _.
        Ensures-panic_if (ltb s.last_distribution_time day_ago) _ _ λ _.
          Ensures-panic_if (leb_ℤ tokens (get_pool_balance to_remove s).tokens) _ _ λ _.
            let z = s.reward_zone in
            Ensures-ok _ (
              placed i to_add to_remove z (or_panic_ok _ _ ei),
              record {
                once = λ pool.
                    let n = set_count i to_add z pool in
                    let o = new_once to_add z h c pool in ground (arith, n, o);
              },
              inr (set_length i to_add z),
            )

-- A pool that is added to the reward zone is in it afterwards, and if no pool was in the zone twice, none
-- is then; the zone is no longer than before, or as long as it may be by now at most.
pub add_to_reward_zone-IsZone :
    {Chain : Type 0} (math : FixedPoint) (e : Env) (to_add to_remove : Address) (s : Storage Chain)
    → IsZone s.reward_zone
    → Ensures
        (λ s'.
          (has_pool to_add s'.reward_zone ≡ true)
          × IsZone s'.reward_zone
          × ((length s'.reward_zone ≤ max_rz_len e)
              ⊎ (length s'.reward_zone ≡ length s.reward_zone)))
        (add_to_reward_zone math e to_add to_remove s)
unfolding add_to_reward_zone swap_pool set_reward_zone
add_to_reward_zone-IsZone math e to_add to_remove s h =
    Ensures-panic_if (has_pool to_add s.reward_zone) _ _ λ absent.
      let c = absent_count to_add s.reward_zone absent in
      Ensures-bind (unwrap s.lp_token_val) _ λ v _.
        Ensures-bind (load_pool_backstop_data math (get_pool_balance to_add s) v) _ λ d _.
          Ensures-panic_if (not (require_pool_above_threshold d)) _ _ λ _.
            Ensures-bind
              (if ltb (length s.reward_zone) (max_rz_len e)
                then ok (to_add ∷ s.reward_zone)
                else swap_pool math e to_add to_remove d.tokens s)
              _
              λ zone ez. Ensures-ok _ (
                (Ensures-if {P = IsAdded to_add s.reward_zone (max_rz_len e)}
                    (ltb (length s.reward_zone) (max_rz_len e)) _ _
                    (λ room. Ensures-ok _ (pushed to_add s.reward_zone (max_rz_len e) h c room))
                    (λ _. swapped math e to_add to_remove d.tokens s h c)).at
                  zone ez)
