-- ===== src/Backstop/Ledger/Write.antt =====
-- One write of a pool's balance and of a depositor's.
use blend_contracts.Base.{
  ◌≡◌, refl, ap, ◌∙◌, ◌==◌, if◌then◌else◌, Bool-cases, inl, inr, ℤ, pos, ◌+ℤ◌, int_laws,
}
use blend_contracts.Base.Map.{
  Map, nat_key, nat_beq_iff, pair_key, insert, get_or, get_or-insert, total, total-insert,
}
use blend_contracts.Base.Host.{Address}
use blend_contracts.Backstop.User.{UserBalance}
use blend_contracts.Backstop.User
use blend_contracts.Backstop.User.Queue.{queue_sum, held}
use blend_contracts.Backstop.Pool.{PoolBalance}
use blend_contracts.Backstop.Pool
use blend_contracts.Backstop.State.{Storage, get_user_balance, get_pool_balance}

-- What an entry counts for a pool, by what a depositor's balance counts.
abbrev pub weight : (UserBalance → ℤ) → Address → Address × Address → UserBalance → ℤ
weight f pool k b = if k.0 == pool then f b else pos 0

abbrev pub queued : UserBalance → ℤ
queued b = queue_sum b.q4w

-- For every pool the shares and the queued shares are the sums over all depositors.
abbrev pub IsBalanced : {Chain : Type 0} → Storage Chain → Type 0
IsBalanced s =
    (pool : Address)
    → ((get_pool_balance pool s).shares ≡ total (weight held pool) s.user_balances)
      × ((get_pool_balance pool s).q4w ≡ total (weight queued pool) s.user_balances)

-- `s'` differs from `s` by the balances of one pool and of one of its depositors.
pub record Writes {Chain : Type 0} (pool user : Address) (pb : PoolBalance) (ub : UserBalance)
    (s s' : Storage Chain) : Type 0 where
  pub pools : s'.pool_balances ≡ insert pool pb s.pool_balances
  pub users : s'.user_balances ≡ insert (pool, user) ub s.user_balances

pub held_default : held User.env_default ≡ pos 0
unfolding held queue_sum ◌+ℤ◌
held_default = refl

queued_default : queued User.env_default ≡ pos 0
unfolding queue_sum
queued_default = refl

balance_step : (sh sh' t t' w w' : ℤ) → sh ≡ t → t' +ℤ w ≡ t +ℤ w' → sh' +ℤ w ≡ sh +ℤ w' → sh' ≡ t'
balance_step sh sh' t t' w w' e f g = omega int_laws

same_step : (sh t t' : ℤ) → sh ≡ t → t' +ℤ pos 0 ≡ t +ℤ pos 0 → sh ≡ t'
same_step sh t t' e h = omega int_laws

module _ (f : UserBalance → ℤ) (g : PoolBalance → ℤ) (zero_default : f User.env_default ≡ pos 0)
    (pool user : Address) (pb : PoolBalance) (ub : UserBalance) (pools : Map Address PoolBalance)
    (users : Map (Address × Address) UserBalance) where
  weight_default : (p : Address) → weight f p (pool, user) User.env_default ≡ pos 0
  weight_default p = elim (Bool-cases (pool == p)) [
    | inl same ↦ rw same zero_default
    | inr other ↦ rw other
  ]

  books :
      (p : Address)
      → g pb +ℤ f (get_or (pool, user) User.env_default users)
        ≡ g (get_or pool Pool.env_default pools) +ℤ f ub
      → g (get_or p Pool.env_default pools) ≡ total (weight f p) users
      → g (get_or p Pool.env_default (insert pool pb pools))
        ≡ total (weight f p) (insert (pool, user) ub users)
  books p change inv =
      let t = total-insert (weight f p) (pool, user) User.env_default ub users (weight_default p) in
      elim (Bool-cases (pool == p)) [
        | inl same ↦
            let e : pool ≡ p = (nat_beq_iff pool p).0 same in
            let c = ap (λ (q : Address). g (get_or q Pool.env_default pools)) e in
            rw (get_or-insert, same) (balance_step _ _ _ _ _ _ inv (rw same at t) (rw c at change))
        | inr other ↦ rw (get_or-insert, other) (same_step _ _ _ inv (rw other at t))
      ]

module _ {Chain : Type 0} (pool user : Address) (pb : PoolBalance) (ub : UserBalance) where
  -- A write that changes a pool's books as it changes those of the depositor keeps all books.
  pub Writes-IsBalanced :
      {s s' : Storage Chain}
      → Writes pool user pb ub s s'
      → pb.shares +ℤ held (get_user_balance pool user s)
        ≡ (get_pool_balance pool s).shares +ℤ held ub
      → pb.q4w +ℤ queue_sum (get_user_balance pool user s).q4w
        ≡ (get_pool_balance pool s).q4w +ℤ queue_sum ub.q4w
      → IsBalanced s
      → IsBalanced s'
  unfolding get_pool_balance get_user_balance
  Writes-IsBalanced {s} {s'} w hs hq inv p =
      rw (w.pools, w.users)
        (
          books held (λ b. b.shares) held_default pool user pb ub s.pool_balances s.user_balances p
              hs (inv p).0,
          books queued (λ b. b.q4w) queued_default pool user pb ub s.pool_balances s.user_balances p
              hq (inv p).1,
        )

module _ (g : PoolBalance → ℤ) (pool : Address) (pb : PoolBalance)
    (pools : Map Address PoolBalance) where
  pool_books :
      (p : Address) (t : ℤ)
      → g pb ≡ g (get_or pool Pool.env_default pools)
      → g (get_or p Pool.env_default pools) ≡ t
      → g (get_or p Pool.env_default (insert pool pb pools)) ≡ t
  pool_books p t same inv = elim (Bool-cases (pool == p)) [
    | inl here ↦
        let e : pool ≡ p = (nat_beq_iff pool p).0 here in
        let c = ap (λ (q : Address). g (get_or q Pool.env_default pools)) e in
        rw (get_or-insert, here) (same ∙ c ∙ inv)
    | inr other ↦ rw (get_or-insert, other) inv
  ]

module _ {Chain : Type 0} (pool : Address) (pb : PoolBalance) where
  -- A write of a pool's tokens alone keeps the books.
  pub pool_write-IsBalanced :
      (s s' : Storage Chain)
      → s'.pool_balances ≡ insert pool pb s.pool_balances
      → s'.user_balances ≡ s.user_balances
      → pb.shares ≡ (get_pool_balance pool s).shares
      → pb.q4w ≡ (get_pool_balance pool s).q4w
      → IsBalanced s
      → IsBalanced s'
  unfolding get_pool_balance
  pool_write-IsBalanced s s' w u hs hq inv p =
      rw (w, u)
        (
          pool_books (λ b. b.shares) pool pb s.pool_balances p _ hs (inv p).0,
          pool_books (λ b. b.q4w) pool pb s.pool_balances p _ hq (inv p).1,
        )

module _ {Chain : Type 0} where
  -- So does what leaves all balances alone.
  pub same-IsBalanced :
      (s s' : Storage Chain)
      → s'.pool_balances ≡ s.pool_balances
      → s'.user_balances ≡ s.user_balances
      → IsBalanced s
      → IsBalanced s'
  unfolding get_pool_balance
  same-IsBalanced s s' w u inv p = rw (w, u) (inv p)
