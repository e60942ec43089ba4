-- ===== src/Pool/Ledger/Fill.antt =====
-- The fills of auctions in the books: pool/src/auctions.
use blend_contracts.Base.{
  ℕ, ◌≡◌, inl, refl, ap, ◌∙◌, true, false, [], ◌∷◌, arith, ◌==◌, ℤ, pos, ltb_ℤ, ◌+ℤ◌, ◌-ℤ◌,
  int_laws, or_panic, unwrap, host, sub_i128, Ensures, Ensures-ok, Ensures-bind, Ensures-if,
  Ensures-panic_if,
}
use blend_contracts.Base.Map.{Map, nat_key, lookup, get_or, insert}
use blend_contracts.Base.Host.{Address, Env}
use blend_contracts.Pool.State.{AuctionData, Storage, env_default, set_user_positions, get_backstop}
use blend_contracts.Pool.Reserve.{Reserve}
use blend_contracts.Pool.Cache.{Pool, load_reserve, cache_reserve}
use blend_contracts.Pool.Status.{calc_pool_backstop_threshold}
use blend_contracts.Pool.Emissions.Frame.{same-Kept}
use blend_contracts.Pool.User.{User, load_user, store_user, is_empty}
use blend_contracts.Pool.User.Ledger.{debt, claims}
use blend_contracts.Pool.User.Moves.{Working, rm_positions, add_positions}
use blend_contracts.Pool.Outside.{Outside}
use blend_contracts.Pool.Auction.Liquidation.{fill_user_liq_auction}
use blend_contracts.Pool.Auction.BadDebt.{by_asset, burn_bad_debt, fill_bad_debt_auction}
use blend_contracts.Pool.Auction.Interest.{pay_loop, fill_interest_auction}
use blend_contracts.Pool.Ledger.{Matches}
use blend_contracts.Pool.Ledger.Totals.{
  position_debt, position_claims, all_debts, all_claims, load_user-positions,
}
use blend_contracts.Pool.Ledger.Keep.{keep-Matches}
use blend_contracts.Pool.Ledger.Load.{load_reserve-IsCached}
use blend_contracts.Pool.Ledger.Change.{cache-Matches}
use blend_contracts.Pool.Ledger.Step.{
  IsStep, keep-IsStep, rm_positions-IsStep, add_positions-IsStep,
}
use blend_contracts.Pool.Ledger.Pending.{
  IsPending, with_pending, pending_debts, pending_claims, two_debts, two_claims,
}

-- What the positions of two users move together, in the books.
pub record IsTwoShift (owed held owed' held' : ℕ → ℤ) (u u' v v' : User) : Type 0 where
  pub debts : (i : ℕ) → owed' i +ℤ debt i u +ℤ debt i v ≡ owed i +ℤ debt i u' +ℤ debt i v'
  pub claimed : (i : ℕ) → held' i +ℤ claims i u +ℤ claims i v ≡ held i +ℤ claims i u' +ℤ claims i v'

module _ {Chain : Type 0} where
  store_user-books :
      (owed held owed' held' : ℕ → ℤ) (v : User) (s : Storage Chain) (pool : Pool)
      → ((i : ℕ) → owed' i ≡ owed i)
      → ((i : ℕ) → held' i ≡ held i)
      → Matches owed held s pool
      → Matches owed' held' (store_user v s) pool
  unfolding store_user set_user_positions
  store_user-books owed held owed' held' v s pool d c m =
      keep-Matches owed held owed' held' d c s (store_user v s) pool pool refl refl refl refl refl m

  store_user-positions :
      (v : User) (s : Storage Chain)
      → (store_user v s).positions ≡ insert v.address v.positions s.positions
  unfolding store_user set_user_positions
  store_user-positions v s = refl

  -- A second user's positions are written back, with the first user still in memory.
  store_second :
      (w : Working Chain) (k : Address) (v' u' : User) (pool : Pool) (s' : Storage Chain)
      (owed held : ℕ → ℤ)
      → (k == w.user.address) ≡ false
      → v'.address ≡ k
      → u'.address ≡ w.user.address
      → s'.positions ≡ w.storage.positions
      → IsTwoShift
          (all_debts (with_pending w.user w.storage))
          (all_claims (with_pending w.user w.storage))
          owed
          held
          w.user
          u'
          (load_user k w.storage)
          v'
      → Matches owed held s' pool
      → IsPending (record { user = u'; pool = pool; storage = store_user v' s' })
  store_second w k v' u' pool s' owed held ne ev eu ep sh m = record {
    books =
        store_user-books owed held _ _ v' s' pool
          (λ i.
            let p = store_user-positions v' s' in
            let t = two_debts u' v' s' i nv in
            let b = pending_debts w.user w.storage i in
            let h = sh.debts i in
            let l = ap (λ q. position_debt i k q) (load_user-positions k w.storage) in
            let kf = ap (λ q. position_debt i k q) same_first in
            let ks = ap (λ q. position_debt i k q) same_second in
            let km = ap (λ q. all_debts q i) ep in
            let kp = ap (λ q. all_debts (insert u'.address u'.positions q) i) p in omega int_laws)
          (λ i.
            let p = store_user-positions v' s' in
            let t = two_claims u' v' s' i nv in
            let b = pending_claims w.user w.storage i in
            let h = sh.claimed i in
            let l = ap (λ q. position_claims i k q) (load_user-positions k w.storage) in
            let kf = ap (λ q. position_claims i k q) same_first in
            let ks = ap (λ q. position_claims i k q) same_second in
            let km = ap (λ q. all_claims q i) ep in
            let kp = ap (λ q. all_claims (insert u'.address u'.positions q) i) p in omega int_laws)
          m;
  }
    where
      nv : (v'.address == u'.address) ≡ false
      nv = ap (λ x. x == u'.address) ev ∙ ap (λ x. k == x) eu ∙ ne

      same_first :
          get_or u'.address env_default s'.positions
          ≡ get_or w.user.address env_default w.storage.positions
      same_first =
          ap (λ x. get_or x env_default s'.positions) eu ∙ ap (get_or w.user.address env_default) ep

      same_second :
          get_or v'.address env_default s'.positions ≡ get_or k env_default w.storage.positions
      same_second = ap (λ x. get_or x env_default s'.positions) ev ∙ ap (get_or k env_default) ep

  loaded_address : (user : Address) (s : Storage Chain) → (load_user user s).address ≡ user
  unfolding load_user
  loaded_address user s = refl

  -- A step of one user from books that agree, to the books that it leads to.
  moved_books :
      (w w' : Working Chain) (owed held : ℕ → ℤ)
      → IsStep w w'
      → Matches owed held w.storage w.pool
      → Matches
          (λ i. owed i +ℤ debt i w'.user -ℤ debt i w.user)
          (λ i. held i +ℤ claims i w'.user -ℤ claims i w.user)
          w'.storage
          w'.pool
  moved_books w w' owed held t m =
      t.moved owed held _ _ m
        (record { debts = λ i. omega int_laws; claimed = λ i. omega int_laws })

  module _ (o : Outside Chain) (e : Env) where
    pub user_liq-IsPending :
        (auction_data : AuctionData) (user : Address) (w : Working Chain)
        → (user == w.user.address) ≡ false
        → IsPending w
        → Ensures IsPending (fill_user_liq_auction o e auction_data user w)
    unfolding fill_user_liq_auction
    user_liq-IsPending auction_data user w ne p =
        let v = load_user user w.storage in
        let w₀ : Working Chain = record w { user = v } in
        Ensures-bind (rm_positions o.math e auction_data.lot auction_data.bid w₀) _ λ from ef.
          let w₁ : Working Chain = record from { user = w.user } in
          Ensures-bind (add_positions o.math e auction_data.lot auction_data.bid w₁) _ λ to et.
            let t₁ =
              (rm_positions-IsStep o.math e auction_data.lot auction_data.bid w₀).at from ef in
            let t₂ =
              (add_positions-IsStep o.math e auction_data.lot auction_data.bid w₁).at to et in
            let m₁ = moved_books w₀ from _ _ t₁ p.books in
            let m₂ = moved_books w₁ to _ _ t₂ m₁ in
            Ensures-ok _ (
              store_second w user from.user to.user to.pool to.storage _ _ ne
                (t₁.same_address ∙ loaded_address user w.storage) t₂.same_address
                (t₂.kept.positions ∙ t₁.kept.positions)
                (record { debts = λ i. omega int_laws; claimed = λ i. omega int_laws }) m₂)

    burn-IsStep :
        (backstop_address : Address) (w : Working Chain)
        → Ensures (IsStep w) (burn_bad_debt o e backstop_address w)
    unfolding burn_bad_debt
    burn-IsStep backstop_address w =
        Ensures-if (is_empty w.user.positions.liabilities) _ _
          (λ _. Ensures-ok w (keep-IsStep w w.pool w.storage (same-Kept w.storage) refl refl))
          (λ _.
            Ensures-bind
              (or_panic host
                (o.backstop.pool_data w.storage.chain backstop_address e.current_contract_address))
              _
              λ d _.
                Ensures-if (ltb_ℤ (calc_pool_backstop_threshold d) (pos 3)) _ _
                  (λ _.
                    Ensures-bind (by_asset w.storage.res_list w.user.positions.liabilities []) _
                      λ liabilities _. rm_positions-IsStep o.math e [] liabilities w)
                  (λ _.
                    Ensures-ok w (keep-IsStep w w.pool w.storage (same-Kept w.storage) refl refl)))

    pub bad_debt-IsPending :
        (auction_data : AuctionData) (w : Working Chain)
        → IsPending w
        → Ensures (λ r. IsPending r.1) (fill_bad_debt_auction o e auction_data w)
    unfolding fill_bad_debt_auction
    bad_debt-IsPending auction_data w p = Ensures-bind (get_backstop w.storage) _ λ k _.
        Ensures-panic_if (w.user.address == k) _ _ λ ne.
          let v = load_user k w.storage in
          let w₀ : Working Chain = record w { user = v } in
          Ensures-bind (rm_positions o.math e [] auction_data.bid w₀) _ λ from ef.
            let w₁ : Working Chain = record from { user = w.user } in
            Ensures-bind (add_positions o.math e [] auction_data.bid w₁) _ λ to et.
              Ensures-bind (or_panic host (o.backstop.backstop_token to.storage.chain k)) _
                λ token _. Ensures-bind (unwrap (lookup token auction_data.lot)) _ λ lot_amount _.
                  Ensures-bind
                    (or_panic host (
                      o.backstop.draw to.storage.chain k e.current_contract_address lot_amount
                        w.user.address))
                    _
                    λ c _.
                      let st = to.storage in
                      let w₂ : Working Chain = record to {
                        user = from.user;
                        storage = record st { chain = c };
                      } in
                      Ensures-bind (burn_bad_debt o e k w₂) _ λ left el.
                        let t₁ = (rm_positions-IsStep o.math e [] auction_data.bid w₀).at from ef in
                        let t₂ = (add_positions-IsStep o.math e [] auction_data.bid w₁).at to et in
                        let t₃ = (burn-IsStep k w₂).at left el in
                        let m₁ = moved_books w₀ from _ _ t₁ p.books in
                        let m₂ = moved_books w₁ to _ _ t₂ m₁ in
                        let m₂' =
                          keep-Matches _ _ _ _ (λ i. refl) (λ i. refl) to.storage w₂.storage to.pool
                            to.pool refl refl refl refl refl m₂ in
                        let m₃ = moved_books w₂ left _ _ t₃ m₂' in
                        Ensures-ok _ (
                          store_second w k left.user to.user left.pool left.storage _ _
                            (ground (arith, ne))
                            (t₃.same_address ∙ t₁.same_address ∙ loaded_address k w.storage)
                            t₂.same_address
                            (t₃.kept.positions ∙ t₂.kept.positions ∙ t₁.kept.positions)
                            (record { debts = λ i. omega int_laws; claimed = λ i. omega int_laws })
                            m₃)

    -- The interest of reserves is paid out, which moves no supply and no position.
    pay_loop-IsPending :
        (filler : Address) (lot : Map Address ℤ) (u : User) (pool : Pool) (s : Storage Chain)
        → IsPending (record { user = u; pool = pool; storage = s })
        → Ensures
            (λ r. IsPending (record { user = u; pool = r.0; storage = r.1 }))
            (pay_loop o e filler lot (pool, s))
    unfolding pay_loop
    pay_loop-IsPending filler [] u pool s p = Ensures-ok _ p
    pay_loop-IsPending filler ((asset, amount) ∷ rest) u pool s p =
        Ensures-bind (load_reserve o.math e asset true s pool) _ λ r er.
          Ensures-bind (sub_i128 r.0.backstop_credit amount) _ λ credit _.
            Ensures-bind
              (or_panic host
                (o.tokens.transfer s.chain asset e.current_contract_address filler amount))
              _
              λ c _.
                let q = r.0 in
                let q' : Reserve = record q { backstop_credit = credit } in
                let s' : Storage Chain = record s { chain = c } in
                let d = all_debts (with_pending u s) in
                let h = all_claims (with_pending u s) in
                let l = (load_reserve-IsCached o.math e d h asset true s pool p.books).at r er in
                let m =
                  cache-Matches d h d h s s' asset q q' p.books.places l.0
                    (record {
                      res_configs = refl;
                      res_data = refl;
                      res_list = refl;
                      positions = refl;
                    })
                    (record {
                      same_asset = refl;
                      same_index = refl;
                      debts = refl;
                      claims = refl;
                      others = λ i ne. (refl, refl);
                    })
                    true pool r.1 p.books l.1 (inl refl) in
                pay_loop-IsPending filler rest u (cache_reserve q' r.1) s' (record { books = m })

    pub interest-IsPending :
        (auction_data : AuctionData) (filler : Address) (w : Working Chain)
        → IsPending w
        → Ensures
            (λ r. IsPending (record { user = w.user; pool = r.1.0; storage = r.1.1 }))
            (fill_interest_auction o e auction_data filler w.pool w.storage)
    unfolding fill_interest_auction
    interest-IsPending auction_data filler w p = Ensures-bind (get_backstop w.storage) _ λ k _.
        Ensures-panic_if (filler == k) _ _ λ _.
          Ensures-bind (or_panic host (o.backstop.backstop_token w.storage.chain k)) _ λ token _.
            Ensures-bind (or_panic host (lookup token auction_data.bid)) _ λ amount _.
              Ensures-bind
                (or_panic host
                  (o.backstop.donate w.storage.chain k filler e.current_contract_address amount))
                _
                λ c _.
                  let st = w.storage in
                  let s' : Storage Chain = record st { chain = c } in
                  Ensures-bind (pay_loop o e filler auction_data.lot (w.pool, s')) _ λ r er.
                    Ensures-ok _ (
                      (pay_loop-IsPending filler auction_data.lot w.user w.pool s' (record {
                        books =
                            keep-Matches _ _ _ _ (λ i. refl) (λ i. refl) st s' w.pool w.pool refl
                              refl refl refl refl p.books;
                      })).at
                        r er)
