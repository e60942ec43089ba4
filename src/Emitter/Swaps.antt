-- ===== src/Emitter/Swaps.antt =====
-- When the backstop changes, and to what: emitter/src/backstop_manager.rs.
use mathlib.Core.Path.{subst}
use blend_contracts.Base.{
  sub_u_ok, unwrap_ok, ℕ, ◌+◌, ◌-◌, ◌*◌, ◌≤◌, ◌≡◌, sym, ap, ◌∙◌, Bool, not, none, some, arith, pos,
  ◌<ℤ◌, pos-*ℤ, ok, or_panic, or_panic_ok, unwrap, host, emitter_error, EmitterError, add_u, sub_u,
  mul_i128, checked_ok, ltb, ltb_ℤ, Ensures, Ensures-ok, Ensures-bind, Ensures-panic_if,
}
use blend_contracts.Base.Map.{nat_key, nat_beq_iff, lookup, lookup-insert}
use blend_contracts.Base.Host.{Address, Env, TokenClient}
use blend_contracts.Emitter.State.{
  Storage, Swap, get_backstop, set_backstop, get_backstop_token, set_backstop_token,
  set_queued_swap, del_queued_swap, set_last_distro_time, get_last_distro_time, get_blnd_token,
}
use blend_contracts.Emitter.Frame.{distribute_frame}
use blend_contracts.Emitter.Execute.{
  scalar_7, execute_distribute, swap_lock_time, is_new_backstop_is_larger,
  execute_queue_swap_backstop, execute_swap_backstop,
}

-- What the other contracts hold after BLND is minted to `b` for the time since its last distribution: one
-- token (10^7 units) for each second, and nothing to anyone else.
abbrev pub HasMinted :
    {Chain : Type 0} → TokenClient Chain → Env → Address → Storage Chain → Chain → Type 0
HasMinted tokens e b s chain =
    (blnd : Address) × (u : ℕ) × (s.blnd_token ≡ some blnd)
    × (lookup b s.last_distro ≡ some u)
    × (u ≤ e.timestamp)
    × (tokens.mint s.chain blnd b (pos ((e.timestamp - u) * scalar_7)) ≡ some chain)

module _ {Chain : Type 0} (tokens : TokenClient Chain) (e : Env) where
  larger_lem :
      (a b t : Address) (s : Storage Chain) {l : Bool}
      → s.backstop_token ≡ some t
      → is_new_backstop_is_larger tokens a b s ≡ ok l
      → l ≡ ltb_ℤ (tokens.balance s.chain t b) (tokens.balance s.chain t a)
  unfolding is_new_backstop_is_larger get_backstop_token
  larger_lem a b t s et h = ground arith

  -- A swap is queued only where none is, for a backstop that is larger, and opens in 31 days.
  pub queue_swap_lem :
      (a t : Address) (s : Storage Chain) {r : Swap × Storage Chain}
      → execute_queue_swap_backstop tokens e a t s ≡ ok r
      → (s.queued_swap ≡ none)
        × (r.1.queued_swap
            ≡ some (record {
              new_backstop = a;
              new_backstop_token = t;
              unlock_time = e.timestamp + swap_lock_time;
            }))
        × (r.1.backstop ≡ s.backstop)
  unfolding execute_queue_swap_backstop set_queued_swap add_u
  queue_swap_lem a t s h = ground arith

  -- What a distribution mints, and to whom.
  distribute_mint :
      (b : Address) (s : Storage Chain)
      → Ensures (λ r. HasMinted tokens e b s r.1.chain) (execute_distribute tokens e b s)
  unfolding execute_distribute get_last_distro_time get_blnd_token set_last_distro_time
  distribute_mint b s = Ensures-bind (unwrap (lookup b s.last_distro)) _ λ u eu.
      Ensures-bind (sub_u e.timestamp u) _ λ d ed.
        Ensures-bind (mul_i128 (pos d) (pos scalar_7)) _ λ amount ea.
          Ensures-bind (unwrap s.blnd_token) _ λ blnd eb.
            Ensures-bind (or_panic host (tokens.mint s.chain blnd b amount)) _ λ c ec.
              let q = sub_u_ok e.timestamp u ed in
              let k : amount ≡ pos ((e.timestamp - u) * scalar_7) =
                checked_ok _ ea ∙ pos-*ℤ d scalar_7 ∙ ap (λ (n : ℕ). pos (n * scalar_7)) q.1 in
              Ensures-ok _
                (blnd, u, unwrap_ok _ eb, unwrap_ok _ eu, q.0, rw k at (or_panic_ok _ _ ec))

  swap_mint :
      (s : Storage Chain) (b : Address)
      → s.backstop ≡ some b
      → Ensures (λ r. HasMinted tokens e b s r.1.chain) (execute_swap_backstop tokens e s)
  unfolding execute_swap_backstop get_backstop set_backstop set_backstop_token del_queued_swap
      set_last_distro_time
  swap_mint s b h =
      Ensures-bind (or_panic (emitter_error EmitterError.swap_not_queued) s.queued_swap) _ λ w _.
        Ensures-panic_if (ltb e.timestamp w.unlock_time) _ _ λ _.
          Ensures-bind (unwrap s.backstop) _ λ b' eb.
            Ensures-bind (is_new_backstop_is_larger tokens w.new_backstop b' s) _ λ l _.
              Ensures-panic_if (not l) _ _ λ _.
                Ensures-bind (execute_distribute tokens e b' s) _ λ r er.
                  let same : some b' ≡ some b = sym (unwrap_ok _ eb) ∙ h in
                  let k : b' ≡ b = cc in
                  let minted = (distribute_mint b' s).at r er in
                  Ensures-ok _ (subst (λ x. HasMinted tokens e x s r.1.chain) k minted)

  installed :
      (s : Storage Chain) (swap : Swap) (b t : Address) {r : Swap × Storage Chain}
      → s.queued_swap ≡ some swap
      → s.backstop ≡ some b
      → s.backstop_token ≡ some t
      → execute_swap_backstop tokens e s ≡ ok r
      → (swap.unlock_time ≤ e.timestamp)
        × (tokens.balance s.chain t b <ℤ tokens.balance s.chain t swap.new_backstop)
        × (r.1.backstop ≡ some swap.new_backstop)
        × (r.1.backstop_token ≡ some swap.new_backstop_token)
        × (r.1.queued_swap ≡ none)
        × (lookup swap.new_backstop r.1.last_distro ≡ some e.timestamp)
        × (lookup b r.1.last_distro ≡ some e.timestamp)
  unfolding execute_swap_backstop get_backstop set_backstop set_backstop_token del_queued_swap
      set_last_distro_time is_new_backstop_is_larger get_backstop_token
  installed s swap b t eq eb et h = grind (arith, distribute_frame, lookup-insert, nat_beq_iff)

  -- A swap that goes through, in a state with a queued swap, a backstop and its token, is
  -- unlocked, and the new backstop holds more of the token than the current one. It makes the
  -- queued backstop and its token the current ones, takes the swap off the queue, and sets the
  -- last distribution of both the old and the new backstop to now. It mints to the old backstop one
  -- BLND token (10^7 units) for each second since its last distribution, and nothing to anyone else.
  pub swap_backstop_lem :
      (s : Storage Chain) (swap : Swap) (b t : Address) {r : Swap × Storage Chain}
      → s.queued_swap ≡ some swap
      → s.backstop ≡ some b
      → s.backstop_token ≡ some t
      → execute_swap_backstop tokens e s ≡ ok r
      → (swap.unlock_time ≤ e.timestamp)
        × (tokens.balance s.chain t b <ℤ tokens.balance s.chain t swap.new_backstop)
        × (r.1.backstop ≡ some swap.new_backstop)
        × (r.1.backstop_token ≡ some swap.new_backstop_token)
        × (r.1.queued_swap ≡ none)
        × (lookup swap.new_backstop r.1.last_distro ≡ some e.timestamp)
        × (lookup b r.1.last_distro ≡ some e.timestamp)
        × HasMinted tokens e b s r.1.chain
  swap_backstop_lem s swap b t {r} eq eb et h =
      let f = installed s swap b t eq eb et h in
      (f.0, f.1, f.2, f.3, f.4, f.5, f.6, (swap_mint s b eb).at r h)
