-- ===== src/Emitter/Frame.antt =====
-- What each call of emitter/src leaves alone.
use blend_contracts.Base.{◌≡◌, none, arith, List, ℤ, ok}
use blend_contracts.Base.Map.{nat_key, insert}
use blend_contracts.Base.Host.{Address, Env, TokenClient}
use blend_contracts.Emitter.State.{
  Storage, Swap, set_queued_swap, del_queued_swap, set_last_distro_time, set_drop_status,
}
use blend_contracts.Emitter.Execute.{
  execute_distribute, execute_queue_swap_backstop, execute_cancel_swap_backstop, execute_drop,
}

module _ {Chain : Type 0} (tokens : TokenClient Chain) (e : Env) where
  pub cancel_swap_frame :
      (s : Storage Chain) {r : Swap × Storage Chain}
      → execute_cancel_swap_backstop tokens e s ≡ ok r
      → (r.1.queued_swap ≡ none)
        × (r.1.backstop ≡ s.backstop)
        × (r.1.is_init ≡ s.is_init)
        × (r.1.last_distro ≡ s.last_distro)
        × (r.1.blnd_token ≡ s.blnd_token)
        × (r.1.dropped ≡ s.dropped)
        × (r.1.chain ≡ s.chain)
  unfolding execute_cancel_swap_backstop del_queued_swap
  cancel_swap_frame s h = ground arith

  -- What the distribution inside a swap leaves alone.
  pub distribute_frame :
      (b : Address) (s : Storage Chain) {r : ℤ × Storage Chain}
      → execute_distribute tokens e b s ≡ ok r
      → (r.1.queued_swap ≡ s.queued_swap)
        × (r.1.backstop ≡ s.backstop)
        × (r.1.last_distro ≡ insert b e.timestamp s.last_distro)
        × (r.1.blnd_token ≡ s.blnd_token)
        × (r.1.dropped ≡ s.dropped)
        × (r.1.is_init ≡ s.is_init)
  unfolding execute_distribute set_last_distro_time
  distribute_frame b s h = ground arith

  -- What a drop leaves alone.
  pub drop_frame :
      (list : List (Address × ℤ)) (s : Storage Chain) {s' : Storage Chain}
      → execute_drop tokens e list s ≡ ok s'
      → (s'.queued_swap ≡ s.queued_swap)
        × (s'.backstop ≡ s.backstop)
        × (s'.is_init ≡ s.is_init)
        × (s'.last_distro ≡ s.last_distro)
        × (s'.blnd_token ≡ s.blnd_token)
  unfolding execute_drop set_drop_status
  drop_frame list s h = ground arith

  -- What queueing a swap leaves alone.
  pub queue_swap_frame :
      (a t : Address) (s : Storage Chain) {r : Swap × Storage Chain}
      → execute_queue_swap_backstop tokens e a t s ≡ ok r
      → (r.1.backstop ≡ s.backstop)
        × (r.1.is_init ≡ s.is_init)
        × (r.1.last_distro ≡ s.last_distro)
        × (r.1.blnd_token ≡ s.blnd_token)
        × (r.1.dropped ≡ s.dropped)
        × (r.1.chain ≡ s.chain)
  unfolding execute_queue_swap_backstop set_queued_swap
  queue_swap_frame a t s h = ground arith
