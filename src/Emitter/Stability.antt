-- ===== src/Emitter/Stability.antt =====
-- How soon the backstop can change: emitter/src/backstop_manager.rs.
use blend_contracts.Base.{
  ℕ, ◌+◌, ◌≤◌, ◌<◌, ◌≡◌, refl, true, Option, none, some, List, [], ◌∷◌, arith, ok, settle,
  settle_keeps,
}
use blend_contracts.Base.Host.{Address, Env, TokenClient}
use blend_contracts.Emitter.State.{Storage, Swap}
use blend_contracts.Emitter.Execute.{swap_lock_time, initialize, distribute, execute_swap_backstop}
use blend_contracts.Emitter.Contract.{
  Call, initialize_call, distribute_call, cancel_swap_backstop, swap_backstop, queue_swap_backstop,
  drop_call, dispatch, run,
}
use blend_contracts.Emitter.Frame.{
  distribute_frame, cancel_swap_frame, queue_swap_frame, drop_frame,
}
use blend_contracts.Emitter.Swaps.{queue_swap_lem}

-- A queued swap opens 31 days after `t` or later.
abbrev pub Locked : ℕ → Option Swap → Type 0
Locked t none = Unit
Locked t (some swap) = t + swap_lock_time ≤ swap.unlock_time

-- All calls are made from `t` on and before 31 days have passed.
abbrev pub Within : ℕ → List (Env × Call) → Type 0
Within t [] = Unit
Within t ((e, c) ∷ calls) = (t ≤ e.timestamp) × (e.timestamp < t + swap_lock_time) × Within t calls

pub record IsStable {Chain : Type 0} (t : ℕ) (b : Option Address) (s : Storage Chain) : Type 0 where
  pub init : s.is_init ≡ true
  pub current : s.backstop ≡ b
  pub locked : Locked t s.queued_swap

module _ {Chain : Type 0} (tokens : TokenClient Chain) (t : ℕ) (b : Option Address) (e : Env)
    (from_t : t ≤ e.timestamp) (before : e.timestamp < t + swap_lock_time) (s : Storage Chain)
    (st : IsStable t b s) {s' : Storage Chain} where
  dispatch-IsStable : (c : Call) → dispatch tokens e c s ≡ ok s' → IsStable t b s'
  unfolding dispatch
  dispatch-IsStable (initialize_call blnd a token) h = unfold initialize in ground arith
  dispatch-IsStable distribute_call h = unfold distribute in grind (arith, distribute_frame)
  dispatch-IsStable cancel_swap_backstop h = grind (arith, cancel_swap_frame)
  dispatch-IsStable swap_backstop h = unfold execute_swap_backstop in ground arith
  dispatch-IsStable (queue_swap_backstop a token) h =
      grind (arith, queue_swap_lem, queue_swap_frame)
  dispatch-IsStable (drop_call list) h = ground (arith, drop_frame tokens e list s h)

module _ {Chain : Type 0} (tokens : TokenClient Chain) where
  run-IsStable :
      (t : ℕ) (b : Option Address) (calls : List (Env × Call)) (s : Storage Chain)
      → Within t calls
      → IsStable t b s
      → IsStable t b (run tokens calls s)
  unfolding run
  run-IsStable t b [] s w st = st
  run-IsStable t b ((e, c) ∷ calls) s w st =
      run-IsStable t b calls (settle (dispatch tokens e c s) s) w.2 (
        settle_keeps (IsStable t b) _ s st
          (record { at = λ s' h. dispatch-IsStable tokens t b e w.0 w.1 s st c h }))

  -- Where the emitter is initialized and no swap is queued, any sequence of calls made from a time
  -- on and within the 31 days after it leaves the backstop as it is.
  pub run-backstop_stable :
      (t : ℕ) (calls : List (Env × Call)) (s : Storage Chain)
      → s.is_init ≡ true
      → s.queued_swap ≡ none
      → Within t calls
      → (run tokens calls s).backstop ≡ s.backstop
  run-backstop_stable t calls s init empty w =
      (run-IsStable t s.backstop calls s w
        (record { init = init; current = refl; locked = rw empty tt })).current
