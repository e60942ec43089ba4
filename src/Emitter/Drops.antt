-- ===== src/Emitter/Drops.antt =====
-- The drop of a backstop: `execute_drop` of emitter/src/emitter.rs.
use blend_contracts.Base.{
  ◌*◌, ◌≡◌, true, false, some, List, [], ◌∷◌, arith, ℤ, pos, ◌+ℤ◌, ◌≤ℤ◌, int_laws, >>=-eq-ok, ok,
  settle, settle_keeps, Ensures, Ensures-ok, Ensures-bind, add_i128, checked_ok,
}
use blend_contracts.Base.Map.{nat_key, nat_beq_iff, get_or-insert}
use blend_contracts.Base.Host.{Address, Env, TokenClient}
use blend_contracts.Emitter.State.{
  Storage, get_backstop, get_drop_status, set_drop_status, set_last_distro_time, set_backstop,
  set_backstop_token, del_queued_swap, Swap,
}
use blend_contracts.Emitter.Contract.{
  Call, initialize_call, distribute_call, cancel_swap_backstop, swap_backstop, queue_swap_backstop,
  drop_call, dispatch, run,
}
use blend_contracts.Emitter.Execute.{
  scalar_7, drop_sum, execute_drop, execute_swap_backstop, execute_cancel_swap_backstop,
  execute_queue_swap_backstop, initialize, distribute,
}
use blend_contracts.Emitter.Frame.{distribute_frame, cancel_swap_frame, queue_swap_frame}

-- The sum of the amounts, without bounds.
unfoldable pub amounts : List (Address × ℤ) → ℤ
amounts [] = pos 0
amounts ((a, amt) ∷ list) = amt +ℤ amounts list

drop_sum_lem :
    (acc : ℤ) (list : List (Address × ℤ)) {total : ℤ}
    → drop_sum acc list ≡ ok total
    → total ≡ acc +ℤ amounts list
unfolding drop_sum amounts
drop_sum_lem acc [] {total} h = let e : total ≡ acc = cc in omega int_laws
drop_sum_lem acc ((a, amt) ∷ list) h =
    let step = >>=-eq-ok (add_i128 acc amt) _ h in
    let sum = checked_ok _ step.1 in let rest = drop_sum_lem step.0 list step.2 in omega int_laws

module _ {Chain : Type 0} (tokens : TokenClient Chain) (e : Env) where
  status_insert :
      (a b : Address) (s : Storage Chain)
      → get_drop_status b s ≡ true
      → get_drop_status b (set_drop_status a s) ≡ true
  unfolding get_drop_status set_drop_status
  status_insert a b s h = grind (arith, get_or-insert, nat_beq_iff)

  status_set : (b : Address) (s : Storage Chain) → get_drop_status b (set_drop_status b s) ≡ true
  unfolding get_drop_status set_drop_status
  status_set b s = grind (arith, get_or-insert, nat_beq_iff)

  pub drop_lem :
      (list : List (Address × ℤ)) (s s' : Storage Chain) (b : Address)
      → s.backstop ≡ some b
      → execute_drop tokens e list s ≡ ok s'
      → (get_drop_status b s ≡ false)
        × (amounts list ≤ℤ pos (50000000 * scalar_7))
        × (get_drop_status b s' ≡ true)
  unfolding execute_drop get_backstop
  drop_lem list s s' b eb h = grind (arith, int_laws, drop_sum_lem, status_set)

  initialize_frame :
      (x y z : Address) (s : Storage Chain) {t : Storage Chain}
      → initialize tokens e x y z s ≡ ok t
      → t.dropped ≡ s.dropped
  unfolding initialize set_last_distro_time
  initialize_frame x y z s h = ground arith

  swap_frame :
      (s : Storage Chain) {r : Swap × Storage Chain}
      → execute_swap_backstop tokens e s ≡ ok r
      → r.1.dropped ≡ s.dropped
  unfolding execute_swap_backstop set_last_distro_time set_backstop set_backstop_token
      del_queued_swap
  swap_frame s h = grind (arith, distribute_frame)

  drop_status :
      (b : Address) (list : List (Address × ℤ)) (s : Storage Chain) {t : Storage Chain}
      → execute_drop tokens e list s ≡ ok t
      → get_drop_status b s ≡ true
      → get_drop_status b t ≡ true
  unfolding execute_drop get_drop_status set_drop_status
  drop_status b list s h k = grind (arith, get_or-insert, nat_beq_iff)

  status_same :
      (b : Address) (s t : Storage Chain)
      → get_drop_status b s ≡ true
      → t.dropped ≡ s.dropped
      → get_drop_status b t ≡ true
  unfolding get_drop_status
  status_same b s t h k = rw k h

  dispatch-status :
      (b : Address) (c : Call) (s : Storage Chain)
      → get_drop_status b s ≡ true
      → Ensures (λ (t : Storage Chain). get_drop_status b t ≡ true) (dispatch tokens e c s)
  unfolding dispatch distribute
  dispatch-status b (initialize_call x y z) s h = record {
    at = λ t et. status_same b s t h (initialize_frame x y z s et);
  }
  dispatch-status b distribute_call s h = Ensures-bind (distribute tokens e s) _ λ r er.
      let k = >>=-eq-ok (get_backstop s) _ er in
      Ensures-ok _ (status_same b s r.1 h (distribute_frame tokens e k.0 s k.2).4)
  dispatch-status b cancel_swap_backstop s h =
      Ensures-bind (execute_cancel_swap_backstop tokens e s) _
        λ r er. Ensures-ok _ (status_same b s r.1 h (cancel_swap_frame tokens e s er).5)
  dispatch-status b swap_backstop s h =
      Ensures-bind (execute_swap_backstop tokens e s) _
        λ r er. Ensures-ok _ (status_same b s r.1 h (swap_frame s er))
  dispatch-status b (queue_swap_backstop x y) s h =
      Ensures-bind (execute_queue_swap_backstop tokens e x y s) _
        λ r er. Ensures-ok _ (status_same b s r.1 h (queue_swap_frame tokens e x y s er).4)
  dispatch-status b (drop_call list) s h = record { at = λ t et. drop_status b list s et h }

module _ {Chain : Type 0} (tokens : TokenClient Chain) where
  run-status :
      (b : Address) (calls : List (Env × Call)) (s : Storage Chain)
      → get_drop_status b s ≡ true
      → get_drop_status b (run tokens calls s) ≡ true
  unfolding run
  run-status b [] s h = h
  run-status b ((e, c) ∷ calls) s h = run-status b calls (settle (dispatch tokens e c s) s) (
      settle_keeps (λ (t : Storage Chain). get_drop_status b t ≡ true) _ s h
        (dispatch-status tokens e b c s h))

  -- Where `execute_drop` succeeds in a state whose backstop is `b`, the amounts of its list are at
  -- most fifty million tokens in all, and where `b` is the backstop after any further calls, no
  -- `execute_drop` succeeds then, whatever its list is.
  pub drop_once :
      (e e' : Env) (list list' : List (Address × ℤ)) (calls : List (Env × Call))
      (s t t' : Storage Chain) (b : Address)
      → s.backstop ≡ some b
      → execute_drop tokens e list s ≡ ok t
      → (run tokens calls t).backstop ≡ some b
      → (amounts list ≤ℤ pos (50000000 * scalar_7))
        × ¬ (execute_drop tokens e' list' (run tokens calls t) ≡ ok t')
  drop_once e e' list list' calls s t t' b eb h eb' =
      let first = drop_lem tokens e list s t b eb h in
      (
        first.1,
        λ h'.
            let again = drop_lem tokens e' list' (run tokens calls t) t' b eb' h' in
            absurd (cc (run-status b calls t first.2, again.0)),
      )
