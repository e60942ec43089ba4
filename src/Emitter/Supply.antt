-- ===== src/Emitter/Supply.antt =====
-- How much BLND the emitter issues: emitter/src/emitter.rs.
use blend_contracts.Base.{
  sub_u_ok, ℕ, ◌-◌, ◌*◌, ◌≤◌, ◌≡◌, refl, ap, ◌∙◌, true, some, List, [], ◌∷◌, arith, ℤ, pos, ◌+ℤ◌,
  pos-*ℤ, int_laws, ok, or_panic, or_panic_ok, host, settle, settle_keeps, Ensures, Ensures-ok,
  Ensures-bind, Ensures-panic, Ensures-panic_if, not, ltb, emitter_error, EmitterError, checked_ok,
  mul_i128, sub_u,
}
use blend_contracts.Base.Host.{Address, Env, TokenClient, Supply}
use blend_contracts.Base.Map.{lookup, nat_key, nat_beq_iff, lookup-insert}
use blend_contracts.Emitter.State.{
  Storage, get_backstop, get_blnd_token, set_last_distro_time, get_last_distro_time,
}
use blend_contracts.Emitter.State.{set_backstop, set_backstop_token, del_queued_swap}
use blend_contracts.Emitter.Frame.{distribute_frame, cancel_swap_frame, queue_swap_frame}
use blend_contracts.Emitter.Contract.{
  Call, initialize_call, distribute_call, cancel_swap_backstop, swap_backstop, queue_swap_backstop,
  drop_call, dispatch, run,
}
use blend_contracts.Emitter.Execute.{
  scalar_7, is_new_backstop_is_larger, initialize, distribute, execute_distribute,
  execute_swap_backstop, execute_cancel_swap_backstop, execute_queue_swap_backstop,
}

get_backstop_ok :
    {Chain : Type 0} (s : Storage Chain) {b c : Address}
    → s.backstop ≡ some c
    → get_backstop s ≡ ok b
    → c ≡ b
unfolding get_backstop
get_backstop_ok s ec h = ground arith

module _ {Chain : Type 0} (tokens : TokenClient Chain) (law : Supply tokens) where
  -- A distribution mints one token (10^7 units) for each second since the last one.
  pub distribute_supply :
      (e : Env) (b blnd : Address) (t : ℕ) (s : Storage Chain)
      → lookup b s.last_distro ≡ some t
      → s.blnd_token ≡ some blnd
      → Ensures
          (λ r.
            (r.0 ≡ pos ((e.timestamp - t) * scalar_7))
            × (t ≤ e.timestamp)
            × (law.supply r.1.chain blnd ≡ law.supply s.chain blnd +ℤ r.0)
            × (lookup b r.1.last_distro ≡ some e.timestamp))
          (execute_distribute tokens e b s)
  unfolding execute_distribute get_last_distro_time get_blnd_token set_last_distro_time
  distribute_supply e b blnd t s et eb =
      rw (et, eb)
        (Ensures-bind (sub_u e.timestamp t) _ λ d ed.
          Ensures-bind (mul_i128 (pos d) (pos scalar_7)) _ λ amount ea.
            Ensures-bind (or_panic host (tokens.mint s.chain blnd b amount)) _ λ c ec.
              Ensures-ok _ (
                checked_ok _ ea
                    ∙ pos-*ℤ d scalar_7
                    ∙ ap (λ (n : ℕ). pos (n * scalar_7)) (sub_u_ok _ t ed).1,
                (sub_u_ok _ t ed).0,
                law.mint_supply s.chain blnd b amount c (or_panic_ok _ _ ec),
                ground (arith, lookup-insert b b e.timestamp s.last_distro, nat_beq_iff b b),
              ))

-- The current backstop has been paid up to `paid_to`, and the supply is `base` and 10^7 units for
-- each second up to then.
pub record IsPaid {Chain : Type 0} {tokens : TokenClient Chain} (law : Supply tokens) (base : ℤ)
    (blnd : Address) (s : Storage Chain) : Type 0 where
  pub current : Address
  pub paid_to : ℕ
  pub init : s.is_init ≡ true
  pub backstop : s.backstop ≡ some current
  pub token : s.blnd_token ≡ some blnd
  pub clock : lookup current s.last_distro ≡ some paid_to
  pub issued : law.supply s.chain blnd ≡ base +ℤ pos (paid_to * scalar_7)

-- The calls without drops.
abbrev pub NoDrops : List (Env × Call) → Type 0
NoDrops [] = Unit
NoDrops ((e, drop_call list) ∷ calls) = ⊥
NoDrops ((e, c) ∷ calls) = NoDrops calls

pay_step :
    (base r s : ℤ) (t now : ℕ)
    → t ≤ now
    → r ≡ pos ((now - t) * scalar_7)
    → s ≡ base +ℤ pos (t * scalar_7)
    → s +ℤ r ≡ base +ℤ pos (now * scalar_7)
pay_step base r s t now le er es = rw (er, es) (omega int_laws)

module _ {Chain : Type 0} (tokens : TokenClient Chain) (law : Supply tokens) (base : ℤ)
    (blnd : Address) (e : Env) (s : Storage Chain) (paid : IsPaid law base blnd s) where
  -- the state after a distribution
  pay :
      (b : Address) (r : ℤ × Storage Chain)
      → get_backstop s ≡ ok b
      → execute_distribute tokens e b s ≡ ok r
      → IsPaid law base blnd r.1
  pay b r eb er' =
      let er : execute_distribute tokens e paid.current s ≡ ok r =
        ap (λ c. execute_distribute tokens e c s) (get_backstop_ok s paid.backstop eb) ∙ er' in
      let d =
        (distribute_supply tokens law e paid.current blnd paid.paid_to s paid.clock paid.token).at r
          er in
      let f = distribute_frame tokens e paid.current s er in
      record {
        current = paid.current;
        paid_to = e.timestamp;
        init = f.5 ∙ paid.init;
        backstop = f.1 ∙ paid.backstop;
        token = f.3 ∙ paid.token;
        clock = d.3;
        issued = d.2 ∙ pay_step base r.0 _ paid.paid_to e.timestamp d.1 d.0 paid.issued;
      }

  distribute-IsPaid : Ensures (IsPaid law base blnd) (dispatch tokens e distribute_call s)
  unfolding dispatch distribute
  distribute-IsPaid = Ensures-bind (distribute tokens e s) _ λ r er. Ensures-ok _ (result.at r er)
    where
      result : Ensures (λ r. IsPaid law base blnd r.1) (distribute tokens e s)
      result = Ensures-bind (get_backstop s) _ λ b eb. record { at = λ r er. pay b r eb er }

  swap-IsPaid : Ensures (IsPaid law base blnd) (dispatch tokens e swap_backstop s)
  unfolding dispatch execute_swap_backstop set_backstop set_backstop_token del_queued_swap
      set_last_distro_time pay
  swap-IsPaid =
      Ensures-bind (execute_swap_backstop tokens e s) _ λ q eq. Ensures-ok _ ((swap_result).at q eq)
    where
      swap_result : Ensures (λ q. IsPaid law base blnd q.1) (execute_swap_backstop tokens e s)
      swap_result =
          Ensures-bind (or_panic (emitter_error EmitterError.swap_not_queued) s.queued_swap) _
            λ w _. Ensures-panic_if (ltb e.timestamp w.unlock_time) _ _ λ _.
              Ensures-bind (get_backstop s) _ λ b eb.
                Ensures-bind (is_new_backstop_is_larger tokens w.new_backstop b s) _ λ l _.
                  Ensures-panic_if (not l) _ _ λ _.
                    Ensures-bind (execute_distribute tokens e b s) _ λ r er.
                      let p = pay b r eb er in
                      Ensures-ok _ (record {
                        current = w.new_backstop;
                        paid_to = e.timestamp;
                        init = p.init;
                        backstop = refl;
                        token = p.token;
                        clock = ground (
                          arith,
                          lookup-insert w.new_backstop w.new_backstop e.timestamp r.1.last_distro,
                          nat_beq_iff w.new_backstop w.new_backstop,
                        );
                        issued = p.issued;
                      })

  unchanged-IsPaid :
      (s' : Storage Chain)
      → s'.backstop ≡ s.backstop
      → s'.is_init ≡ s.is_init
      → s'.last_distro ≡ s.last_distro
      → s'.blnd_token ≡ s.blnd_token
      → s'.chain ≡ s.chain
      → IsPaid law base blnd s'
  unchanged-IsPaid s' eb ei el et ec = record {
    current = paid.current;
    paid_to = paid.paid_to;
    init = ei ∙ paid.init;
    backstop = eb ∙ paid.backstop;
    token = et ∙ paid.token;
    clock = rw el paid.clock;
    issued = rw ec paid.issued;
  }

  dispatch-IsPaid :
      (c : Call) → NoDrops ((e, c) ∷ []) → Ensures (IsPaid law base blnd) (dispatch tokens e c s)
  unfolding dispatch
  dispatch-IsPaid (initialize_call a b c) n = unfold initialize in rw paid.init (Ensures-panic _)
  dispatch-IsPaid distribute_call n = distribute-IsPaid
  dispatch-IsPaid cancel_swap_backstop n =
      Ensures-bind (execute_cancel_swap_backstop tokens e s) _ λ r er.
        let f = cancel_swap_frame tokens e s er in
        Ensures-ok _ (unchanged-IsPaid r.1 f.1 f.2 f.3 f.4 f.6)
  dispatch-IsPaid swap_backstop n = swap-IsPaid
  dispatch-IsPaid (queue_swap_backstop a t) n =
      Ensures-bind (execute_queue_swap_backstop tokens e a t s) _ λ r er.
        let f = queue_swap_frame tokens e a t s er in
        Ensures-ok _ (unchanged-IsPaid r.1 f.0 f.1 f.2 f.3 f.5)
  dispatch-IsPaid (drop_call list) n = absurd n

NoDrops-head :
    (e : Env) (c : Call) (calls : List (Env × Call))
    → NoDrops ((e, c) ∷ calls)
    → NoDrops ((e, c) ∷ [])
NoDrops-head e (initialize_call a b c) calls n = tt
NoDrops-head e distribute_call calls n = tt
NoDrops-head e cancel_swap_backstop calls n = tt
NoDrops-head e swap_backstop calls n = tt
NoDrops-head e (queue_swap_backstop a t) calls n = tt
NoDrops-head e (drop_call list) calls n = n

NoDrops-tail :
    (e : Env) (c : Call) (calls : List (Env × Call)) → NoDrops ((e, c) ∷ calls) → NoDrops calls
NoDrops-tail e (initialize_call a b c) calls n = n
NoDrops-tail e distribute_call calls n = n
NoDrops-tail e cancel_swap_backstop calls n = n
NoDrops-tail e swap_backstop calls n = n
NoDrops-tail e (queue_swap_backstop a t) calls n = n
NoDrops-tail e (drop_call list) calls n = absurd n

module _ {Chain : Type 0} (tokens : TokenClient Chain) (law : Supply tokens) where
  -- Where the supply of BLND is a base and one token (10^7 units) for each second up to the last
  -- distribution of the current backstop, and the emitter is initialized, this holds after any
  -- sequence of calls without drops, on the same base, also where the backstop was swapped.
  pub run-IsPaid :
      (base : ℤ) (blnd : Address) (calls : List (Env × Call)) (s : Storage Chain)
      → NoDrops calls
      → IsPaid law base blnd s
      → IsPaid law base blnd (run tokens calls s)
  unfolding run
  run-IsPaid base blnd [] s n paid = paid
  run-IsPaid base blnd ((e, c) ∷ calls) s n paid =
      run-IsPaid base blnd calls (settle (dispatch tokens e c s) s) (NoDrops-tail e c calls n) (
        settle_keeps (IsPaid law base blnd) _ s paid
          (dispatch-IsPaid tokens law base blnd e s paid c (NoDrops-head e c calls n)))
