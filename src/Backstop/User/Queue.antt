-- ===== src/Backstop/User/Queue.antt =====
-- What the withdrawal queue of backstop/src/backstop/user.rs holds, before and after each operation.
use blend_contracts.Base.{
  length, ◌+◌, ◌<◌, ◌≡◌, Bool, List, [], ◌∷◌, ◌++◌, arith, ℤ, pos, ◌+ℤ◌, ◌-ℤ◌, ◌≤ℤ◌, int_laws,
  -ℤ_parts, ok, >>=-eq-ok, checked, add_u,
}
use blend_contracts.Base.Host.{Env}
use blend_contracts.Backstop.User.{
  Q4W, UserBalance, max_q4w_size, q4w_lock_time, queue_shares_for_withdrawal, dequeue_loop,
  dequeue_shares_for_withdrawal,
}

-- The sum of the queued amounts.
unfoldable pub queue_sum : List Q4W → ℤ
queue_sum [] = pos 0
queue_sum (q ∷ qs) = q.amount +ℤ queue_sum qs

-- All shares of a user, queued or not.
unfoldable pub held : UserBalance → ℤ
held b = b.shares +ℤ queue_sum b.q4w

pub queue_sum-append : (qs rs : List Q4W) → queue_sum (qs ++ rs) ≡ queue_sum qs +ℤ queue_sum rs
unfolding queue_sum
queue_sum-append [] rs = omega int_laws
queue_sum-append (q ∷ qs) rs = omega (int_laws, queue_sum-append qs rs)

-- What is left of an entry, the entry itself, or the entry before the rest is taken off.
take_part : (a s left : ℤ) → a +ℤ s +ℤ pos 0 ≡ a -ℤ left +ℤ s +ℤ left
take_part a s left = omega int_laws

take_entry : (a s left : ℤ) → a ≤ℤ left → left ≤ℤ a → a +ℤ s +ℤ pos 0 ≡ s +ℤ left
take_entry a s left h k = omega int_laws

take_rest : (a s left left' s' : ℤ) → s +ℤ left' ≡ s' +ℤ (left -ℤ a) → a +ℤ s +ℤ left' ≡ s' +ℤ left
take_rest a s left left' s' h = omega int_laws

-- The loop takes off the queue what it takes off the amount.
dequeue_loop_sum :
    (e : Env) (r : Bool) (left : ℤ) (qs : List Q4W) {left' : ℤ} {qs' : List Q4W}
    → dequeue_loop e r left qs ≡ ok (left', qs')
    → queue_sum qs +ℤ left' ≡ queue_sum qs' +ℤ left
unfolding dequeue_loop queue_sum checked
dequeue_loop_sum e r left [] h = grind int_laws
dequeue_loop_sum e r left (q ∷ qs) {left' = l} {qs' = rs} h = ground (
  arith,
  take_part q.amount (queue_sum qs) left,
  take_entry q.amount (queue_sum qs) left,
  take_rest q.amount (queue_sum qs) left l (queue_sum rs),
  dequeue_loop_sum e r (left -ℤ q.amount) qs {left' = l} {qs' = rs},
)

dequeue_loop_nonneg :
    (e : Env) (r : Bool) (left : ℤ) (qs : List Q4W) {left' : ℤ} {qs' : List Q4W}
    → pos 0 ≤ℤ left
    → dequeue_loop e r left qs ≡ ok (left', qs')
    → pos 0 ≤ℤ left'
unfolding dequeue_loop checked
dequeue_loop_nonneg e r left [] n h = ground arith
dequeue_loop_nonneg e r left (q ∷ qs) {left' = l} {qs' = rs} n h = ground (
  arith,
  -ℤ_parts left q.amount,
  dequeue_loop_nonneg e r (left -ℤ q.amount) qs {left' = l} {qs' = rs},
)

left_zero : (l s s' x : ℤ) → pos 0 ≤ℤ l → l ≤ℤ pos 0 → s +ℤ l ≡ s' +ℤ x → s ≡ s' +ℤ x
left_zero l s s' x n z h = omega int_laws

-- A successful dequeue of an amount that is not negative takes exactly the amount off the queue,
-- and leaves the shares.
pub dequeue_shares_sum :
    (e : Env) (x : ℤ) (r : Bool) (b : UserBalance) {b' : UserBalance}
    → pos 0 ≤ℤ x
    → dequeue_shares_for_withdrawal e x r b ≡ ok b'
    → (queue_sum b.q4w ≡ queue_sum b'.q4w +ℤ x) × (b'.shares ≡ b.shares)
unfolding dequeue_shares_for_withdrawal
dequeue_shares_sum e x r b {b' = c} n h =
    let (o, eq, k) = >>=-eq-ok (dequeue_loop e r x b.q4w) _ h in
    let sums = dequeue_loop_sum e r x b.q4w {left' = o.0} {qs' = o.1} eq in
    let nonneg = dequeue_loop_nonneg e r x b.q4w {left' = o.0} {qs' = o.1} n eq in
    ground (arith, left_zero o.0 (queue_sum b.q4w) (queue_sum o.1) x)

regroup : (s q x : ℤ) → s -ℤ x +ℤ (q +ℤ (x +ℤ pos 0)) ≡ s +ℤ q
regroup s q x = omega int_laws

-- A successful queueing takes the amount, which is at most the shares, off the shares and puts it
-- at the end of the queue under a lock of 21 days from now, where the queue had fewer entries than
-- its limit.
pub queue_shares_lem :
    (e : Env) (x : ℤ) (b : UserBalance) {b' : UserBalance}
    → queue_shares_for_withdrawal e x b ≡ ok b'
    → (b'.shares ≡ b.shares -ℤ x)
      × (b'.q4w ≡ b.q4w ++ (record { amount = x; exp = e.timestamp + q4w_lock_time }) ∷ [])
      × (x ≤ℤ b.shares)
      × (length b.q4w < max_q4w_size)
unfolding queue_shares_for_withdrawal checked add_u
queue_shares_lem e x b h = ground arith

-- So the user holds as much as before.
pub queue_shares-held :
    (e : Env) (x : ℤ) (b : UserBalance) {b' : UserBalance}
    → queue_shares_for_withdrawal e x b ≡ ok b'
    → held b' ≡ held b
unfolding held queue_sum
queue_shares-held e x b {b' = c} h =
    let l = queue_shares_lem e x b h in
    rw (l.0, l.1) (rw (queue_sum-append b.q4w _) (regroup b.shares (queue_sum b.q4w) x))

append_one : (q x : ℤ) → q +ℤ (x +ℤ pos 0) ≡ q +ℤ x
append_one q x = omega int_laws

-- The queue grows by the amount.
pub queue_shares-queue_sum :
    (e : Env) (x : ℤ) (b : UserBalance) {b' : UserBalance}
    → queue_shares_for_withdrawal e x b ≡ ok b'
    → queue_sum b'.q4w ≡ queue_sum b.q4w +ℤ x
unfolding queue_sum
queue_shares-queue_sum e x b h =
    rw ((queue_shares_lem e x b h).1)
      (rw (queue_sum-append b.q4w _) (append_one (queue_sum b.q4w) x))
