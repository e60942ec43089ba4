-- ===== src/Backstop/User/Expiry.antt =====
-- Which amounts can leave the withdrawal queue of backstop/src/backstop/user.rs, and when.
use blend_contracts.Base.{
  ◌≡◌, ◌↔◌, refl, Bool, true, not, ◌||◌, List, [], ◌∷◌, arith, leb, if◌then◌else◌, ℤ, pos, ◌+ℤ◌,
  ◌-ℤ◌, ◌≤ℤ◌, ◌<ℤ◌, +ℤ_parts, -ℤ_parts, Outcome, ok, panic, >>=-eq-ok, fits_i128, fits_below,
  checked,
}
use blend_contracts.Base.Host.{Env}
use blend_contracts.Backstop.User.{Q4W, UserBalance, dequeue_loop, dequeue_shares_for_withdrawal}

-- An amount of the queue is an i128 that is not negative.
abbrev pub IsQueue : List Q4W → Type 0
IsQueue [] = Unit
IsQueue (q ∷ qs) = (pos 0 ≤ℤ q.amount) × (fits_i128 q.amount ≡ true) × IsQueue qs

-- The sum of the entries up to the first that is locked; of all entries, if locks do not count.
unfoldable pub available : Env → Bool → List Q4W → ℤ
available e require_expired [] = pos 0
available e require_expired (q ∷ qs) =
    if not require_expired || leb q.exp e.timestamp
    then q.amount +ℤ available e require_expired qs
    else pos 0

pub available_nonneg : (e : Env) (r : Bool) (qs : List Q4W) → IsQueue qs → pos 0 ≤ℤ available e r qs
unfolding available
available_nonneg e r [] v = omega arith
available_nonneg e r (q ∷ qs) v =
    ground (arith, +ℤ_parts q.amount (available e r qs), available_nonneg e r qs)

-- Whether the loop ends with nothing left to dequeue.
abbrev Emptied : Outcome (ℤ × List Q4W) → Type 0
Emptied (ok r) = r.0 ≤ℤ pos 0
Emptied (panic p) = ⊥

dequeue_loop_enough :
    (e : Env) (r : Bool) (left : ℤ) (qs : List Q4W)
    → IsQueue qs
    → pos 0 <ℤ left
    → fits_i128 left ≡ true
    → left ≤ℤ available e r qs
    → Emptied (dequeue_loop e r left qs)
unfolding dequeue_loop available checked
dequeue_loop_enough e r left [] v p f h = absurd (omega arith)
dequeue_loop_enough e r left (q ∷ qs) v p f h = ground (
  arith,
  +ℤ_parts q.amount (available e r qs),
  -ℤ_parts left q.amount,
  -ℤ_parts q.amount left,
  fits_below (left -ℤ q.amount) left,
  fits_below (q.amount -ℤ left) q.amount,
  dequeue_loop_enough e r (left -ℤ q.amount) qs,
)

dequeue_loop_short :
    (e : Env) (r : Bool) (left : ℤ) (qs : List Q4W)
    → IsQueue qs
    → pos 0 <ℤ left
    → Emptied (dequeue_loop e r left qs)
    → left ≤ℤ available e r qs
unfolding dequeue_loop available checked
dequeue_loop_short e r left [] v p h = absurd (omega arith)
dequeue_loop_short e r left (q ∷ qs) v p h = ground (
  arith,
  +ℤ_parts q.amount (available e r qs),
  -ℤ_parts left q.amount,
  available_nonneg e r qs,
  dequeue_loop_short e r (left -ℤ q.amount) qs,
)

Emptied-ok :
    (o : Outcome (ℤ × List Q4W)) → Emptied o → (a : ℤ × List Q4W) × (o ≡ ok a) × (a.0 ≤ℤ pos 0)
Emptied-ok (ok a) h = (a, refl, h)
Emptied-ok (panic p) h = absurd h

dequeue_shares_short :
    (e : Env) (x : ℤ) (r : Bool) (b : UserBalance) {b' : UserBalance}
    → IsQueue b.q4w
    → pos 0 <ℤ x
    → dequeue_shares_for_withdrawal e x r b ≡ ok b'
    → x ≤ℤ available e r b.q4w
unfolding dequeue_shares_for_withdrawal
dequeue_shares_short e x r b v p h =
    let (o, eq, k) = >>=-eq-ok (dequeue_loop e r x b.q4w) _ h in
    let left : o.0 ≤ℤ pos 0 = ground arith in dequeue_loop_short e r x b.q4w v p (rw eq left)

dequeue_shares_enough :
    (e : Env) (x : ℤ) (r : Bool) (b : UserBalance)
    → IsQueue b.q4w
    → pos 0 <ℤ x
    → fits_i128 x ≡ true
    → x ≤ℤ available e r b.q4w
    → (b' : UserBalance) × (dequeue_shares_for_withdrawal e x r b ≡ ok b')
unfolding dequeue_shares_for_withdrawal
dequeue_shares_enough e x r b v p f h =
    let (o, eq, z) = Emptied-ok _ (dequeue_loop_enough e r x b.q4w v p f h) in
    (record b { q4w = o.1 }, rw eq (ground arith))

-- From a queue of amounts that are not negative i128, a positive i128 amount can be dequeued
-- exactly if the entries in front of the first locked one hold it (all entries, where locks do not
-- count).
pub dequeue_shares_iff :
    (e : Env) (x : ℤ) (r : Bool) (b : UserBalance)
    → IsQueue b.q4w
    → pos 0 <ℤ x
    → fits_i128 x ≡ true
    → ((b' : UserBalance) × (dequeue_shares_for_withdrawal e x r b ≡ ok b'))
      ↔ (x ≤ℤ available e r b.q4w)
dequeue_shares_iff e x r b v p f =
    (λ h. dequeue_shares_short e x r b v p h.1, dequeue_shares_enough e x r b v p f)
