-- ===== src/Emitter/State.antt =====
-- The emitter's storage: emitter/src/storage.rs, without the lifetime of entries, and the queued swap
-- of emitter/src/backstop_manager.rs.
use blend_contracts.Base.{ℕ, Bool, true, false, Option, none, some, Outcome, unwrap}
use blend_contracts.Base.Map.{Map, nat_key, lookup, insert, get_or}
use blend_contracts.Base.Host.{Address}

pub record Swap : Type 0 where
  pub new_backstop : Address
  pub new_backstop_token : Address
  pub unlock_time : ℕ

-- The entries of the storage, and the state of the token contracts.
pub record Storage (Chain : Type 0) : Type 0 where
  pub is_init : Bool
  pub backstop : Option Address
  pub backstop_token : Option Address
  pub blnd_token : Option Address
  pub queued_swap : Option Swap
  pub last_distro : Map Address ℕ
  pub dropped : Map Address Bool
  pub chain : Chain

module _ {Chain : Type 0} where
  unfoldable pub get_backstop : Storage Chain → Outcome Address
  get_backstop s = unwrap s.backstop

  unfoldable pub set_backstop : Address → Storage Chain → Storage Chain
  set_backstop a s = record s { backstop = some a }

  unfoldable pub get_backstop_token : Storage Chain → Outcome Address
  get_backstop_token s = unwrap s.backstop_token

  unfoldable pub set_backstop_token : Address → Storage Chain → Storage Chain
  set_backstop_token a s = record s { backstop_token = some a }

  unfoldable pub get_blnd_token : Storage Chain → Outcome Address
  get_blnd_token s = unwrap s.blnd_token

  unfoldable pub set_queued_swap : Swap → Storage Chain → Storage Chain
  set_queued_swap swap s = record s { queued_swap = some swap }

  unfoldable pub del_queued_swap : Storage Chain → Storage Chain
  del_queued_swap s = record s { queued_swap = none }

  unfoldable pub get_last_distro_time : Address → Storage Chain → Outcome ℕ
  get_last_distro_time backstop s = unwrap (lookup backstop s.last_distro)

  unfoldable pub set_last_distro_time : Address → ℕ → Storage Chain → Storage Chain
  set_last_distro_time backstop t s = record s { last_distro = insert backstop t s.last_distro }

  unfoldable pub get_drop_status : Address → Storage Chain → Bool
  get_drop_status backstop s = get_or backstop false s.dropped

  unfoldable pub set_drop_status : Address → Storage Chain → Storage Chain
  set_drop_status backstop s = record s { dropped = insert backstop true s.dropped }
