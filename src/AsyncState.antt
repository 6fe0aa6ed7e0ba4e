-- ===== src/AsyncState.antt =====
-- src/rn_async_state.c: whether an operation that was started has completed before the call that started
-- it returned. The callers pass the state of a request that there is, so it is never a null pointer.
use rl_nginx.Base.{Bool, true, false, not, ◌&&◌}

pub record AsyncState : Type 0 where
  pub starting : Bool
  pub completed : Bool

unfoldable pub state_begin : AsyncState → AsyncState
state_begin s = record { starting = true; completed = false }

unfoldable pub state_complete : AsyncState → AsyncState
state_complete s = record s { completed = true }

unfoldable pub state_is_starting : AsyncState → Bool
state_is_starting s = s.starting

-- Whether the operation is pending, and the state.
unfoldable pub state_finish : AsyncState → Bool → Bool × AsyncState
state_finish s start_succeeded = (start_succeeded && not s.completed, record s { starting = false })
