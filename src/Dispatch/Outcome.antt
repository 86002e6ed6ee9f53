-- ===== src/Dispatch/Outcome.antt =====
-- What a caller gets for each way in which a dispatched method can end.
use actor_zeta.Base.{Bool, true, false}
use actor_zeta.Future.SharedState.{SharedState, release_future}
use actor_zeta.Future.Promise.{promise_set_value, promise_exception}
use actor_zeta.Future.Coroutine.{await_suspend}
use actor_zeta.Future.Method.{Completion, returned, failed_with, threw, complete}
use actor_zeta.Awaiting.{await_resume}
use actor_zeta.Message.{Message}

-- The state of the method's future behind its final suspend point.
abbrev pub ended : {V X : Type 0} → SharedState V X → Completion V X → SharedState V X
ended s e = (await_suspend (complete e s)).state

-- `return_value(std::error_code)`: the state holds an error, and no exception that explains it.
abbrev pub is_bare_error : {V X : Type 0} → Completion V X → Bool
is_bare_error (returned v) = false
is_bare_error (failed_with ec) = true
is_bare_error (threw ep) = false

-- The caller's state once the outcome has been handed on, where that is done.
abbrev forwarded : {V X : Type 0} → SharedState V X → Completion V X → SharedState V X
forwarded r (returned v) = promise_set_value r v
forwarded r (failed_with ec) = r
forwarded r (threw ep) = promise_exception r ep

abbrev left : {V X : Type 0} → SharedState V X → Completion V X → SharedState V X
left s e = release_future (await_resume (ended s e)).1
