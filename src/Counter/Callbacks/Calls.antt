-- ===== src/Counter/Callbacks/Calls.antt =====
-- What one call of `callCallbacks_` queues, and what it remembers.
use toolbox.Base.{ℕ, Bool, ◌&&◌, List, [], ◌∷◌, if◌then◌else◌, select}
use mathlib.Core.List.{reverse}
use toolbox.Base.Int.{ℤ, ltb_ℤ, ◌<ℤ◌}
use toolbox.Counter.Callbacks.{CallbackInfo, Callbacks, call_callbacks}
use toolbox.Counter.Callbacks.Fired.{from, after, upto, before, resumes_forward, resumes_backward}

-- The range of counts that a walk covers: its start belongs to it unless the walk resumes there.
abbrev pub in_forward : Bool → ℤ → ℤ → CallbackInfo → Bool
in_forward resumes s e d = (if resumes then after s d else from s d) && upto e d

abbrev pub in_backward : Bool → ℤ → ℤ → CallbackInfo → Bool
in_backward resumes s e d = (if resumes then before s d else upto s d) && from e d

-- The callbacks that a call queues, in the order of the walk.
abbrev pub called : ℤ → ℤ → Callbacks → List CallbackInfo
called s e c =
    if ltb_ℤ s e
    then select (in_forward (resumes_forward s c) s e) c.callbacks
    else if ltb_ℤ e s
    then reverse (select (in_backward (resumes_backward s c) s e) c.callbacks)
    else []

-- Calls one after another, each from where the one before it ended.
unfoldable pub call_all : ℤ → List ℤ → Callbacks → List ℕ → Callbacks × List ℕ
call_all s [] c queue = (c, queue)
call_all s (x ∷ xs) c queue =
    let (c', queue') = call_callbacks s x c queue in call_all x xs c' queue'

abbrev pub Ascending : ℤ → List ℤ → Type 0
Ascending s [] = Unit
Ascending s (x ∷ xs) = (s <ℤ x) × Ascending x xs

abbrev pub end_of : ℤ → List ℤ → ℤ
end_of s [] = s
end_of s (x ∷ xs) = end_of x xs
