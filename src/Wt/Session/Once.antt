-- ===== src/Wt/Session/Once.antt =====
-- A session's end is told once, and its connection is closed only after both sides of the teardown are done.
use aiopquic.Base.{◌+◌, ◌≤◌, ◌≡◌, refl, arith, Bool, true, false, List, [], ◌∷◌}
use aiopquic.Wt.Session.{Session}
use aiopquic.Wt.Session.Run.{Input, handle, run, ends, closes, flag, torn_down}
use aiopquic.Wt.Session.Sound.{IsSound, after-IsSound, unchanged-IsSound}
use aiopquic.Wt.Session.Handled.{handle-IsSound}

run-IsSound : (xs : List Input) (s : Session) → IsSound s (run xs s)
unfolding run
run-IsSound [] s = unchanged-IsSound s [] refl refl
run-IsSound (x ∷ xs) s =
    after-IsSound (handle x s) (λ t. run xs t) (handle-IsSound x s) (run-IsSound xs (handle x s).0)

flag-le : (b : Bool) → flag b ≤ 1
flag-le true = omega arith
flag-le false = omega arith

-- Whatever the events of a session, the callbacks and the commands in any order and with any answers of
-- the stacks: asyncio is told its end at most once, and not at all if the session was closing before.
pub run-ends : (xs : List Input) (s : Session) → ends (run xs s).1 + flag s.session_closing ≤ 1
run-ends xs s = omega (arith, (run-IsSound xs s).told, flag-le (run xs s).0.session_closing)

-- From a session without a close deadline on, whatever its events: if the session's timer closes the
-- connection, our FIN on the CONNECT stream is sent and the resets of the session's streams are queued.
pub run-closes :
    (xs : List Input) (s : Session)
    → s.close_deadline ≡ 0
    → closes (run xs s).1 ≡ true
    → torn_down (run xs s).0 ≡ true
run-closes xs s none_yet c = let v = run-IsSound xs s in ground (arith, v.shut, none_yet, c)
