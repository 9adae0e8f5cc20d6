-- ===== src/Machine/Acp/Registry/Tests.antt =====
-- The registry of sessions at concrete calls.
use webmux.Base.{◌≡◌, true, false, List, [], ◌∷◌, ok, arith, nat_key, string_key}
use webmux.Base.Map.{get, insert, remove}
use webmux.Machine.Acp.{prompt}
use webmux.Machine.Acp.Registry.{
  Call, starts, tells, new, kill_session, start_session, kill_all, call, calls,
}
use webmux.Machine.Acp.Registry.Leaks.{was_killed, kill_all-was_killed}

-- A session that starts twice, with a prompt between.
abbrev twice : List Call
twice = starts "s1" (ok tt) ∷ tells "s1" (prompt "hi") (λ n. false) ∷ starts "s1" (ok tt) ∷ []

kill_all-was_killed_example :
    (was_killed 0 (kill_all (calls twice new)).acts ≡ true)
    × ((kill_all (calls twice new)).sessions ≡ [])
unfolding calls call start_session kill_session get insert remove
kill_all-was_killed_example = kill_all-was_killed twice 0 (omega arith)
