-- ===== src/Machine/Acp/Registry/Leaks.antt =====
-- No agent is left running without a session.
use webmux.Base.{
  ℕ, ◌<◌, ◌≡◌, refl, ◌∙◌, ◌==◌, ==_iff, ◌||◌, String, Bool, true, false, Option, none, some, List,
  [], ◌∷◌, Result, ok, err, arith, Option-cases, Bool-cases, inl, inr, if◌then◌else◌, nat_key,
  string_key,
}
use webmux.Base.Map.{get, insert, remove, get-remove, Distinct, insert-Distinct, remove-Distinct}
use webmux.Machine.Acp.{prompt, answer, set_model, cancel, kill}
use webmux.Machine.Acp.Registry.{
  Act, spawns, delivers, sends, AcpManager, new, kill_session, not_spawned, start_session,
  send_command, kill_each, kill_all, Call, starts, tells, ends, call, calls,
}

-- An actor that was sent a kill.
abbrev pub is_kill : ℕ → Act → Bool
is_kill n (delivers actor kill) = actor == n
is_kill n (delivers actor (prompt t)) = false
is_kill n (delivers actor (answer r o t)) = false
is_kill n (delivers actor (set_model m)) = false
is_kill n (delivers actor cancel) = false
is_kill n (spawns actor id) = false
is_kill n (sends m) = false

abbrev pub was_killed : ℕ → List Act → Bool
was_killed n [] = false
was_killed n (a ∷ acts) = is_kill n a || was_killed n acts

-- An actor that has a session.
has_session : ℕ → List (String × ℕ) → Bool
has_session n [] = false
has_session n ((id, actor) ∷ sessions) = actor == n || has_session n sessions

has-insert :
    (n k : ℕ) (id : String) (m : List (String × ℕ))
    → get id m ≡ none
    → has_session n (insert id k m) ≡ (k == n || has_session n m)
unfolding has_session get insert
has-insert n k id [] e = refl
has-insert n k id ((j, v) ∷ m) e = ground (arith, e, has-insert n k id m)

has-remove_fresh :
    (n : ℕ) (id : String) (m : List (String × ℕ))
    → get id m ≡ none
    → has_session n (remove id m) ≡ has_session n m
unfolding has_session get remove
has-remove_fresh n id [] e = refl
has-remove_fresh n id ((j, v) ∷ m) e = ground (arith, e, has-remove_fresh n id m)

has-remove :
    (n k : ℕ) (id : String) (m : List (String × ℕ))
    → Distinct m
    → get id m ≡ some k
    → has_session n m ≡ (k == n || has_session n (remove id m))
unfolding has_session get remove
has-remove n k id [] d e = absurd (ground (arith, e))
has-remove n k id ((j, v) ∷ m) d e =
    ground (arith, e, d, string_key.eq_iff j id, has-remove n k id m d.1, has-remove_fresh n id m)

record Inv (m : AcpManager) : Type 0 where
  one_each : Distinct m.sessions
  kept : (n : ℕ) → n < m.started → (was_killed n m.acts || has_session n m.sessions) ≡ true

kill_session-Inv : (id : String) (m : AcpManager) → Inv m → Inv (kill_session id m)
unfolding kill_session
kill_session-Inv id m h = elim (Option-cases (get id m.sessions)) [
  | inl e ↦ rw (e, kill_session) h
  | inr (k, e) ↦
      rw (e, kill_session)
        (record {
          one_each = remove-Distinct id m.sessions h.one_each;
          kept = λ n l. ground (arith, h.kept n l, has-remove n k id m.sessions h.one_each e);
        })
]

killed_gone : (id : String) (m : AcpManager) → get id (kill_session id m).sessions ≡ none
unfolding kill_session
killed_gone id m = ground (arith, get-remove id id m.sessions, string_key.eq_iff id id)

start_session-Inv :
    (id : String) (r : Result (Unit {0}) (String × String)) (m : AcpManager)
    → Inv m
    → Inv (start_session id r m)
unfolding start_session not_spawned
start_session-Inv id (err e) m h =
    let k = kill_session-Inv id m h in record { one_each = k.one_each; kept = k.kept }
start_session-Inv id (ok _) m h =
    let m' = kill_session id m in
    let k = kill_session-Inv id m h in
    record {
      one_each = insert-Distinct id m'.started m'.sessions k.one_each;
      kept = λ n l. ground (
        arith,
        l,
        k.kept n,
        ==_iff m'.started n,
        has-insert n m'.started id m'.sessions (killed_gone id m),
      );
    }

call-Inv : (c : Call) (m : AcpManager) → Inv m → Inv (call c m)
unfolding call send_command
call-Inv (starts id r) m h = start_session-Inv id r m h
call-Inv (ends id) m h = kill_session-Inv id m h
call-Inv (tells id c has_ended) m h = told (get id m.sessions) refl
  where
    told :
        (o : Option ℕ)
        → get id m.sessions ≡ o
        → Inv (elim o as (λ _. AcpManager) [
          | none ↦ m
          | some actor ↦
              if has_ended actor then m else (record m { acts = delivers actor c ∷ m.acts })
        ])
    told none e = h
    told (some actor) e = elim (Bool-cases (has_ended actor)) [
      | inl f ↦ rw f h
      | inr f ↦ rw f (record { one_each = h.one_each; kept = λ n l. ground (arith, h.kept n l) })
    ]

calls-Inv : (cs : List Call) (m : AcpManager) → Inv m → Inv (calls cs m)
unfolding calls
calls-Inv [] m h = h
calls-Inv (c ∷ cs) m h = calls-Inv cs (call c m) (call-Inv c m h)

kill_each-was_killed :
    (n : ℕ) (handles : List (String × ℕ)) (m : AcpManager)
    → was_killed n (kill_each handles m).acts ≡ (was_killed n m.acts || has_session n handles)
unfolding kill_each has_session
kill_each-was_killed n [] m = ground arith
kill_each-was_killed n ((id, actor) ∷ handles) m =
    ground
      (arith, kill_each-was_killed n handles (record m { acts = delivers actor kill ∷ m.acts }))

kill_each-sessions :
    (handles : List (String × ℕ)) (m : AcpManager) → (kill_each handles m).sessions ≡ m.sessions
unfolding kill_each
kill_each-sessions [] m = refl
kill_each-sessions ((id, actor) ∷ handles) m =
    kill_each-sessions handles (record m { acts = delivers actor kill ∷ m.acts })

-- Whatever was called, in whatever order, and whichever processes started or ended: after kill_all every
-- actor that was ever started has been sent a kill, and no session is left.
pub kill_all-was_killed :
    (cs : List Call) (n : ℕ)
    → n < (calls cs new).started
    → (was_killed n (kill_all (calls cs new)).acts ≡ true)
      × ((kill_all (calls cs new)).sessions ≡ [])
unfolding kill_all
kill_all-was_killed cs n l =
    let m = calls cs new in
    let h = calls-Inv cs new (record { one_each = tt; kept = λ k e. absurd (omega (arith, e)) }) in
    (
      kill_each-was_killed n m.sessions (record m { sessions = [] }) ∙ h.kept n l,
      kill_each-sessions m.sessions (record m { sessions = [] }),
    )
