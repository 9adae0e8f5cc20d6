-- ===== src/Machine/Watcher.antt =====
-- crates/machine/src/session_watcher.rs: one round of the poll that finds the terminals whose tmux
-- session is gone. What `list_terminal_ids` and `tmux ls` give, and the name of the session of a
-- terminal, are arguments.
pub mod Reports
use webmux.Base.{String, Bool, List, [], ◌∷◌, ◌++◌, if◌then◌else◌, string_key}
use webmux.Base.Set.{contains, add}

-- The loop over the known terminals: the ids reported so far, and the deaths sent.
unfoldable pub poll :
    (String → String) → List String → List String → List String → List String × List String
poll session_name alive reported [] = (reported, [])
poll session_name alive reported (id ∷ known) =
    if contains (session_name id) alive
    then poll session_name alive reported known
    else if contains id reported
    then poll session_name alive reported known
    else let (reported', deaths) = poll session_name alive (add id reported) known in
      (reported', id ∷ deaths)

-- The rounds of the watcher, from the known terminals and the live sessions of each.
unfoldable pub watch :
    (String → String) → List String → List (List String × List String) → List String
unfolding poll
watch session_name reported [] = []
watch session_name reported ((known, alive) ∷ rounds) =
    let (reported', deaths) = poll session_name alive reported known in
    deaths ++ watch session_name reported' rounds
