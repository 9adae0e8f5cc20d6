-- ===== src/Hub/Tests.antt =====
-- crates/hub at concrete inputs: the theorems on attaches.
use webmux.Base.{ℕ, ◌≡◌, true, false, none, List, [], ◌∷◌, if◌then◌else◌, string_key}
use webmux.Base.Set.{contains}
use webmux.Hub.Router.{Router, new, drop_machine, lookup_terminal, lookup_sender, is_compressed}
use webmux.Hub.Router.Consistency.{
  Call, after_all, Consistent, after_all-new-Consistent, registers, previews,
}
use webmux.Hub.Router.Views.{is_on, drop_machine_exact}

-- A terminal and a thumbnail on one machine, and a terminal on another.
abbrev attaches : List (Call ℕ)
attaches =
    registers "a1" "nas" "t1" 1 true
    ∷ previews "p1" "nas" "t1" 2
    ∷ registers "a2" "laptop" "t2" 3 false
    ∷ []

abbrev attached : Router ℕ
attached = after_all new attaches

attached-Consistent : Consistent attached
attached-Consistent = after_all-new-Consistent attaches

after_all-new-Consistent_example : Consistent (after_all new attaches)
after_all-new-Consistent_example = after_all-new-Consistent attaches

drop_machine_exact_example :
    let (r', dropped) = drop_machine attached "nas" in
    (contains "a1" dropped ≡ is_on "nas" (lookup_terminal attached "a1"))
    × (lookup_sender r' "a1"
        ≡ (if contains "a1" dropped then none else lookup_sender attached "a1"))
    × (lookup_terminal r' "a1"
        ≡ (if contains "a1" dropped then none else lookup_terminal attached "a1"))
    × (is_compressed r' "a1"
        ≡ (if contains "a1" dropped then false else is_compressed attached "a1"))
drop_machine_exact_example = drop_machine_exact attached "nas" "a1" attached-Consistent
