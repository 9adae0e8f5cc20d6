-- ===== src/Hub/Groups/Tabs.antt =====
-- Where a new tab stands in the strip of its machine.
use webmux.Base.{
  ℕ, ◌<◌, String, ◌≡◌, Bool, true, Option, none, some, [], ◌∷◌, ◌++◌, arith, string_key,
}
use webmux.Base.Map.{get, insert}
use webmux.Hub.Groups.{
  WorkspaceGroupRow, Groups, is_of, comes_before, place, find_workspace_groups_by_machine,
  insert_workspace_group, max_sort_order, next_sort_order,
}

place-append :
    (a x : String × WorkspaceGroupRow) (bs : Groups)
    → a.1.sort_order < x.1.sort_order
    → place a (bs ++ x ∷ []) ≡ place a bs ++ x ∷ []
unfolding place comes_before
place-append a x [] h = ground arith
place-append a x (b ∷ bs) h = ground (arith, place-append a x bs h)

Under : ℕ → Option ℕ → Type 0
Under n none = Unit
Under n (some m) = m < n

find-insert :
    (groups : Groups) (id user machine : String) (row : WorkspaceGroupRow)
    → get id groups ≡ none
    → is_of user machine row ≡ true
    → Under row.sort_order (max_sort_order groups user machine)
    → find_workspace_groups_by_machine (insert id row groups) user machine
      ≡ find_workspace_groups_by_machine groups user machine ++ (id, row) ∷ []
unfolding find_workspace_groups_by_machine get insert max_sort_order Under place
find-insert [] id user machine row g m u = ground arith
find-insert ((j, r) ∷ rows) id user machine row g m u = ground (
  arith,
  find-insert rows id user machine row,
  place-append (j, r) (id, row) (find_workspace_groups_by_machine rows user machine),
)

Under-next :
    (groups : Groups) (user machine : String)
    → Under (next_sort_order groups user machine) (max_sort_order groups user machine)
unfolding next_sort_order Under
Under-next groups user machine = ground arith

-- A tab that is created with the next sort order stands last in the strip of its machine, and the tabs
-- before it stay as they were.
pub insert_workspace_group-last :
    (groups groups' : Groups) (id user machine name : String) (auto : Bool) (now : ℕ)
    → insert_workspace_group groups id user machine name
        (next_sort_order groups user machine)
        auto
        now
      ≡ some groups'
    → find_workspace_groups_by_machine groups' user machine
      ≡ find_workspace_groups_by_machine groups user machine
        ++ (
          id,
          record {
            user_id = user;
            machine_id = machine;
            name = name;
            sort_order = next_sort_order groups user machine;
            created_at = now;
            auto_created = auto;
          },
        )
          ∷ []
unfolding insert_workspace_group
insert_workspace_group-last groups groups' id user machine name auto now e = ground (
  arith,
  e,
  Under-next groups user machine,
  string_key.eq_iff user user,
  string_key.eq_iff machine machine,
  find-insert groups id user machine (record {
    user_id = user;
    machine_id = machine;
    name = name;
    sort_order = next_sort_order groups user machine;
    created_at = now;
    auto_created = auto;
  }),
)
