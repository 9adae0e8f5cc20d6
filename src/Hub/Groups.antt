-- ===== src/Hub/Groups.antt =====
-- crates/hub/src/db/workspace_groups.rs: the table of the tabs of a machine, under their ids. Each
-- function is the SQL statement that it runs, where the database answers; `now` is the clock's
-- time. A statement that changes rows returns their number. The hub gives sort orders by counting
-- from 0.
pub mod Tabs
mod Tests
use Prim.Native.Nat.{Ordering}
use Prim.Native.String.{compare}
use webmux.Base.{
  ℕ, ◌+◌, max, String, Bool, true, false, ◌&&◌, ◌||◌, Option, none, some, List, [], ◌∷◌, is_text,
  is_some, ltb, ◌==◌, if◌then◌else◌, string_key,
}
use webmux.Base.Map.{get, insert, modify, remove}

pub record WorkspaceGroupRow : Type 0 where
  pub user_id : String
  pub machine_id : String
  pub name : String
  pub sort_order : ℕ
  pub created_at : ℕ
  pub auto_created : Bool

abbrev pub Groups : Type 0
Groups = List (String × WorkspaceGroupRow)

-- `user_id = ?2 AND machine_id = ?3`.
abbrev pub is_of : String → String → WorkspaceGroupRow → Bool
is_of user machine row = is_text row.user_id user && is_text row.machine_id machine

-- `ORDER BY sort_order ASC, name ASC`.
pub comes_before : String × WorkspaceGroupRow → String × WorkspaceGroupRow → Bool
comes_before (i, a) (j, b) =
    ltb a.sort_order b.sort_order
    || (a.sort_order == b.sort_order
        && (elim (compare a.name b.name) [ Ordering.gt ↦ false | _ ↦ true ]))

pub place : String × WorkspaceGroupRow → Groups → Groups
unfolding comes_before
place a [] = a ∷ []
place a (b ∷ bs) = if comes_before a b then a ∷ b ∷ bs else b ∷ place a bs

unfoldable pub find_workspace_groups_by_machine : Groups → String → String → Groups
unfolding place
find_workspace_groups_by_machine [] user machine = []
find_workspace_groups_by_machine ((id, row) ∷ rows) user machine =
    let rest = find_workspace_groups_by_machine rows user machine in
    if is_of user machine row then place (id, row) rest else rest

-- Whether the row under an id is of a user's machine.
abbrev pub is_mine : String → String → Option WorkspaceGroupRow → Bool
is_mine user machine none = false
is_mine user machine (some row) = is_of user machine row

unfoldable pub workspace_group_belongs_to_machine : Groups → String → String → String → Bool
workspace_group_belongs_to_machine groups user machine id = is_mine user machine (get id groups)

-- An id that is taken is an error of the statement.
unfoldable pub insert_workspace_group :
    Groups → String → String → String → String → ℕ → Bool → ℕ → Option Groups
insert_workspace_group groups id user machine name sort_order auto now =
    if is_some (get id groups)
    then none
    else some (
        insert id
          (record {
            user_id = user;
            machine_id = machine;
            name = name;
            sort_order = sort_order;
            created_at = now;
            auto_created = auto;
          })
          groups)

abbrev pub create_workspace_group :
    Groups → String → String → String → String → ℕ → ℕ → Option Groups
create_workspace_group groups id user machine name sort_order now =
    insert_workspace_group groups id user machine name sort_order false now

abbrev pub create_auto_workspace_group :
    Groups → String → String → String → String → ℕ → ℕ → Option Groups
create_auto_workspace_group groups id user machine name sort_order now =
    insert_workspace_group groups id user machine name sort_order true now

-- `UPDATE … WHERE id = ? AND user_id = ? AND machine_id = ?`.
update_mine :
    Groups → String → String → String → (WorkspaceGroupRow → WorkspaceGroupRow) → Groups × ℕ
update_mine groups user machine id f =
    if is_mine user machine (get id groups) then (modify id f groups, 1) else (groups, 0)

unfoldable pub update_workspace_group_sort_order :
    Groups → String → String → String → ℕ → Groups × ℕ
unfolding update_mine
update_workspace_group_sort_order groups user machine id order =
    update_mine groups user machine id (λ row. record row { sort_order = order })

unfoldable pub update_workspace_group_name : Groups → String → String → String → String → Groups × ℕ
unfolding update_mine
update_workspace_group_name groups user machine id name =
    update_mine groups user machine id (λ row. record row { name = name; auto_created = false })

abbrev pub is_auto : Option WorkspaceGroupRow → Bool
is_auto none = false
is_auto (some row) = row.auto_created

unfoldable pub delete_workspace_group_if_auto : Groups → String → String → String → Groups × ℕ
delete_workspace_group_if_auto groups user machine id =
    if is_mine user machine (get id groups) && is_auto (get id groups)
    then (remove id groups, 1)
    else (groups, 0)

unfoldable pub delete_workspace_group : Groups → String → String → String → Groups × ℕ
delete_workspace_group groups user machine id =
    if is_mine user machine (get id groups) then (remove id groups, 1) else (groups, 0)

-- `MAX(sort_order)`, over the rows of a user's machine.
pub max_sort_order : Groups → String → String → Option ℕ
max_sort_order [] user machine = none
max_sort_order ((id, row) ∷ rows) user machine =
    let rest = max_sort_order rows user machine in
    if is_of user machine row
    then some (elim rest [ none ↦ row.sort_order | some n ↦ max row.sort_order n ])
    else rest

unfoldable pub next_sort_order : Groups → String → String → ℕ
unfolding max_sort_order
next_sort_order groups user machine = elim (max_sort_order groups user machine) [
  | none ↦ 0
  | some n ↦ n + 1
]
