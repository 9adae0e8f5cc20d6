-- ===== src/Hub/Router.antt =====
-- crates/hub/src/attach_router.rs: where the bytes of each attach go. The methods run under one
-- lock, so each is a function on the router; a sender is a channel of tokio, of which only the
-- identity matters.
pub mod Consistency
pub mod Views
use webmux.Base.{
  String, ◌≡◌, Bool, true, false, not, ◌&&◌, Option, none, some, List, [], ◌∷◌, if◌then◌else◌,
  string_key, Key,
}
use webmux.Base.Set.{contains, add, delete, delete_all}
use webmux.Base.Map.{get, insert, remove, remove_all, keys_where}

abbrev pub str_eq : String → String → Bool
str_eq = string_key.eq

pub record Router (Sender : Type 0) : Type 0 where
  pub senders : List (String × Sender)
  pub compressed : List String
  pub previews : List String
  pub attach_to_terminal : List (String × (String × String))

module _ {Sender : Type 0} where
  unfoldable pub new : Router Sender
  new = record { senders = []; compressed = []; previews = []; attach_to_terminal = [] }

  unfoldable pub register_with_compression :
      Router Sender → String → String → String → Sender → Bool → Router Sender
  register_with_compression r attach_id machine_id terminal_id sender compress = record r {
    senders = insert attach_id sender r.senders;
    compressed = if compress then add attach_id r.compressed else r.compressed;
    attach_to_terminal = insert attach_id (machine_id, terminal_id) r.attach_to_terminal;
  }

  unfoldable pub register : Router Sender → String → String → String → Sender → Router Sender
  unfolding register_with_compression
  register r attach_id machine_id terminal_id sender =
      register_with_compression r attach_id machine_id terminal_id sender false

  unfoldable pub register_preview :
      Router Sender → String → String → String → Sender → Router Sender
  register_preview r attach_id machine_id terminal_id sender = record r {
    senders = insert attach_id sender r.senders;
    previews = add attach_id r.previews;
    attach_to_terminal = insert attach_id (machine_id, terminal_id) r.attach_to_terminal;
  }

  unfoldable pub main_attaches_of : Router Sender → String → String → List String
  main_attaches_of r machine_id terminal_id =
      keys_where
        (λ id at. str_eq at.0 machine_id && str_eq at.1 terminal_id && not (contains id r.previews))
        r.attach_to_terminal

  unfoldable pub is_compressed : Router Sender → String → Bool
  is_compressed r attach_id = contains attach_id r.compressed

  unfoldable pub lookup_sender : Router Sender → String → Option Sender
  lookup_sender r attach_id = get attach_id r.senders

  unfoldable pub lookup_terminal : Router Sender → String → Option (String × String)
  lookup_terminal r attach_id = get attach_id r.attach_to_terminal

  unfoldable pub unregister : Router Sender → String → Router Sender
  unregister r attach_id = record {
    senders = remove attach_id r.senders;
    compressed = delete attach_id r.compressed;
    previews = delete attach_id r.previews;
    attach_to_terminal = remove attach_id r.attach_to_terminal;
  }

  -- The attaches of a machine.
  attaches_of : Router Sender → String → List String
  attaches_of r machine_id = keys_where (λ id at. str_eq at.0 machine_id) r.attach_to_terminal

  -- The router afterwards, and the attaches that were dropped.
  unfoldable pub drop_machine : Router Sender → String → Router Sender × List String
  unfolding attaches_of
  drop_machine r machine_id =
      let dropped = attaches_of r machine_id in
      (
        record r {
          compressed = delete_all dropped r.compressed;
          senders = remove_all dropped r.senders;
          attach_to_terminal = remove_all dropped r.attach_to_terminal;
        },
        dropped,
      )
