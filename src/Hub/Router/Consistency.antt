-- ===== src/Hub/Router/Consistency.antt =====
-- The router's four maps speak of the same attaches.
use webmux.Base.{String, ◌≡◌, refl, Bool, false, none, List, [], ◌∷◌, arith, string_key}
use webmux.Base.Set.{contains, contains-add, contains-delete, contains-delete_all}
use webmux.Base.Map.{
  get, get-insert, get-remove, get-remove_all, Distinct, insert-Distinct, remove-Distinct,
  remove_all-Distinct,
}
use webmux.Hub.Router.{
  Router, new, register_with_compression, register_preview, unregister, attaches_of, drop_machine,
}

-- The calls that change a router.
pub data Call (Sender : Type 0) : Type 0 where
  registers :
      (attach_id machine_id terminal_id : String) (sender : Sender) (compress : Bool) → Call Sender
  previews : (attach_id machine_id terminal_id : String) (sender : Sender) → Call Sender
  unregisters : (attach_id : String) → Call Sender
  drops : (machine_id : String) → Call Sender

module _ {Sender : Type 0} where
  -- An attach has a sender exactly when it has a terminal, and is compressed only if it has.
  pub record Consistent (r : Router Sender) : Type 0 where
    pub distinct : Distinct r.attach_to_terminal
    pub sender_iff :
        (id : String)
        → (get id r.senders ≡ none → get id r.attach_to_terminal ≡ none)
          × (get id r.attach_to_terminal ≡ none → get id r.senders ≡ none)
    pub compressed_attached :
        (id : String) → get id r.attach_to_terminal ≡ none → contains id r.compressed ≡ false

  new-Consistent : Consistent new
  unfolding new get contains
  new-Consistent = record {
    distinct = tt;
    sender_iff = λ id. (λ _. refl, λ _. refl);
    compressed_attached = λ id _. refl;
  }

  register_with_compression-Consistent :
      (r : Router Sender) (a m t : String) (s : Sender) (c : Bool)
      → Consistent r
      → Consistent (register_with_compression r a m t s c)
  unfolding register_with_compression
  register_with_compression-Consistent r a m t s c k = record {
    distinct = insert-Distinct a (m, t) r.attach_to_terminal k.distinct;
    sender_iff = λ id. ground (
      arith,
      get-insert a id s r.senders,
      get-insert a id (m, t) r.attach_to_terminal,
      k.sender_iff id,
    );
    compressed_attached = λ id e. ground (
      arith,
      get-insert a id (m, t) r.attach_to_terminal,
      contains-add a id r.compressed,
      k.compressed_attached id,
    );
  }

  register_preview-Consistent :
      (r : Router Sender) (a m t : String) (s : Sender)
      → Consistent r
      → Consistent (register_preview r a m t s)
  unfolding register_preview
  register_preview-Consistent r a m t s k = record {
    distinct = insert-Distinct a (m, t) r.attach_to_terminal k.distinct;
    sender_iff = λ id. ground (
      arith,
      get-insert a id s r.senders,
      get-insert a id (m, t) r.attach_to_terminal,
      k.sender_iff id,
    );
    compressed_attached = λ id e.
        ground (arith, get-insert a id (m, t) r.attach_to_terminal, k.compressed_attached id);
  }

  unregister-Consistent :
      (r : Router Sender) (a : String) → Consistent r → Consistent (unregister r a)
  unfolding unregister
  unregister-Consistent r a k = record {
    distinct = remove-Distinct a r.attach_to_terminal k.distinct;
    sender_iff = λ id.
        ground
          (arith, get-remove a id r.senders, get-remove a id r.attach_to_terminal, k.sender_iff id);
    compressed_attached = λ id e. ground (
      arith,
      get-remove a id r.attach_to_terminal,
      contains-delete a id r.compressed,
      k.compressed_attached id,
    );
  }

  drop_machine-Consistent :
      (r : Router Sender) (m : String) → Consistent r → Consistent (drop_machine r m).0
  unfolding drop_machine
  drop_machine-Consistent r m k =
      let ids = attaches_of r m in
      record {
        distinct = remove_all-Distinct ids r.attach_to_terminal k.distinct;
        sender_iff = λ id. ground (
          arith,
          get-remove_all ids id r.senders,
          get-remove_all ids id r.attach_to_terminal,
          k.sender_iff id,
        );
        compressed_attached = λ id e. ground (
          arith,
          get-remove_all ids id r.attach_to_terminal,
          contains-delete_all ids id r.compressed,
          k.compressed_attached id,
        );
      }

  pub after : Router Sender → Call Sender → Router Sender
  after r (registers a m t s c) = register_with_compression r a m t s c
  after r (previews a m t s) = register_preview r a m t s
  after r (unregisters a) = unregister r a
  after r (drops m) = (drop_machine r m).0

  pub after_all : Router Sender → List (Call Sender) → Router Sender
  after_all r [] = r
  after_all r (c ∷ cs) = after_all (after r c) cs

  pub after-Consistent :
      (r : Router Sender) (c : Call Sender) → Consistent r → Consistent (after r c)
  unfolding after
  after-Consistent r (registers a m t s c) k = register_with_compression-Consistent r a m t s c k
  after-Consistent r (previews a m t s) k = register_preview-Consistent r a m t s k
  after-Consistent r (unregisters a) k = unregister-Consistent r a k
  after-Consistent r (drops m) k = drop_machine-Consistent r m k

  after_all-Consistent :
      (r : Router Sender) (cs : List (Call Sender)) → Consistent r → Consistent (after_all r cs)
  unfolding after_all
  after_all-Consistent r [] k = k
  after_all-Consistent r (c ∷ cs) k = after_all-Consistent (after r c) cs (after-Consistent r c k)

  -- After any calls on a new router, an attach has a sender exactly when it has a terminal, only an
  -- attach that has a terminal counts as compressed, and each attach has one terminal.
  pub after_all-new-Consistent : (cs : List (Call Sender)) → Consistent (after_all new cs)
  after_all-new-Consistent cs = after_all-Consistent new cs new-Consistent
