-- ===== src/Hub/Router/Views.antt =====
-- What the router's queries answer after its calls.
use webmux.Base.{
  String, ◌≡◌, ◌↔◌, sym, ◌∙◌, Bool, true, false, not, ◌&&◌, Option, none, some, List, arith,
  if◌then◌else◌, string_key,
}
use webmux.Base.Set.{contains, contains-delete_all}
use webmux.Base.Map.{get, get-remove_all, contains-keys_where, satisfies}
use webmux.Hub.Router.{
  Router, str_eq, main_attaches_of, is_compressed, lookup_sender, lookup_terminal, attaches_of,
  drop_machine,
}
use webmux.Hub.Router.Consistency.{Consistent}

abbrev pub is_on : String → Option (String × String) → Bool
is_on m none = false
is_on m (some at) = str_eq at.0 m

-- The test of `main_attaches_of` at an entry.
is_main : String → String → List String → String → (String × String) → Bool
is_main m t previews id at = str_eq at.0 m && str_eq at.1 t && not (contains id previews)

satisfies-is_main :
    (m t id : String) (previews : List String) (o : Option (String × String))
    → (satisfies (is_main m t previews) id o ≡ true)
      ↔ ((o ≡ some (m, t)) × (contains id previews ≡ false))
unfolding is_main
satisfies-is_main m t id previews none = (λ e. cc, λ e. cc)
satisfies-is_main m t id previews (some (m', t')) = (
  λ e. ground (arith, string_key.eq_iff m' m, string_key.eq_iff t' t),
  λ e. ground (arith, string_key.eq_iff m' m, string_key.eq_iff t' t),
)

module _ {Sender : Type 0} where
  -- Dropping a machine returns exactly the attaches whose terminal is on that machine, and takes
  -- their sender, terminal and compression away; every other attach is looked up as before.
  pub drop_machine_exact :
      (r : Router Sender) (m id : String)
      → Consistent r
      → let (r', dropped) = drop_machine r m in
        (contains id dropped ≡ is_on m (lookup_terminal r id))
        × (lookup_sender r' id ≡ (if contains id dropped then none else lookup_sender r id))
        × (lookup_terminal r' id ≡ (if contains id dropped then none else lookup_terminal r id))
        × (is_compressed r' id ≡ (if contains id dropped then false else is_compressed r id))
  unfolding drop_machine attaches_of lookup_sender lookup_terminal is_compressed
  drop_machine_exact r m id k =
      let ids = attaches_of r m in
      (
        ground
            (arith, contains-keys_where (λ i at. str_eq at.0 m) id r.attach_to_terminal k.distinct),
        get-remove_all ids id r.senders,
        get-remove_all ids id r.attach_to_terminal,
        contains-delete_all ids id r.compressed,
      )

  -- The main attaches of a terminal are exactly the attaches registered for it that are no previews.
  pub main_attaches_of_exact :
      (r : Router Sender) (m t id : String)
      → Consistent r
      → (contains id (main_attaches_of r m t) ≡ true)
        ↔ ((lookup_terminal r id ≡ some (m, t)) × (contains id r.previews ≡ false))
  unfolding main_attaches_of lookup_terminal is_main
  main_attaches_of_exact r m t id k =
      let e = contains-keys_where (is_main m t r.previews) id r.attach_to_terminal k.distinct in
      let (to, from) = satisfies-is_main m t id r.previews (get id r.attach_to_terminal) in
      (λ h. to (sym e ∙ h), λ h. e ∙ from h)
