-- ===== src/Hub/Mode/Controllers.antt =====
-- Who controls a machine after each call.
use webmux.Base.{
  ℕ, String, ◌≡◌, refl, Bool, true, false, not, ◌&&◌, Option, none, some, List, [], ◌∷◌, arith, ltb,
  if◌then◌else◌, string_key,
}
use webmux.Base.Set.{contains}
use webmux.Base.Map.{
  get, insert, remove, get-insert, get-remove, get-remove_all, contains-keys_where, Distinct,
}
use webmux.Base.{is_nil, is_some}
use webmux.Hub.Mode.{
  ModeState, Mode, str_eq, is_idle, tidy, restore, stash, connect, register_device, leases_of,
  release_all, disconnect, unregister_in, unregister_device, request_control, give_up, release_in,
  release_control, controller, controller_of, is_device, get_controller, is_controller, or_new,
  get_or_new,
}

get_nil : (m : String) (l : List (String × String)) → is_nil l ≡ true → get m l ≡ none
unfolding get
get_nil m [] e = refl
get_nil m (x ∷ l) e = cc

controller_idle : (s : ModeState) (m : String) → is_idle s ≡ true → controller s m ≡ none
unfolding is_idle
controller_idle s m e = ground (arith, get_nil m s.control_leases)

-- The user's own leases after a call are those of the new state, and no other user's change.
pub controller-tidy :
    (user other m : String) (s : ModeState) (mode : Mode)
    → controller_of (get other (tidy user s mode)) m
      ≡ (if str_eq user other then controller s m else controller_of (get other mode) m)
unfolding tidy
controller-tidy user other m s mode =
    ground (arith, controller_idle s m, get-remove user other mode, get-insert user other s mode)

pub controller-insert :
    (user other m : String) (s : ModeState) (mode : Mode)
    → controller_of (get other (insert user s mode)) m
      ≡ (if str_eq user other then controller s m else controller_of (get other mode) m)
controller-insert user other m s mode = ground (arith, get-insert user other s mode)

pub controller-or_new :
    (o : Option ModeState) (m : String) → controller (or_new o) m ≡ controller_of o m
unfolding get
controller-or_new none m = refl
controller-or_new (some s) m = refl

-- A restored lease never takes a machine from a device that holds it.
pub get-restore :
    (device m : String) (ms : List String) (leases : List (String × String))
    → get m (restore device ms leases).0 ≡ (
        if is_some (get m leases)
        then get m leases
        else if contains m ms
        then some device
        else none)
unfolding restore contains
get-restore device m [] leases = ground arith
get-restore device m (x ∷ ms) leases = ground (
  arith,
  get-restore device m ms (if is_some (get x leases) then leases else insert x device leases),
  get-restore device m ms leases,
  get-restore device m ms (insert x device leases),
  get-insert x m device leases,
  string_key.eq_iff x m,
)

pub contains-leases_of :
    (device m : String) (s : ModeState)
    → Distinct s.control_leases
    → contains m (leases_of device s) ≡ is_device device (controller s m)
unfolding leases_of
contains-leases_of device m s d =
    ground (arith, contains-keys_where (λ m d. str_eq d device) m s.control_leases d)

pub controller-release_all :
    (device m : String) (s : ModeState)
    → Distinct s.control_leases
    → controller (release_all device s).0 m
      ≡ (if is_device device (controller s m) then none else controller s m)
unfolding release_all
controller-release_all device m s d =
    ground (
      arith,
      get-remove_all (leases_of device s) m s.control_leases,
      contains-leases_of device m s d,
    )

pub controller-disconnect :
    (device m : String) (o : Option ℕ) (s : ModeState)
    → Distinct s.control_leases
    → controller (disconnect device o s).0 m ≡ (elim o [
      | none ↦ controller s m
      | some n ↦
          if ltb 1 n
          then controller s m
          else if is_device device (controller s m)
          then none
          else controller s m
    ])
unfolding disconnect
controller-disconnect device m none s d = refl
controller-disconnect device m (some n) s d = ground (
  arith,
  controller-release_all device m
      (record s { connected_devices = remove device s.connected_devices }) d,
)

-- A request is always granted, whoever held the machine: from then on the device controls it and no
-- other device does, and every other machine, and every other user, keeps its controller.
pub request_control_exact :
    (mode : Mode) (user machine device other m : String)
    → get_controller (request_control mode user machine device).0 other m
      ≡ (if str_eq user other && str_eq machine m then some device else get_controller mode other m)
unfolding request_control get_controller
request_control_exact mode user machine device other m =
    let s = get_or_new user mode in
    ground (
      arith,
      controller-insert user other m
          (record s { control_leases = insert machine device s.control_leases }) mode,
      get-insert machine m device s.control_leases,
      controller-or_new (get user mode) m,
      string_key.eq_iff user other,
    )

controller-give_up :
    (machine device m : String) (s : ModeState)
    → controller (give_up machine device s).0 m ≡ (
        if str_eq machine m && is_device device (controller s machine)
        then none
        else controller s m)
unfolding give_up
controller-give_up machine device m s = ground (arith, get-remove machine m s.control_leases)

-- Giving up control frees the machine if the device held it, and changes no other controller.
pub release_control_exact :
    (mode : Mode) (user machine device other m : String)
    → get_controller (release_control mode user machine device).0 other m ≡ (
        if str_eq user other && str_eq machine m && is_controller mode user machine device
        then none
        else get_controller mode other m)
unfolding release_control get_controller is_controller
release_control_exact mode user machine device other m = released (get user mode) refl
  where
    released :
        (o : Option ModeState)
        → get user mode ≡ o
        → controller_of (get other (release_in mode user machine device o).0) m ≡ (
            if str_eq user other && str_eq machine m && is_device device (controller_of o machine)
            then none
            else controller_of (get other mode) m)
    released none e = ground arith
    released (some s) e = ground (
      arith,
      controller-tidy user other m (give_up machine device s).0 mode,
      controller-give_up machine device m s,
      string_key.eq_iff user other,
    )

-- Whether this is the only connection of the device.
abbrev pub is_last : String → Option ModeState → Bool
is_last device none = false
is_last device (some s) = elim (get device s.connected_devices) [
  | none ↦ false
  | some n ↦ not (ltb 1 n)
]

-- The leases of a user name each machine once.
abbrev pub HasDistinct : Option ModeState → Type 0
HasDistinct none = Unit
HasDistinct (some s) = Distinct s.control_leases

-- When the last connection of a device ends, every machine that it controlled is free; before that,
-- and for every other device and user, nothing changes hands.
pub unregister_device_exact :
    (mode : Mode) (user device other m : String)
    → HasDistinct (get user mode)
    → get_controller (unregister_device mode user device).0 other m ≡ (
        if str_eq user other && is_last device (get user mode) && is_controller mode user m device
        then none
        else get_controller mode other m)
unfolding unregister_device get_controller is_controller
unregister_device_exact mode user device other m = ended (get user mode) refl
  where
    ended :
        (o : Option ModeState)
        → get user mode ≡ o
        → HasDistinct o
        → controller_of (get other (unregister_in mode user device o).0) m ≡ (
            if str_eq user other && is_last device o && is_device device (controller_of o m)
            then none
            else controller_of (get other mode) m)
    ended none e d = ground arith
    ended (some s) e d =
        let count = get device s.connected_devices in
        ground (
          arith,
          controller-tidy user other m (disconnect device count s).0 mode,
          controller-disconnect device m count s d,
          string_key.eq_iff user other,
        )

-- A device that connects gets back the machines remembered for it that are free, and no other.
pub register_device_exact :
    (mode : Mode) (user device other m : String)
    → get_controller (register_device mode user device).0 other m ≡ (
        if str_eq user other
          && not (is_some (get_controller mode other m))
          && contains m (stash device (get_or_new user mode))
        then some device
        else get_controller mode other m)
unfolding register_device get_controller
register_device_exact mode user device other m =
    let s = get_or_new user mode in
    ground (
      arith,
      controller-insert user other m (connect device s).0 mode,
      get-restore device m (stash device s) s.control_leases,
      controller-or_new (get user mode) m,
      string_key.eq_iff user other,
    )
