-- ===== src/Hub/Mode.antt =====
-- crates/hub/src/machine_manager.rs, `ModeState` and the methods on it: which device controls which
-- machine, for each user. The methods change the table under one lock; each returns the new table
-- and the `ModeChanged` events that it sends, in order. `unregister_device` and `release_control`
-- send them while they hold the lock, `register_device` and `request_control` after they have let
-- it go. The number of connections of a device is a `usize`, counted one at a time, and taken to
-- stay below its limit.
pub mod Controllers
pub mod Soundness
pub mod Reconnect
pub mod Feed
mod Tests
use webmux.Base.{
  is_nil, is_some, ℕ, ◌+◌, ◌-◌, String, ◌≡◌, Bool, true, false, not, ◌&&◌, Option, none, some, List,
  [], ◌∷◌, map, ltb, if◌then◌else◌, string_key,
}
use webmux.Base.Set.{delete}
use webmux.Base.Map.{get, insert, remove, remove_all, keys_where}

abbrev pub str_eq : String → String → Bool
str_eq = string_key.eq

pub record ModeState : Type 0 where
  pub control_leases : List (String × String)
  pub connected_devices : List (String × ℕ)
  pub released_leases : List (String × List String)

abbrev pub Mode : Type 0
Mode = List (String × ModeState)

-- `BrowserEvent::ModeChanged`, with the user that it is sent to.
pub record ModeChanged : Type 0 where
  pub target_user_id : String
  pub machine_id : String
  pub controller_device_id : Option String

abbrev pub new_mode_state : ModeState
new_mode_state = record { control_leases = []; connected_devices = []; released_leases = [] }

abbrev pub or_new : Option ModeState → ModeState
or_new none = new_mode_state
or_new (some s) = s

-- `entry(user).or_insert_with(new_mode_state)`.
abbrev pub get_or_new : String → Mode → ModeState
get_or_new user mode = or_new (get user mode)

-- A user's state that says nothing is dropped from the table.
pub is_idle : ModeState → Bool
is_idle s = is_nil s.connected_devices && is_nil s.control_leases && is_nil s.released_leases

pub tidy : String → ModeState → Mode → Mode
unfolding is_idle
tidy user s mode = if is_idle s then remove user mode else insert user s mode

abbrev pub connections : String → ModeState → ℕ
connections device s = elim (get device s.connected_devices) [ none ↦ 0 | some n ↦ n ]

-- The loop that restores released leases: the leases afterwards, and the machines restored.
pub restore : String → List String → List (String × String) → List (String × String) × List String
restore device [] leases = (leases, [])
restore device (m ∷ ms) leases =
    let held = is_some (get m leases) in
    let rest = restore device ms (if held then leases else insert m device leases) in
    (rest.0, if held then rest.1 else m ∷ rest.1)

abbrev pub stash : String → ModeState → List String
stash device s = elim (get device s.released_leases) [ none ↦ [] | some ms ↦ ms ]

-- `register_device`, on the user's state.
pub connect : String → ModeState → ModeState × List String
unfolding restore
connect device s =
    let restored = restore device (stash device s) s.control_leases in
    (
      record {
        control_leases = restored.0;
        connected_devices = insert device (connections device s + 1) s.connected_devices;
        released_leases = remove device s.released_leases;
      },
      restored.1,
    )

-- The table that the call leaves when it lets the lock go, and the events that it sends after that.
unfoldable pub register_device : Mode → String → String → Mode × List ModeChanged
unfolding connect
register_device mode user device =
    let (s, restored) = connect device (get_or_new user mode) in
    (
      insert user s mode,
      map
          (λ m. record {
            target_user_id = user;
            machine_id = m;
            controller_device_id = some device;
          })
          restored,
    )

pub leases_of : String → ModeState → List String
leases_of device s = keys_where (λ m d. str_eq d device) s.control_leases

-- The leases of a device are released, and remembered if there are any.
pub release_all : String → ModeState → ModeState × List String
unfolding leases_of
release_all device s =
    let machines = leases_of device s in
    (
      record s {
        control_leases = remove_all machines s.control_leases;
        released_leases =
            if is_nil machines then s.released_leases else insert device machines s.released_leases;
      },
      machines,
    )

-- `unregister_device`, on the user's state: by the number of the device's connections.
pub disconnect : String → Option ℕ → ModeState → ModeState × List String
unfolding release_all
disconnect device none s = (s, [])
disconnect device (some count) s =
    if ltb 1 count
    then (record s { connected_devices = insert device (count - 1) s.connected_devices }, [])
    else release_all device (record s { connected_devices = remove device s.connected_devices })

unregister_in : Mode → String → String → Option ModeState → Mode × List ModeChanged
unfolding disconnect tidy
unregister_in mode user device none = (mode, [])
unregister_in mode user device (some s) =
    let (s', released) = disconnect device (get device s.connected_devices) s in
    (
      tidy user s' mode,
      map (λ m. record { target_user_id = user; machine_id = m; controller_device_id = none })
          released,
    )

-- Table and events of the call, which sends them while it holds the lock.
unfoldable pub unregister_device : Mode → String → String → Mode × List ModeChanged
unfolding unregister_in
unregister_device mode user device = unregister_in mode user device (get user mode)

-- The table that the call leaves when it lets the lock go, and the event that it sends after that.
unfoldable pub request_control : Mode → String → String → String → Mode × List ModeChanged
request_control mode user machine device =
    let s = get_or_new user mode in
    (
      insert user (record s { control_leases = insert machine device s.control_leases }) mode,
      record { target_user_id = user; machine_id = machine; controller_device_id = some device }
          ∷ [],
    )

-- A machine is struck from the leases remembered for a device, and an empty list of them dropped.
pub forget_from :
    String
    → String
    → List (String × List String)
    → Option (List String)
    → List (String × List String)
forget_from machine device released none = released
forget_from machine device released (some ms) =
    if is_nil (delete machine ms)
    then remove device released
    else insert device (delete machine ms) released

pub forget : String → String → List (String × List String) → List (String × List String)
unfolding forget_from
forget machine device released = forget_from machine device released (get device released)

abbrev pub controller : ModeState → String → Option String
controller s machine = get machine s.control_leases

abbrev pub is_device : String → Option String → Bool
is_device device none = false
is_device device (some d) = str_eq d device

-- `release_control`, on the user's state: whether the lease was given up.
pub give_up : String → String → ModeState → ModeState × Bool
unfolding forget
give_up machine device s =
    let s' = record s { released_leases = forget machine device s.released_leases } in
    if is_device device (controller s machine)
    then (record s' { control_leases = remove machine s.control_leases }, true)
    else (s', false)

release_in : Mode → String → String → String → Option ModeState → Mode × List ModeChanged
unfolding give_up tidy
release_in mode user machine device none = (mode, [])
release_in mode user machine device (some s) =
    let (s', given) = give_up machine device s in
    (
      tidy user s' mode,
      if given
          then record { target_user_id = user; machine_id = machine; controller_device_id = none }
            ∷ []
          else [],
    )

-- Table and event of the call, which sends it while it holds the lock.
unfoldable pub release_control : Mode → String → String → String → Mode × List ModeChanged
unfolding release_in
release_control mode user machine device = release_in mode user machine device (get user mode)

-- `clear_machine_mode`: a machine that is removed is struck from every list of the user.
pub strike : String → List (String × List String) → List (String × List String)
strike machine [] = []
strike machine ((device, ms) ∷ rest) =
    if is_nil (delete machine ms)
    then strike machine rest
    else (device, delete machine ms) ∷ strike machine rest

clear_in : Mode → String → String → Option ModeState → Mode
unfolding strike tidy
clear_in mode user machine none = mode
clear_in mode user machine (some s) =
    tidy user
      (record s {
        control_leases = remove machine s.control_leases;
        released_leases = strike machine s.released_leases;
      })
      mode

unfoldable pub clear_machine_mode : Mode → String → String → Mode
unfolding clear_in
clear_machine_mode mode user machine = clear_in mode user machine (get user mode)

abbrev pub controller_of : Option ModeState → String → Option String
controller_of none machine = none
controller_of (some s) machine = controller s machine

unfoldable pub get_controller : Mode → String → String → Option String
get_controller mode user machine = controller_of (get user mode) machine

unfoldable pub is_controller : Mode → String → String → String → Bool
is_controller mode user machine device = is_device device (get_controller mode user machine)

unfoldable pub get_control_leases : Mode → String → List (String × String)
get_control_leases mode user = elim (get user mode) [ none ↦ [] | some s ↦ s.control_leases ]
