-- ===== src/Hub/Mode/Feed.antt =====
-- The `ModeChanged` events that the calls send.
use webmux.Base.{
  ℕ, String, ◌≡◌, refl, sym, Bool, true, false, not, ◌&&◌, Option, none, some, List, [], ◌∷◌, ◌++◌,
  map, arith, ltb, if◌then◌else◌, string_key,
}
use webmux.Base.Set.{contains}
use webmux.Base.Map.{get, insert, remove, get-insert, get-remove}
use webmux.Base.{is_some}
use webmux.Hub.Mode.{
  ModeState, Mode, ModeChanged, str_eq, stash, leases_of, release_all, disconnect, restore, connect,
  unregister_in, unregister_device, register_device, release_control, request_control, release_in,
  give_up, clear_in, strike, clear_machine_mode, get_or_new, controller, controller_of, is_device,
  get_controller, is_controller,
}
use webmux.Hub.Mode.Controllers.{
  register_device_exact, unregister_device_exact, request_control_exact, release_control_exact,
  contains-leases_of, HasDistinct, controller-or_new, controller-tidy,
}
use webmux.Hub.Mode.Soundness.{
  IsSound, Sound, Call, registers, unregisters, requests, releases, clears, after, after_all,
  after-Sound,
}

-- A browser that follows the events: who it takes to control a machine of a user.
unfoldable pub seen : List ModeChanged → String → String → Option String → Option String
seen [] user m c = c
seen (e ∷ es) user m c =
    seen es user m
      (if str_eq e.target_user_id user && str_eq e.machine_id m then e.controller_device_id else c)

pub seen-append :
    (es fs : List ModeChanged) (user m : String) (c : Option String)
    → seen (es ++ fs) user m c ≡ seen fs user m (seen es user m c)
unfolding seen
seen-append [] fs user m c = refl
seen-append (e ∷ es) fs user m c = seen-append es fs user m _

seen-map :
    (user : String) (v : Option String) (ms : List String) (other m : String) (c : Option String)
    → seen
        (map (λ x. record { target_user_id = user; machine_id = x; controller_device_id = v }) ms)
        other
        m
        c
      ≡ (if str_eq user other && contains m ms then v else c)
unfolding seen contains
seen-map user v [] other m c = ground arith
seen-map user v (x ∷ ms) other m c =
    ground (arith, seen-map user v ms other m c, seen-map user v ms other m v)

contains-restored :
    (device m : String) (ms : List String) (leases : List (String × String))
    → contains m (restore device ms leases).1 ≡ (not (is_some (get m leases)) && contains m ms)
unfolding restore contains
contains-restored device m [] leases = ground arith
contains-restored device m (x ∷ ms) leases = ground (
  arith,
  contains-restored device m ms leases,
  contains-restored device m ms (insert x device leases),
  get-insert x m device leases,
  string_key.eq_iff x m,
)

contains-released :
    (device m : String) (o : Option ℕ) (s : ModeState)
    → IsSound s
    → contains m (disconnect device o s).1
      ≡ ((elim o [ none ↦ false | some n ↦ not (ltb 1 n) ]) && is_device device (controller s m))
unfolding disconnect release_all contains leases_of
contains-released device m none s k = refl
contains-released device m (some n) s k = ground (arith, contains-leases_of device m s k.distinct)

-- What a call sends.
pub sent : Mode → Call → List ModeChanged
sent mode (registers user device) = (register_device mode user device).1
sent mode (unregisters user device) = (unregister_device mode user device).1
sent mode (requests user machine device) = (request_control mode user machine device).1
sent mode (releases user machine device) = (release_control mode user machine device).1
sent mode (clears user machine) = []

pub sent_all : Mode → List Call → List ModeChanged
unfolding sent
sent_all mode [] = []
sent_all mode (c ∷ cs) = sent mode c ++ sent_all (after mode c) cs

-- Whether a call takes a machine away, which `MachineRemoved` and not `ModeChanged` tells.
abbrev pub takes_away : String → Call → Bool
takes_away m (clears user machine) = str_eq machine m
takes_away m c = false

-- An event of a call.
seen-registered :
    (mode : Mode) (user device other m : String)
    → seen (register_device mode user device).1 other m (get_controller mode other m)
      ≡ get_controller (register_device mode user device).0 other m
unfolding register_device connect get_controller
seen-registered mode user device other m =
    let s = get_or_new user mode in
    ground (
      arith,
      register_device_exact mode user device other m,
      seen-map user (some device) (connect device s).1 other m (get_controller mode other m),
      contains-restored device m (stash device s) s.control_leases,
      controller-or_new (get user mode) m,
      string_key.eq_iff user other,
    )

seen-unregistered :
    (mode : Mode) (user device other m : String) (o : Option ModeState)
    → get user mode ≡ o
    → Sound mode
    → seen (unregister_in mode user device o).1 other m (get_controller mode other m)
      ≡ get_controller (unregister_device mode user device).0 other m
unfolding unregister_in seen unregister_device get_controller is_controller
seen-unregistered mode user device other m none e sound = ground (arith, e)
seen-unregistered mode user device other m (some s) e sound =
    let count = get device s.connected_devices in
    let (k, busy) = sound user s e in
    let d : HasDistinct (get user mode) = rw e k.distinct in
    ground (
      arith,
      unregister_device_exact mode user device other m d,
      seen-map user none (disconnect device count s).1 other m (get_controller mode other m),
      contains-released device m count s k,
      string_key.eq_iff user other,
    )

seen-released :
    (mode : Mode) (user machine device other m : String) (o : Option ModeState)
    → get user mode ≡ o
    → seen (release_in mode user machine device o).1 other m (get_controller mode other m)
      ≡ get_controller (release_control mode user machine device).0 other m
unfolding release_in seen release_control get_controller is_controller give_up
seen-released mode user machine device other m none e = ground (arith, e)
seen-released mode user machine device other m (some s) e =
    ground (
      arith,
      e,
      release_control_exact mode user machine device other m,
      string_key.eq_iff user other,
    )

seen-requested :
    (mode : Mode) (user machine device other m : String)
    → seen (request_control mode user machine device).1 other m (get_controller mode other m)
      ≡ get_controller (request_control mode user machine device).0 other m
unfolding seen request_control
seen-requested mode user machine device other m =
    ground (arith, request_control_exact mode user machine device other m)

controller-clear_in :
    (mode : Mode) (user machine other m : String) (o : Option ModeState)
    → get user mode ≡ o
    → str_eq machine m ≡ false
    → controller_of (get other (clear_in mode user machine o)) m ≡ controller_of (get other mode) m
unfolding clear_in
controller-clear_in mode user machine other m none q e = refl
controller-clear_in mode user machine other m (some s) q e =
    let s' = record s {
      control_leases = remove machine s.control_leases;
      released_leases = strike machine s.released_leases;
    } in
    ground (
      arith,
      controller-tidy user other m s' mode,
      get-remove machine m s.control_leases,
      string_key.eq_iff user other,
    )

seen-cleared :
    (mode : Mode) (user machine other m : String)
    → str_eq machine m ≡ false
    → seen [] other m (get_controller mode other m)
      ≡ get_controller (clear_machine_mode mode user machine) other m
unfolding seen clear_machine_mode get_controller
seen-cleared mode user machine other m e =
    sym (controller-clear_in mode user machine other m (get user mode) refl e)

seen-sent :
    (mode : Mode) (c : Call) (other m : String)
    → Sound mode
    → takes_away m c ≡ false
    → seen (sent mode c) other m (get_controller mode other m)
      ≡ get_controller (after mode c) other m
unfolding sent after unregister_device release_control
seen-sent mode (registers user device) other m sound e = seen-registered mode user device other m
seen-sent mode (unregisters user device) other m sound e =
    seen-unregistered mode user device other m (get user mode) refl sound
seen-sent mode (requests user machine device) other m sound e =
    seen-requested mode user machine device other m
seen-sent mode (releases user machine device) other m sound e =
    seen-released mode user machine device other m (get user mode) refl
seen-sent mode (clears user machine) other m sound e = seen-cleared mode user machine other m e

unfoldable pub spares : String → List Call → Bool
spares m [] = true
spares m (c ∷ cs) = not (takes_away m c) && spares m cs

-- Calls that do not overlap, each of which sends its events before the next one takes the lock: a
-- browser that starts from who controls a machine and follows the events of any such calls, none of
-- which removes the machine, ends with who controls it then, for every user.
pub seen-sent_all :
    (mode : Mode) (cs : List Call) (other m : String)
    → Sound mode
    → spares m cs ≡ true
    → seen (sent_all mode cs) other m (get_controller mode other m)
      ≡ get_controller (after_all mode cs) other m
unfolding sent_all after_all spares seen
seen-sent_all mode [] other m sound e = refl
seen-sent_all mode (c ∷ cs) other m sound e = ground (
  arith,
  seen-append (sent mode c) (sent_all (after mode c) cs) other m (get_controller mode other m),
  seen-sent mode c other m sound,
  seen-sent_all (after mode c) cs other m (after-Sound mode c sound),
)
