-- ===== src/Hub/Mode/Soundness.antt =====
-- What holds of the table of users after any calls.
use webmux.Base.{
  ℕ, ◌+◌, ◌-◌, String, ◌≡◌, refl, subst, ap, inl, inr, true, false, Option, none, some, List, [],
  ◌∷◌, arith, ltb, string_key, Bool-cases, Option-cases,
}
use webmux.Base.Set.{delete}
use webmux.Base.Map.{
  get, insert, remove, get-insert, get-remove, Distinct, insert-Distinct, remove-Distinct,
  remove_all-Distinct,
}
use webmux.Base.{is_nil, is_some}
use webmux.Hub.Mode.{
  ModeState, Mode, str_eq, is_idle, tidy, restore, stash, connections, connect, register_device,
  leases_of, release_all, disconnect, unregister_in, unregister_device, request_control, give_up,
  release_in, release_control, controller, is_device, strike, clear_in, clear_machine_mode,
  get_or_new, new_mode_state, forget, forget_from,
}

-- Each machine has one lease, and no lease is remembered for a device that is connected.
pub record IsSound (s : ModeState) : Type 0 where
  pub distinct : Distinct s.control_leases
  pub away :
      (d : String) → is_some (get d s.connected_devices) ≡ true → get d s.released_leases ≡ none

new-IsSound : IsSound new_mode_state
unfolding get
new-IsSound = record { distinct = tt; away = λ d e. refl }

restore-Distinct :
    (device : String) (ms : List String) (leases : List (String × String))
    → Distinct leases
    → Distinct (restore device ms leases).0
unfolding restore
restore-Distinct device [] leases d = d
restore-Distinct device (m ∷ ms) leases d = ground (
  arith,
  restore-Distinct device ms leases d,
  restore-Distinct device ms (insert m device leases) (insert-Distinct m device leases d),
)

connect-IsSound : (device : String) (s : ModeState) → IsSound s → IsSound (connect device s).0
unfolding connect
connect-IsSound device s k = record {
  distinct = restore-Distinct device (stash device s) s.control_leases k.distinct;
  away = λ d e. ground (
    arith,
    get-insert device d (connections device s + 1) s.connected_devices,
    get-remove device d s.released_leases,
    k.away d,
  );
}

release_all-IsSound :
    (device : String) (s : ModeState)
    → IsSound s
    → get device s.connected_devices ≡ none
    → IsSound (release_all device s).0
unfolding release_all
release_all-IsSound device s k gone = record {
  distinct = remove_all-Distinct (leases_of device s) s.control_leases k.distinct;
  away = λ d e. ground (
    arith,
    get-insert device d (leases_of device s) s.released_leases,
    string_key.eq_iff device d,
    ap (λ (x : String). get x s.connected_devices) {x = device} {y = d},
    k.away d,
  );
}

disconnect-IsSound :
    (device : String) (o : Option ℕ) (s : ModeState)
    → get device s.connected_devices ≡ o
    → IsSound s
    → IsSound (disconnect device o s).0
unfolding disconnect
disconnect-IsSound device none s e k = k
disconnect-IsSound device (some n) s e k = elim (Bool-cases (ltb 1 n)) [
  | inl several ↦ rw several (record {
    distinct = k.distinct;
    away = λ d q. ground (
      arith,
      get-insert device d (n - 1) s.connected_devices,
      string_key.eq_iff device d,
      ap (λ (x : String). get x s.connected_devices) {x = device} {y = d},
      k.away d,
    );
  })
  | inr one ↦ rw one (
      release_all-IsSound device
        (record s { connected_devices = remove device s.connected_devices })
        (record {
          distinct = k.distinct;
          away = λ d q. ground (arith, get-remove device d s.connected_devices, k.away d);
        })
        (ground
          (arith, get-remove device device s.connected_devices, string_key.eq_iff device device)))
]

forget_from-none :
    (machine device d : String) (l : List (String × List String)) (o : Option (List String))
    → get device l ≡ o
    → get d l ≡ none
    → get d (forget_from machine device l o) ≡ none
unfolding forget_from
forget_from-none machine device d l none q e = e
forget_from-none machine device d l (some ms) q e = ground (
  arith,
  string_key.eq_iff device d,
  ap (λ (x : String). get x l) {x = device} {y = d},
  get-insert device d (delete machine ms) l,
  get-remove device d l,
)

give_up-IsSound :
    (machine device : String) (s : ModeState) → IsSound s → IsSound (give_up machine device s).0
unfolding give_up forget
give_up-IsSound machine device s k =
    let away : (d : String)
        → is_some (get d s.connected_devices) ≡ true
        → get d (forget machine device s.released_leases) ≡ none =
      λ d e.
        forget_from-none machine device d s.released_leases (get device s.released_leases) refl
          (k.away d e) in
    elim (Bool-cases (is_device device (controller s machine))) [
      | inl held ↦
          rw held
            (record { distinct = remove-Distinct machine s.control_leases k.distinct; away = away })
      | inr free ↦ rw free (record { distinct = k.distinct; away = away })
    ]

strike-none :
    (machine d : String) (l : List (String × List String))
    → get d l ≡ none
    → get d (strike machine l) ≡ none
unfolding strike get
strike-none machine d [] e = refl
strike-none machine d ((j, ms) ∷ l) e = ground (arith, strike-none machine d l)

insert_not_nil :
    {V : Type 0} (k : String) (v : V) (m : List (String × V)) → is_nil (insert k v m) ≡ false
unfolding insert
insert_not_nil k v [] = refl
insert_not_nil k v ((j, w) ∷ m) = ground arith

connect_busy : (device : String) (s : ModeState) → is_idle (connect device s).0 ≡ false
unfolding connect is_idle
connect_busy device s =
    ground (arith, insert_not_nil device (connections device s + 1) s.connected_devices)

request_busy :
    (machine device : String) (s : ModeState)
    → is_idle (record s { control_leases = insert machine device s.control_leases }) ≡ false
unfolding is_idle
request_busy machine device s = ground (arith, insert_not_nil machine device s.control_leases)

-- The table holds a sound state for some users, and none that says nothing.
abbrev pub Sound : Mode → Type 0
Sound mode =
    (user : String) (s : ModeState) → get user mode ≡ some s → IsSound s × (is_idle s ≡ false)

Sound-nil : Sound []
unfolding get
Sound-nil user s e = cc

insert-Sound :
    (user : String) (s : ModeState) (mode : Mode)
    → IsSound s
    → is_idle s ≡ false
    → Sound mode
    → Sound (insert user s mode)
insert-Sound user s mode k busy all u x e = elim (Bool-cases (str_eq user u)) [
  | inl same ↦
      subst (λ y. IsSound y × (is_idle y ≡ false)) (ground (arith, same, get-insert user u s mode))
        (k, busy)
  | inr differ ↦ all u x (ground (arith, differ, get-insert user u s mode))
]

tidy-Sound :
    (user : String) (s : ModeState) (mode : Mode)
    → IsSound s
    → Sound mode
    → Sound (tidy user s mode)
unfolding tidy
tidy-Sound user s mode k all = elim (Bool-cases (is_idle s)) [
  | inl idle ↦ rw idle (λ u x e. all u x (ground (arith, get-remove user u mode)))
  | inr busy ↦ rw busy (insert-Sound user s mode k busy all)
]

or_new-IsSound : (user : String) (mode : Mode) → Sound mode → IsSound (get_or_new user mode)
or_new-IsSound user mode all = elim (Option-cases (get user mode)) [
  | inl e ↦ rw e new-IsSound
  | inr (s, e) ↦ rw e (all user s e).0
]

-- The calls on the table.
pub data Call : Type 0 where
  registers unregisters : (user device : String) → Call
  requests releases : (user machine device : String) → Call
  clears : (user machine : String) → Call

unfoldable pub after : Mode → Call → Mode
after mode (registers user device) = (register_device mode user device).0
after mode (unregisters user device) = (unregister_device mode user device).0
after mode (requests user machine device) = (request_control mode user machine device).0
after mode (releases user machine device) = (release_control mode user machine device).0
after mode (clears user machine) = clear_machine_mode mode user machine

unfoldable pub after_all : Mode → List Call → Mode
after_all mode [] = mode
after_all mode (c ∷ cs) = after_all (after mode c) cs

register_device-Sound :
    (mode : Mode) (user device : String) → Sound mode → Sound (register_device mode user device).0
unfolding register_device
register_device-Sound mode user device all =
    let s = get_or_new user mode in
    insert-Sound user (connect device s).0 mode
      (connect-IsSound device s (or_new-IsSound user mode all)) (connect_busy device s) all

unregister_in-Sound :
    (mode : Mode) (user device : String) (o : Option ModeState)
    → get user mode ≡ o
    → Sound mode
    → Sound (unregister_in mode user device o).0
unfolding unregister_in
unregister_in-Sound mode user device none e all = all
unregister_in-Sound mode user device (some s) e all =
    let count = get device s.connected_devices in
    tidy-Sound user (disconnect device count s).0 mode
      (disconnect-IsSound device count s refl (all user s e).0) all

request_control-Sound :
    (mode : Mode) (user machine device : String)
    → Sound mode
    → Sound (request_control mode user machine device).0
unfolding request_control
request_control-Sound mode user machine device all =
    let s = get_or_new user mode in
    let k = or_new-IsSound user mode all in
    insert-Sound user (record s { control_leases = insert machine device s.control_leases }) mode
      (record {
        distinct = insert-Distinct machine device s.control_leases k.distinct;
        away = k.away;
      })
      (request_busy machine device s) all

release_in-Sound :
    (mode : Mode) (user machine device : String) (o : Option ModeState)
    → get user mode ≡ o
    → Sound mode
    → Sound (release_in mode user machine device o).0
unfolding release_in
release_in-Sound mode user machine device none e all = all
release_in-Sound mode user machine device (some s) e all =
    tidy-Sound user (give_up machine device s).0 mode
      (give_up-IsSound machine device s (all user s e).0) all

clear_in-Sound :
    (mode : Mode) (user machine : String) (o : Option ModeState)
    → get user mode ≡ o
    → Sound mode
    → Sound (clear_in mode user machine o)
unfolding clear_in
clear_in-Sound mode user machine none e all = all
clear_in-Sound mode user machine (some s) e all =
    let k = (all user s e).0 in
    tidy-Sound user _ mode
      (record {
        distinct = remove-Distinct machine s.control_leases k.distinct;
        away = λ d q. strike-none machine d s.released_leases (k.away d q);
      })
      all

pub after-Sound : (mode : Mode) (c : Call) → Sound mode → Sound (after mode c)
unfolding after unregister_device release_control clear_machine_mode
after-Sound mode (registers user device) all = register_device-Sound mode user device all
after-Sound mode (unregisters user device) all =
    unregister_in-Sound mode user device (get user mode) refl all
after-Sound mode (requests user machine device) all =
    request_control-Sound mode user machine device all
after-Sound mode (releases user machine device) all =
    release_in-Sound mode user machine device (get user mode) refl all
after-Sound mode (clears user machine) all =
    clear_in-Sound mode user machine (get user mode) refl all

after_all-Sound : (mode : Mode) (cs : List Call) → Sound mode → Sound (after_all mode cs)
unfolding after_all
after_all-Sound mode [] all = all
after_all-Sound mode (c ∷ cs) all = after_all-Sound (after mode c) cs (after-Sound mode c all)

-- After any calls on an empty table, no user's state is kept that says nothing, each machine has at
-- most one lease of a user, and no lease is remembered for a device that is connected.
pub after_all_nil-Sound : (cs : List Call) → Sound (after_all [] cs)
after_all_nil-Sound cs = after_all-Sound [] cs Sound-nil
