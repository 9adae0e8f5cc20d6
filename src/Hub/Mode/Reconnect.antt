-- ===== src/Hub/Mode/Reconnect.antt =====
-- A device that disconnects and connects again.
use webmux.Base.{
  ℕ, String, ◌≡◌, refl, ap, true, Option, none, some, List, [], ◌∷◌, arith, string_key, inl, inr,
  Option-cases,
}
use webmux.Base.Set.{contains}
use webmux.Base.Map.{get, remove, get-insert, get-remove}
use webmux.Base.{is_nil, is_some}
use webmux.Hub.Mode.{
  ModeState, Mode, is_idle, tidy, stash, leases_of, release_all, disconnect, unregister_in,
  unregister_device, register_device, get_or_new, controller, is_device, get_controller,
  is_controller,
}
use webmux.Hub.Mode.Controllers.{
  register_device_exact, unregister_device_exact, contains-leases_of, is_last, HasDistinct,
}
use webmux.Hub.Mode.Soundness.{IsSound, Sound}

stash_nil :
    (device : String) (l : List (String × List String))
    → is_nil l ≡ true
    → (elim (get device l) [ none ↦ [] | some ms ↦ ms ]) ≡ []
unfolding get
stash_nil device [] e = refl
stash_nil device (x ∷ l) e = cc

stash_idle : (device : String) (s : ModeState) → is_idle s ≡ true → stash device s ≡ []
unfolding is_idle
stash_idle device s e = stash_nil device s.released_leases (ground arith)

stash-tidy :
    (user device : String) (s : ModeState) (mode : Mode)
    → stash device (get_or_new user (tidy user s mode)) ≡ stash device s
unfolding tidy get
stash-tidy user device s mode = ground (
  arith,
  stash_idle device s,
  get-insert user user s mode,
  get-remove user user mode,
  string_key.eq_iff user user,
)

stash-release_all :
    (device m : String) (s : ModeState)
    → IsSound s
    → get device s.released_leases ≡ none
    → contains m (stash device (release_all device s).0) ≡ is_device device (controller s m)
unfolding release_all contains
stash-release_all device m s k e = ground (
  arith,
  contains-leases_of device m s k.distinct,
  get-insert device device (leases_of device s) s.released_leases,
  string_key.eq_iff device device,
)

stash-disconnect :
    (device m : String) (o : Option ℕ) (s : ModeState)
    → IsSound s
    → get device s.connected_devices ≡ o
    → is_last device (some s) ≡ true
    → contains m (stash device (disconnect device o s).0) ≡ is_device device (controller s m)
unfolding disconnect leases_of
stash-disconnect device m none s k e last = cc
stash-disconnect device m (some n) s k e last =
    let t = record s { connected_devices = remove device s.connected_devices } in
    let gone : get device s.released_leases ≡ none = k.away device (ap is_some e) in
    ground (arith, stash-release_all device m s k gone)

is_device-some : (device : String) (o : Option String) → is_device device o ≡ true → o ≡ some device
is_device-some device none e = cc
is_device-some device (some d) e = ap some ((string_key.eq_iff d device).0 e)

-- A device that controls machines loses none of them to a lost connection: when its last connection
-- ends and it then connects again, with no call between, every machine of every user has the
-- controller that it had before.
pub reconnect_restores :
    (mode : Mode) (user device other m : String)
    → Sound mode
    → is_last device (get user mode) ≡ true
    → get_controller (register_device (unregister_device mode user device).0 user device).0 other m
      ≡ get_controller mode other m
unfolding unregister_device unregister_in get_controller is_controller
reconnect_restores mode user device other m sound last = elim (Option-cases (get user mode)) [
  | inl e ↦ ground (arith, e)
  | inr (s, e) ↦
      let count = get device s.connected_devices in
      let (k, busy) = sound user s e in
      let d : HasDistinct (get user mode) = rw e k.distinct in
      ground (
        arith,
        e,
        register_device_exact (unregister_device mode user device).0 user device other m,
        unregister_device_exact mode user device other m d,
        stash-tidy user device (disconnect device count s).0 mode,
        stash-disconnect device m count s k refl,
        is_device-some device (controller s m),
        string_key.eq_iff user other,
      )
]
