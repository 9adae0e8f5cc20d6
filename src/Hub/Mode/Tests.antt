-- ===== src/Hub/Mode/Tests.antt =====
-- The control of machines at concrete inputs.
use webmux.Base.{◌≡◌, refl, true, some, List, [], ◌∷◌, string_key}
use webmux.Base.Set.{contains}
use webmux.Base.Map.{get, insert, remove, remove_all, keys_where}
use webmux.Hub.Mode.{
  release_all, disconnect, unregister_in, Mode, register_device, unregister_device, request_control,
  get_controller,
}
use webmux.Hub.Mode.Controllers as Controllers
use webmux.Hub.Mode.Controllers.{
  request_control_exact, release_control_exact, register_device_exact, unregister_device_exact,
  is_last,
}
use webmux.Hub.Mode.Soundness as Soundness
use webmux.Hub.Mode.Soundness.{Sound, after_all_nil-Sound}
use webmux.Hub.Mode.Reconnect.{reconnect_restores}
use webmux.Hub.Mode.Feed.{seen, sent_all, seen-sent_all}
use webmux.Hub.Mode.{restore, connect, tidy, is_idle, leases_of}
use webmux.Hub.Mode.Feed.{spares}

abbrev calls : List Soundness.Call
calls =
    Soundness.registers "ann" "phone"
    ∷ Soundness.requests "ann" "nas" "phone"
    ∷ Soundness.registers "ann" "desk"
    ∷ Soundness.requests "ann" "laptop" "desk"
    ∷ []

abbrev controlled : Mode
controlled = Soundness.after_all [] calls

controlled-Sound : Sound controlled
controlled-Sound = after_all_nil-Sound calls

after_all_nil-Sound_example : Sound (Soundness.after_all [] calls)
after_all_nil-Sound_example = after_all_nil-Sound calls

controlled-Distinct : Controllers.HasDistinct (get "ann" controlled)
unfolding Soundness.after_all Soundness.after register_device request_control connect restore get
    insert remove
controlled-Distinct = (refl, (refl, tt))

controlled_last : is_last "phone" (get "ann" controlled) ≡ true
unfolding Soundness.after_all Soundness.after register_device request_control connect restore get
    insert remove
controlled_last = refl

-- Another device takes the machine over while the first is away: the first does not get it back.
taken_over : Mode
taken_over = Soundness.after_all controlled (
    Soundness.unregisters "ann" "phone"
    ∷ Soundness.requests "ann" "nas" "desk"
    ∷ Soundness.registers "ann" "phone"
    ∷ [])

taken_over_stays : get_controller taken_over "ann" "nas" ≡ some "desk"
unfolding taken_over Soundness.after_all Soundness.after register_device unregister_device
    unregister_in disconnect release_all leases_of tidy is_idle request_control connect restore get
    insert remove remove_all keys_where get_controller contains
taken_over_stays = refl

reconnect_restores_example :
    get_controller
      (register_device (unregister_device controlled "ann" "phone").0 "ann" "phone").0
      "ann"
      "nas"
    ≡ get_controller controlled "ann" "nas"
reconnect_restores_example =
    reconnect_restores controlled "ann" "phone" "ann" "nas" controlled-Sound controlled_last

calls_spare : spares "nas" calls ≡ true
unfolding spares
calls_spare = refl

seen-sent_all_example :
    seen (sent_all controlled calls) "ann" "nas" (get_controller controlled "ann" "nas")
    ≡ get_controller (Soundness.after_all controlled calls) "ann" "nas"
seen-sent_all_example = seen-sent_all controlled calls "ann" "nas" controlled-Sound calls_spare
