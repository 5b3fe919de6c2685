-- ===== src/Examples/Sessions.antt =====
-- A connection that completes its handshake, and what holds of it.
use homed_service_esphome.Connection.Events.{on_connected}
use homed_service_esphome.Connection.Session.{send_raw}
use homed_service_esphome.Connection.Receiving.{
  index_of_zero, on_ready_read, on_server_hello, server_name_bytes,
}
use homed_service_esphome.Frame.{cut_sized, drain, read_ready}
use homed_service_esphome.Prelude.{
  ℕ, ◌≡◌, refl, true, false, List, [], ◌∷◌, ◌++◌, none, some, Bytes, arith,
}
use homed_service_esphome.Device.{Store}
use homed_service_esphome.Noise.{
  Noise, encrypt, decrypt, read_handshake, write_handshake, new_noise, split_handshake,
}
use homed_service_esphome.Frame.{frame, next_frame, cut}
use homed_service_esphome.Connection.Session.{
  disconnected, connecting, noise_handshake, ready, Effect, write, connect_to_host, Connection,
  main_device, send_message, inner_message,
}
use homed_service_esphome.Connection.Events.{
  Event, handle, is_ready, on_disconnected, on_error, on_reconnect_timer,
}
use homed_service_esphome.Connection.Receiving.{on_frame, on_noise_response, noise_done}
use homed_service_esphome.Connection.Messages.{update_device}
use homed_service_esphome.Connection.Recovery.{lost-retries, on_reconnect_timer-connects}
use homed_service_esphome.Connection.Ready.{IsGuarded, handle-IsGuarded}
use homed_service_esphome.Connection.Reach.{
  Reachable, made, handled, Reachable-IsGuarded, new_connection, send_message-written,
  on_frame-handshake_safe,
}
use homed_service_esphome.Connection.Loopback.{received, send_message-on_frame}
use homed_service_esphome.Entity.Info.{no_info}
use homed_service_esphome.Controller.Registry.{IsProper}
use homed_service_esphome.Controller.Enlisted.{handle-IsEnlisted}
use homed_service_esphome.Examples.{platform, plain_noise, empty_device}

abbrev store : Store ℕ
store = record { objects = λ id. empty_device; listed = 0 ∷ []; fresh = 1 }

abbrev fresh : Connection platform
fresh = new_connection platform 0 store

abbrev started : Connection platform
started = handle platform (Event.connected []) fresh

-- The server's hello, without a name.
abbrev greeted : Connection platform
greeted = handle platform (Event.ready_read 5 (1 ∷ 0 ∷ 1 ∷ 1 ∷ [])) started

-- Its handshake.
abbrev secured : Connection platform
secured = handle platform (Event.ready_read 6 (1 ∷ 0 ∷ 2 ∷ 0 ∷ 9 ∷ [])) greeted

started_runs : started.hung ≡ false
unfolding handle on_connected send_raw new_connection
started_runs = refl

greeted_runs : greeted.hung ≡ false
unfolding handle on_ready_read read_ready drain on_connected send_raw new_connection next_frame
    cut_sized on_frame on_server_hello server_name_bytes index_of_zero
greeted_runs = refl

greeted_waits : greeted.state ≡ noise_handshake
unfolding handle new_connection on_ready_read read_ready drain on_connected send_raw next_frame
    cut_sized on_frame on_server_hello
greeted_waits = refl

greeted-Reachable : Reachable platform greeted
unfolding new_connection
greeted-Reachable =
    handled started (Event.ready_read 5 (1 ∷ 0 ∷ 1 ∷ 1 ∷ []))
      (handled fresh (Event.connected []) (made 0 store) refl) started_runs

on_frame-handshake_safe_example : (on_frame platform 6 greeted (0 ∷ 9 ∷ [])).0.hung ≡ false
on_frame-handshake_safe_example =
    on_frame-handshake_safe platform 6 greeted (0 ∷ 9 ∷ []) greeted-Reachable greeted_runs
      greeted_waits

greeted-IsGuarded : IsGuarded platform greeted
greeted-IsGuarded = Reachable-IsGuarded platform greeted greeted-Reachable

secured-Reachable : Reachable platform secured
secured-Reachable =
    handled greeted (Event.ready_read 6 (1 ∷ 0 ∷ 2 ∷ 0 ∷ 9 ∷ [])) greeted-Reachable greeted_runs

secured_is_ready : is_ready secured.state ≡ true
unfolding handle on_ready_read read_ready drain on_connected send_raw new_connection next_frame
    cut_sized on_frame on_server_hello on_noise_response server_name_bytes index_of_zero
    read_handshake write_handshake new_noise split_handshake noise_done send_message update_device
    encrypt
secured_is_ready = refl

send_message-written_example :
    (secured.ping_timer ≡ true)
    × (n : Noise plain_noise) × ((secured.noise ≡ some n)
        × ((send_message 7 [] secured).out
            ≡ secured.out ++ (write (frame (encrypt plain_noise n (inner_message 7 [])).1) ∷ [])))
send_message-written_example =
    send_message-written platform secured 7 [] secured-Reachable secured_is_ready

handle-IsGuarded_example : IsGuarded platform secured
handle-IsGuarded_example =
    handle-IsGuarded platform (Event.ready_read 6 (1 ∷ 0 ∷ 2 ∷ 0 ∷ 9 ∷ [])) greeted
      greeted-IsGuarded

lost-retries_example :
    ((on_disconnected platform fresh).reconnect_timer ≡ true)
    × ((main_device (on_disconnected platform fresh)).active ≡ true)
    × ((on_disconnected platform fresh).state ≡ disconnected)
    × ((on_error platform fresh).reconnect_timer ≡ true)
unfolding new_connection
lost-retries_example = lost-retries platform fresh refl

on_reconnect_timer-connects_example :
    ((on_reconnect_timer platform true fresh).state ≡ connecting)
    × ((on_reconnect_timer platform true fresh).rx_buf ≡ [])
    × ((before : List Effect) × ((on_reconnect_timer platform true fresh).out
          ≡ before ++ (connect_to_host "" 0 ∷ [])))
unfolding new_connection
on_reconnect_timer-connects_example = on_reconnect_timer-connects platform true fresh refl

abbrev plain : Noise plain_noise
plain = record { handshake = none; send_cipher = some 0; recv_cipher = some 0; complete = true }

abbrev session : Connection platform
session = record fresh { state = ready; noise = some plain }

abbrev ping : Bytes
ping = 0 ∷ 7 ∷ 0 ∷ 0 ∷ []

send_message-on_frame_example :
    ((send_message 7 [] session).out ≡ write (frame ping) ∷ [])
    × (next_frame (frame ping ++ (1 ∷ [])) ≡ cut ping (1 ∷ []))
    × (on_frame platform 8 session ping ≡ received platform 8 7 [] ping session plain)
unfolding new_connection encrypt inner_message decrypt
send_message-on_frame_example =
    send_message-on_frame platform 8 7 [] ping (1 ∷ []) session session plain plain (omega arith)
      (omega arith) (omega arith) refl refl refl refl refl refl refl

-- A session in which the device has listed an entity of its sub-device 3.
abbrev listing : Connection platform
listing = record session { pending_entities = record no_info { key = 4; device_id = 3 } ∷ [] }

-- The frame of ListEntitiesDone.
abbrev listing_done : Event
listing_done = Event.ready_read 9 (1 ∷ 0 ∷ 4 ∷ 0 ∷ 19 ∷ 0 ∷ 0 ∷ [])

handle-IsEnlisted_example : IsProper (handle platform listing_done listing).store
unfolding new_connection
handle-IsEnlisted_example =
    handle-IsEnlisted platform listing_done listing
      (record { are_distinct = (tt, tt); are_old = (omega arith, tt) })
