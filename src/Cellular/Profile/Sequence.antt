-- ===== src/Cellular/Profile/Sequence.antt =====
-- The profiles: what is sent, in which order, and what is refused before anything is sent.
use smart_door_lock.Base.{
  ℕ, ◌≤◌, ◌≡◌, ◌∙◌, sym, List, [], ◌++◌, append-nil, some, arith, length, le→ltb,
}
use smart_door_lock.Base.Bytes.{codes}
use smart_door_lock.Base.Int.{ℤ, pos}
use smart_door_lock.SerialIo.{SerialIo}
use smart_door_lock.Exec.{ok}
use smart_door_lock.Exec.Says.{Says, Says-bind, Says-check, Says-of_eq}
use smart_door_lock.Cellular.{State, has, flush, send, command_ok}
use smart_door_lock.Cellular.Text.{
  sics_contype, sics_inact, sics_apn, siss_srvtype, siss_connid, siss_socktcp, short_time,
}
use smart_door_lock.Cellular.Wire.{line, Says-command_ok, Says-flush, Says-send}
use smart_door_lock.Cellular.Profile.{
  formatted, send_formatted, recv_or_nothing, cellular_setup_internet_connection_profile,
  cellular_setup_internet_service_profile,
}

formatted-short : (text : List ℕ) → length text ≤ 1022 → formatted text ≡ some text
unfolding formatted
formatted-short text h = rw (le→ltb 1024 (length text) (omega arith), le→ltb 1022 (length text) h)

module _ (io : SerialIo) where
  Says-recv_or_nothing : Says (line io) [] (recv_or_nothing io)
  unfolding recv_or_nothing
  Says-recv_or_nothing = record {
    at = λ s a h. io.wire-recv 9 short_time s.dev ∙ sym (append-nil _);
  }

  Says-send_formatted :
      (text : List ℕ)
      → length text ≤ 1022
      → Says (line io) text (send_formatted io (formatted text))
  unfolding send_formatted
  Says-send_formatted text h = rw (formatted-short text h) (Says-command_ok io text 9 short_time)

  Says-connection_profile :
      (sec : ℕ)
      → length (sics_inact sec) ≤ 1022
      → Says
          (line io)
          (sics_contype ++ (sics_inact sec ++ sics_apn))
          (cellular_setup_internet_connection_profile io (pos sec))
  unfolding cellular_setup_internet_connection_profile
  Says-connection_profile sec h =
      Says-bind (line io) sics_contype (sics_inact sec ++ sics_apn)
        (command_ok io sics_contype 9 short_time) _ (Says-command_ok io sics_contype 9 short_time)
        (λ _.
          Says-bind (line io) (sics_inact sec) sics_apn
            (send_formatted io (formatted (sics_inact sec))) _
            (Says-send_formatted (sics_inact sec) h)
            (λ _. Says-bind (line io) [] sics_apn (flush io) _ (Says-flush io) (λ _.
              Says-of_eq (line io) _ (append-nil sics_apn) (
                Says-bind (line io) sics_apn [] (send io sics_apn) _ (Says-send io sics_apn) (λ _.
                  Says-bind (line io) [] [] (recv_or_nothing io) _ Says-recv_or_nothing
                    (λ reply. Says-check (line io) (has reply (codes "OK"))))))))

  Says-service_profile :
      (ip : List ℕ) (port : ℤ) (sec : ℕ)
      → length (siss_socktcp ip port sec) ≤ 1022
      → Says
          (line io)
          (siss_srvtype ++ (siss_connid ++ siss_socktcp ip port sec))
          (cellular_setup_internet_service_profile io (some ip) port (pos sec))
  unfolding cellular_setup_internet_service_profile
  Says-service_profile ip port sec h =
      Says-bind (line io) siss_srvtype (siss_connid ++ siss_socktcp ip port sec)
        (command_ok io siss_srvtype 9 short_time) _ (Says-command_ok io siss_srvtype 9 short_time)
        (λ _.
          Says-bind (line io) siss_connid (siss_socktcp ip port sec)
            (command_ok io siss_connid 9 short_time) _ (Says-command_ok io siss_connid 9 short_time)
            (λ _. Says-send_formatted (siss_socktcp ip port sec) h))

  -- Where `CellularSetupInternetConnectionProfile` returns 0 it has sent the connection type, the
  -- inactivity time in decimal and the access point, in this order, each once and whole. (The text of
  -- the time fits the array, as that of an `int` does.)
  connection_profile_says :
      (sec : ℕ) (s : State io)
      → length (sics_inact sec) ≤ 1022
      → (cellular_setup_internet_connection_profile io (pos sec) s).0 ≡ ok tt
      → line io (cellular_setup_internet_connection_profile io (pos sec) s).1
        ≡ line io s ++ (sics_contype ++ (sics_inact sec ++ sics_apn))
  connection_profile_says sec s fits h = (Says-connection_profile sec fits).at s tt h

  -- Where `CellularSetupInternetServiceProfile` returns 0 it has sent the service type, the connection's
  -- id and the address with port and timer, in this order, if the address's text fits the array.
  service_profile_says :
      (ip : List ℕ) (port : ℤ) (sec : ℕ) (s : State io)
      → length (siss_socktcp ip port sec) ≤ 1022
      → (cellular_setup_internet_service_profile io (some ip) port (pos sec) s).0 ≡ ok tt
      → line io (cellular_setup_internet_service_profile io (some ip) port (pos sec) s).1
        ≡ line io s ++ (siss_srvtype ++ (siss_connid ++ siss_socktcp ip port sec))
  service_profile_says ip port sec s fits h = (Says-service_profile ip port sec fits).at s tt h
