-- ===== src/Dsh/Bridge/Tests.antt =====
-- The bridge at concrete inputs.
use myworktree.Prelude.{
  ◌≡◌, refl, true, false, none, some, [], ◌∷◌, lookup, insert, remove, all_codes,
}
use myworktree.Dsh.Bridge.{
  MuxBridge, new_mux_bridge, take_over, register_conn, begin_close, end_close, end_from, leave_map,
  Uplink, uplink_at, uplink_to, look_up, is_bridge_conn,
}

-- a downlink for the id "a"
abbrev one : MuxBridge
one = register_conn "a" (take_over "a" new_mux_bridge).1

abbrev said : Uplink
said = record {
  closes = false;
  body = some (104 ∷ 105 ∷ []);
  is_binary = false;
  decoded = none;
  taken = true;
}

received : (uplink_at (look_up "a" one) said one).sent ≡ some (0, false, 104 ∷ 105 ∷ [])
unfolding uplink_at uplink_to register_conn take_over lookup insert remove
received = refl

-- Between its two parts a close leaves the connection in the map, and an uplink finds it and is refused.
closing_found :
    (look_up "a" (begin_close 0 one) ≡ some 0)
    × ((uplink_at (look_up "a" (begin_close 0 one)) said (begin_close 0 one)).status ≡ 409)
    × (look_up "a" (end_close 0 (begin_close 0 one)) ≡ none)
unfolding uplink_at uplink_to register_conn take_over lookup insert remove begin_close end_close
    end_from leave_map
closing_found = (refl, refl, refl)

-- Two downlinks for one id that take it over before either registers: both stay open, and the first is no
-- longer in the map.
abbrev two : MuxBridge
two = register_conn "a" (register_conn "a" (take_over "a" (take_over "a" new_mux_bridge).1).1)

both_open : (two.owner 0 ≡ some "a") × (two.owner 1 ≡ some "a") × (lookup "a" two.conns ≡ some 1)
unfolding register_conn take_over lookup insert remove
both_open = (refl, refl, refl)

named : is_bridge_conn "abc_DEF-1" ≡ true
unfolding is_bridge_conn all_codes
named = refl
