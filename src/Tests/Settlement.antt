-- ===== src/Tests/Settlement.antt =====
-- Streams that wait for two orders.
use bakery_go.Common.{ℕ, ◌≡◌, refl, true, false, none, List, [], ◌∷◌}
use bakery_go.Server.Settlement.{
  new_settlement_dispatcher, open_empty, closed, register, unregister, look_up, send,
}
use bakery_go.Server.Settlement.Routing.{
  Event, registers, sends, run, Inv, is_panic, send_after_unregister, run_dispatcher-Inv,
  unregister_displaced,
}

abbrev events : List (Event ℕ)
events = registers "b-1" ∷ registers "b-2" ∷ sends 0 7 ∷ registers "b-1" ∷ []

run_dispatcher-Inv_example : Inv (run events new_settlement_dispatcher)
run_dispatcher-Inv_example = run_dispatcher-Inv events

send_after_unregister_example :
    let sd = run events new_settlement_dispatcher in
    (is_panic (send 9 1 sd).0 ≡ false)
    × (is_panic (send 9 1 (unregister "b-2" sd)).0 ≡ true)
    × (is_panic (send 9 1 (register "b-2" sd).1).0 ≡ true)
unfolding run
send_after_unregister_example = send_after_unregister events "b-2" 9 1 refl

unregister_displaced_example :
    let first = register "b-1" (run events new_settlement_dispatcher) in
    let second = register "b-1" first.1 in
    let s = unregister "b-1" second.1 in
    (second.1.channels first.0 ≡ closed none)
    × (second.1.channels second.0 ≡ open_empty)
    × (s.channels second.0 ≡ closed none)
    × (look_up "b-1" s ≡ none)
unregister_displaced_example = unregister_displaced events "b-1"
