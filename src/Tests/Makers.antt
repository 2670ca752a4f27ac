-- ===== src/Tests/Makers.antt =====
-- Deliveries of two units of a bread.
use bakery_go.Common.{◌≡◌, refl, true, [], ◌∷◌, Option, some}
use bakery_go.Common.Int.{ℤ, pos}
use bakery_go.Makers.{
  MakeBreadMessage, BreadMadeMessage, publishes, acks, made, process_single_message,
}
use bakery_go.Makers.Delivery.{Handled, process_single_message-Handled}

-- A body is the number of units.
abbrev message : ℤ → MakeBreadMessage ℤ
message n = record {
  id = pos 7;
  name = "Telera";
  quantity = n;
  description = "";
  kind = "";
  price = pos 90;
  status = "";
  image = "";
}

abbrev parse : ℤ → Option (MakeBreadMessage ℤ)
parse n = some (message n)

abbrev print : BreadMadeMessage → Option ℤ
print c = some c.quantity

process_single_message-Handled_example :
    Handled parse print
      (λ _. true)
      true
      true
      (pos 2)
      (process_single_message parse print (λ _. true) true true (pos 2))
process_single_message-Handled_example =
    process_single_message-Handled parse print (λ _. true) true true (pos 2)

bakes :
    process_single_message parse print (λ _. true) true true (pos 2)
    ≡ (made, publishes (pos 2) ∷ acks ∷ [])
unfolding process_single_message
bakes = refl
