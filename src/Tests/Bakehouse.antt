-- ===== src/Tests/Bakehouse.antt =====
-- Breads through the queues of the bakehouse.
use bakery_go.Common.{◌≡◌, refl, true, false, [], ◌∷◌, Option, some}
use bakery_go.Common.Int.{ℤ, pos}
use bakery_go.Proto
use bakery_go.Server.Shop.{replied}
use bakery_go.Server.Bakehouse.{sends, nacks, ready, send_bread_to_bakery, made_bread_stream}

abbrev bun : ℤ → Proto.Bread ℤ
bun n = record {
  id = pos 4;
  name = "Bun";
  price = pos 90;
  quantity = n;
  description = "";
  kind = "";
  status = "pending";
  image = "";
}

-- The bytes are the bread, so the queue shows what was published.
abbrev same : Proto.Bread ℤ → Option (Proto.Bread ℤ)
same b = some b

-- What is published has the old status.
sent_before_ready :
    send_bread_to_bakery same (λ _. true) true (bun (pos 2) ∷ []) []
    ≡ (replied (ready (bun (pos 2)) ∷ []), bun (pos 2) ∷ [])
unfolding send_bread_to_bakery
sent_before_ready = refl

-- The stream fails, and the call ends without an error.
lost_error :
    made_bread_stream same (λ _. false) (λ _. true) (λ _. true) (bun (pos 3) ∷ []) []
    ≡ (sends (bun (pos 3) ∷ []) ∷ nacks (bun (pos 3)) ∷ [], replied tt)
unfolding made_bread_stream
lost_error = refl
