-- ===== src/Tests/Client.antt =====
-- The broker's report of an order, of which the first answer is lost.
use bakery_go.Common.{◌≡◌, refl, [], some}
use bakery_go.Common.Int.{ℤ, pos, int32, int64, ◌+ℤ◌}
use bakery_go.Resilience.Breaker.{allow, new_circuit_breaker, record_failure}
use bakery_go.Data.Db.{Db, ok, db_error}
use bakery_go.Server.BrokerService.{accepted_as}
use bakery_go.Server.BrokerService
use bakery_go.Broker.Orders.{ack, data_to_proto_buy_order, process_one_order}
use bakery_go.Broker.Client.{new_broker_client, call}
use bakery_go.Broker.Client.Retried.{Forgotten, reported, process_one_order-Forgotten}
use bakery_go.Tests.Stock.{healthy}
use bakery_go.Tests.Matching.{cents}
use bakery_go.Tests.Service.{breakfast, lossy}

abbrev stored : Db ℤ ℤ
stored = (BrokerService.report_order cents (data_to_proto_buy_order breakfast) healthy).1

accepted :
    BrokerService.report_order cents (data_to_proto_buy_order breakfast) healthy
    ≡ (ok (accepted_as (pos 1)), stored)
unfolding BrokerService.report_order data_to_proto_buy_order int32
accepted = refl

process_one_order-Forgotten_example : Forgotten "b-1" [] healthy (
    process_one_order
      (λ b. some b)
      (reported lossy (λ d. d) new_broker_client.report_order cents)
      breakfast
      []
      healthy)
process_one_order-Forgotten_example =
    process_one_order-Forgotten (λ b. some b) cents lossy (λ d. d) new_broker_client.report_order
      breakfast breakfast [] healthy stored (pos 1) db_error refl accepted refl refl

-- The delivery is acknowledged all the same.
acknowledged :
    (process_one_order
      (λ b. some b)
      (reported lossy (λ d. d) new_broker_client.report_order cents)
      breakfast
      []
      healthy).0
    ≡ ack
unfolding process_one_order call allow new_circuit_breaker record_failure int64 ◌+ℤ◌
    BrokerService.report_order int32
acknowledged = refl
