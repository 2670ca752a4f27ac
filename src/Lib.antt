-- ===== src/Lib.antt =====
-- A verification library for bakery-go: bakery services that talk over gRPC and RabbitMQ, with
-- the stock and the orders in PostgreSQL.
--
-- Parts and files
--   Common             helpers: Boolean tests, lists, Go's integers as ℤ over the native ℕ with
--                      wrap-around (Common/Int: int64, int32), float64 as an interface of the
--                      operations in use (Common/Floats), sort.Slice as an interface with the
--                      contract of its doc (Common/Sorting)
--   Resilience         pkg/resilience/circuit_breaker.go: Breaker for CircuitBreaker (Allow,
--                      RecordSuccess, RecordFailure), Retry for the loop Retry, Limiter for TokenBucket
--                      and RateLimiter
--   Data               data/models.go over the tables of bakery.sql: Types for the structs, Db for
--                      tables, statements, transactions and errors (data/errors.go), Stock for
--                      AdjustBreadQuantity and FulfillOrderItem, Orders for InsertBuyOrder,
--                      GetBuyOrderByUUID, GetBuyOrderByID and UpdateOrderStatus, with
--                      Orders/Fulfilling for FulfillOrderTx and Orders/Reading for the other
--                      queries on orders, Outbox for the messages of the outbox, Breads for the
--                      catalogue, Baking for InsertMakeOrder and the pending make orders, with
--                      Baking/Reading for GetAllMakeOrders and GetMakerOrders, Invoices for the
--                      invoices, Accounts for customers and administrators, Dashboard for
--                      GetDashboardStats
--   Proto              the messages of proto/bread.proto
--   Server             BrokerService for server/broker_service.go (ReportOrder, ReserveInventory,
--                      ReportMatchingResults and the conversions), Settlement for
--                      server/settlement_dispatcher.go (Register, Unregister, and the look-up
--                      and the send of deliver as two steps), Rbac for server/middleware.go
--                      (rbacCheck, injectCustomerID, BuildInterceptorChain, and the calls that
--                      reach it), Restock for server/rabbitBakery.go (checkBread,
--                      initializeBakery, listenForBreadMade), Shop, Lookup and Bakehouse for
--                      server/gRPCBakery.go (Shop: CheckBreadInventory, BuyBread; Lookup:
--                      BuyOrder, BuyOrderStream, BuyBreadStream; Bakehouse: BakeBread,
--                      SendBreadToBakery, RemoveBread and their streams), Invoices for
--                      server/gRPCInvoice.go, Auth for server/gRPCAuth.go, Admin for the
--                      catalogue and UpdateOrderStatus of server/gRPCAdmin.go, Listing for its
--                      lists and for GetMyOrders of server/gRPCInvoice.go
--   Broker             Matching for broker/matching.go (processMatchingBatch, fulfillOrder), Stock
--                      for the two over the client and the server's handlers, Orders for
--                      processOneOrder and matchLoop of broker/main.go with the order buffer,
--                      Client for its client of the server (brokerClient) over Retry, with
--                      Client/Reserving, Client/Replies and Client/Reporting for ReserveInventory and
--                      processOneOrder over it, and Purchase for an order from BuyBread to
--                      its row
--   Makers             makers/main.go: processSingleMessage and what it calls
--   Frontend           frontend/cmd/web/auth_handlers.go: Sessions for the cookies, the middleware
--                      and the log-in, Portal for the pages of the customer portal;
--                      frontend/cmd/web/admin_handlers.go: Administration for the pages of the
--                      administrators, with Forms for their forms; Portal/Served and
--                      Administration/Served for both over the server's handlers
--   Buyers             buyers/main.go: a cycle of the buyer with its goroutines, as a relation of
--                      steps
--   Tests              runs at concrete inputs
--
-- How they interact. BuyBread puts an order, priced by the catalogue, into the broker's queue. The
-- broker takes an order from its queue, reports it to the server (ReportOrder), which stores it
-- once by its UUID, acknowledges the delivery and buffers the order. The matching loop hands the
-- buffer to the matching engine, which sorts it by bid and asks the server to reserve each bread
-- (ReserveInventory), which takes it from the stock (FulfillOrderItem), and reports the results of
-- the batch (ReportMatchingResults). The settlement dispatcher hands a settled order to the stream
-- that waits for it. checkBread asks the makers for what is running low, through a queue, and the
-- server adds what they confirm to the stock. Calls go through Retry, with a circuit breaker that
-- counts their failures; `fulfill_order` and `process_one_order` take the calls as parameters, and
-- Client gives them, over a network that loses requests and answers as its parameter says. The web
-- portal reads the customer from the token in a cookie and asks the server for that customer's
-- orders and invoices. The buyer buys in cycles: one goroutine calls BuyBread and then another
-- reads the stream of the settlement.
--
-- Conventions. A method is a function from the state to the state and the result; a lock makes it
-- atomic. Time is an argument, in nanoseconds. `int` and time.Duration are ℤ with their 64-bit
-- wrap-around written out. A database statement may fail: the list `faults` of the database says
-- which of those to come do, and the theorems hold for every such list. What numeric(10,2) keeps of
-- a price that InsertBuyOrder or InsertBread writes, and the order in which a SELECT without ORDER BY
-- gives out the details of an order, are fields of the tables; UpdateBread's price is taken to have
-- two decimals already. The loop of Retry runs on
-- MaxRetries + 1 rounds, the bound of its `for`; the other loops go over lists. No theorem takes
-- running out of rounds for a success. A cycle of the buyer is a relation of steps, without
-- fuel.
--
-- Not modelled: the generated protobuf code, the engines behind gRPC, RabbitMQ, PostgreSQL, JWT and
-- JSON, logging and metrics, the start of the services, the reconnecting loops, the consumer of
-- settlements and the pool of makers, the shop's web pages
-- (frontend/cmd/web/handlers.go, main.go), the lists and pages with names of bread makers, which the
-- tables of the model do not keep, the streams of the administrators' pages, and dates on invoices
-- and orders.
pub mod Common
pub mod Resilience
pub mod Data
pub mod Proto
pub mod Server
pub mod Broker
pub mod Makers
pub mod Frontend
pub mod Buyers
mod Tests
