-- ===== src/Lib.antt =====
-- A model of the services of this shop: the checkout saga of services/order-service, with the stock
-- of services/catalog-service, the charges of services/payment-service and the carts of
-- services/cart-service that it calls, the accounts and tokens of services/auth-service, the
-- consumers of services/notification-service and services/review-service, and the parts of
-- shared/gestalt_shared that they rest on.
--
-- Common holds what all parts share: lists, integers (a stock is a signed column), dictionaries, a
-- table as the list of its rows, and Redis as an interface of operations with the laws of its
-- commands.
--
-- Shared is shared/gestalt_shared: Errors is errors.py (a handler returns a result, and AppError
-- becomes a response with its envelope), InternalAuth is internal_auth.py (the check of the two
-- internal headers), Security is security.py (the cached keys of auth-service and the check of a
-- bearer token), Requests is middleware.py, http_client.py and the exception handlers of errors.py,
-- Metrics is metrics.py and logging.py; Traces follows a request id, and Uncounted compares the
-- counter of requests with the answers of clients. The library for JSON web tokens is the record
-- Jwt, with the laws of its encoding and decoding; Authentic is about who is let through, JwtDemo is
-- a concrete Jwt.
--
-- Auth is services/auth-service/app: Defs has the rows, the bodies and the black list of
-- redis_client.py, Tokens and Accounts the endpoints of routers/auth.py, Requests any sequence of
-- them, Keys and Base64 the key files and the published key of keys.py. Redemption and Race are
-- about what becomes of a refresh token, with the invariant of Spent; Recognition, with the lemmas
-- of Users, follows a user from registration to another service; KeyText is about the text of the
-- key, and about the key that a restart finds.
--
-- Cart is services/cart-service/app: Defs has the bodies, the settings and the Redis hashes of the
-- carts, Items the functions of routers/cart.py, Endpoints the same behind the check of the token,
-- Abandonment is run_pass of abandonment.py. View is what a buyer sees of a cart, Refinement says
-- that the endpoints do to it what a plain map from products to quantities would do, Counted is
-- about the scan.
--
-- Catalog is services/catalog-service/app: Defs has the rows, the bodies and the state (table,
-- cache, counters), Stock the writes reserve_stock and release_stock of routers/catalog.py, Reads
-- its reads list_products, get_product and get_price with the cache-aside of cache.py. A write holds
-- a row lock until it commits, so it is one step. Effect says what a write does, Overselling what
-- any sequence of writes does, Coherence that the product cache agrees with the table. Seed is
-- seed.py and the start of main.py, with what a restart does to the stock. The order of a page,
-- ORDER BY under the collation of the database, is a parameter.
--
-- Order is services/order-service/app: World has the database (models.py), the published events
-- (kafka_producer.py), the counters (metrics.py) and the states of the other services; Reasons the
-- closed set of failure reasons; Services the interfaces of the other services; Clients the
-- functions of clients.py; Saga and Checkout the function create_order of routers/orders.py, cut
-- into its numbered steps. Every HTTP call takes a fate from a list in the state: it is answered, it
-- never arrives, or its answer is lost after it took effect. The requests of others between the
-- pricing and the insertion are a function argument. Queries has get_order and list_orders; Jobs has
-- run_pass of reconciliation.py and of delivery_simulator.py, with the clock as it stands at the
-- start of a pass. Conservation is about the stock, Outcomes about how a saga ends, Idempotency
-- about the Idempotency-Key; Reconciliation and Delivery are about the jobs, Crash about what the
-- reconciliation does to the stock of a saga that crashed. Lifecycle is the specification of the
-- whole service, a state machine on its tables, its events and the clock; Acts is what the service
-- may do, and Refinement says that all of it goes the way of the machine, with Follows for the saga
-- and Passes for the jobs. What holds of every run of the machine is in Story and History (the
-- events of an order tell its row), Final (what stays of an order), Unique (ids) and Deliveries;
-- Guarantees and PrimaryKey say it of the service. Stock, Frame, Sweep, Clearing and Charging hold
-- lemmas.
--
-- Payment is services/payment-service/app: Charge has charge and get_result of routers/payments.py,
-- cut at each access of Redis, for requests that the check of the caller has let through, and
-- Concurrent any number of such requests that go on in any order while time passes. Endpoint is the
-- route with its checks, for a request that no other comes between. AtMostOnce is about the claim,
-- with the steps of Access and the invariant of Orderly; Agreement is about the answers, with the
-- stages of a key of Stages and Settling; Answers is about how soon a request is answered, Race
-- about UNSAFE_IDEMPOTENCY_MODE, and Alone holds lemmas on Endpoint.
--
-- Events is the loop run_consumer, the same in services/notification-service/app/consumer.py and in
-- services/review-service/app/consumer.py, over the log of one partition: Consumer has the loop with
-- its retries, commits and dead-letter queue, for any handler, cut at the points where a crash can
-- come. Progress compares a consumer that runs on with one that has no offsets and counts,
-- Reference; Quiet is about messages that the handler does not raise on, Crashes about crashes
-- between any two steps, with the calls of the handler written down, which Settled reads. Calls of
-- Kafka are taken to succeed. Notifications is the handler of services/notification-service.
--
-- Review is services/review-service/app: Reviews has the handler of consumer.py and create_review of
-- routers/reviews.py, OneReview is about the number of reviews, Race about two requests at once,
-- Bought about the deliveries behind the reviews.
--
-- System joins them: CatalogEndpoints and CartEndpoints fill the interfaces that the saga calls with
-- the endpoints of the catalog and of the carts, so what is proved of the saga holds with these
-- services behind it, and CartCheckout follows a cart through a checkout. PaidOrders does the same
-- with the route of a charge, and relates the end of an order to its payment. Purchases hands the
-- events of order-service to review-service, Notified hands them to notification-service.
--
-- Bounds: numbers are unbounded, as Python's are; the stock is a signed integer. The amount of an
-- order, an INT column, is taken to fit: the database refuses a larger one, before anything is
-- reserved. A saga and a pass of a job run to their ends without another between, and without a
-- crash but in Crash and in the databases that a run may start from. The saga goes through lists,
-- the poll of a waiting charge has the ten attempts of the source, so that twelve accesses answer
-- it, and the consumer's endless loop is cut after a number of steps, which is shown to be enough.
-- Times are in seconds. Texts of exceptions, the draws of random and the ids of uuid4 are inputs.
--
-- Not modelled: the database engine, Kafka, Redis and HTTP themselves, the libraries for tokens,
-- keys and password hashes, health checks, configuration, and the start of the services but the
-- catalog's.
pub mod Common
pub mod Shared
pub mod Catalog
pub mod Order
pub mod Payment
pub mod Events
pub mod Review
pub mod Cart
pub mod Auth
pub mod System
