-- ===== src/Lib.antt =====
-- nestjs-order-api: a multi-tenant order service in NestJS, modelled by shallow embedding.
--
-- A tenant has a database of products, orders and order lines. Customers place orders, check them
-- out, pay them and complete them; two message queues carry the placed orders and the requests for
-- completion to consumers, which write the orders again. A third queue carries the new tenants to a
-- consumer that creates and migrates their databases. Listings are cut into pages, and interceptors
-- limit the rate of requests, cache their answers and choose the tenant.
--
-- Parts, their files, and the code they model:
--   Schema.antt              the rows and enums of prisma/schema.prisma
--   Http.antt                the exceptions that handlers throw, and a handler's result
--   Prisma.antt and below    a handler as an action on the world (Prisma/Monad.antt); the calls of
--                            @prisma/client as parameters (Prisma/Client.antt); what is documented of
--                            them, as named hypotheses (Prisma/Effects.antt, Prisma/Laws.antt)
--   Services.antt            the `catch` clauses that src/order/order.service.ts and
--                            src/product/product.service.ts repeat
--   Order/Cart.antt          createOrder, addItemToOrder, recalculateOrderTotal and findOne of
--                            src/order/order.service.ts
--   Order/Lifecycle.antt     checkoutOrder, paymentReceived, completeOrder, enqueueOrderProcessing and
--                            enqueueOrderCompleted of the same file
--   Order/Listing.antt       findAll of the same file
--   Order/Controller.antt, Order/Controller/Handlers.antt
--                            src/order/order.controller.ts: the handler create, and the others
--   Order/Machine.antt       the events of the services and the consumers, the runs that they make up, and
--                            the moves of one order's status; below it, what holds of all runs
--                            (Order/Machine/Bystanders.antt has what is documented of UUIDs), and the
--                            controllers' handlers as such events (Order/Machine/Handlers.antt,
--                            Order/Machine/Plans.antt)
--   Product.antt, Product/Controller.antt, Product/Access.antt
--                            src/product/product.service.ts and src/product/product.controller.ts, with
--                            its guards
--   Page.antt, Page/Query.antt
--                            the pages that both services answer with, and the query parameters of
--                            their controllers
--   RateLimit.antt           src/common/interceptors/rate-limit.interceptor.ts and
--                            src/common/decorators/rate-limit.decorator.ts
--   Consumer.antt, Consumer/Start.antt
--                            src/rabbitmq/order-processing.consumer.ts,
--                            src/rabbitmq/order-completed.consumer.ts and the delivery callbacks of
--                            src/rabbitmq/rabbitmq.service.ts
--   Rabbit.antt and below    connecting, waiting, publishing and consuming of the same service; the
--                            calls of amqplib as parameters and what is documented of them
--                            (Rabbit/Laws.antt)
--   Database/Creation.antt   src/rabbitmq/database-creation.consumer.ts, with its parts
--                            Database/Statements.antt (how a migration is cut, what is skipped),
--                            Database/Identifier.antt and Database/Checksum.antt; the calls of
--                            PostgreSQL as parameters (Database/Commands.antt)
--   Database/TenantMigration.antt
--                            src/prisma/tenant-migration.service.ts
--   Auth.antt, Auth/Controller.antt
--                            src/auth/auth.service.ts, src/auth/strategies/jwt.strategy.ts and
--                            src/auth/auth.controller.ts
--   User.antt, User/Controller.antt
--                            src/user/user.service.ts and src/user/user.controller.ts
--   Seed.antt                prisma/seed.ts
--   Cache.antt, Cache/Interceptor.antt
--                            src/common/services/cache.service.ts and
--                            src/common/interceptors/cache.interceptor.ts; what is documented of Redis
--                            (Cache/Store.antt)
--   Tenant.antt              src/prisma/tenant-context.service.ts,
--                            src/auth/interceptors/tenant.interceptor.ts,
--                            src/common/decorators/tenant-code.decorator.ts and
--                            src/auth/guards/roles.guard.ts
--   Tenant/Clients.antt, Tenant/Urls.antt
--                            the pool of clients and the URLs of src/prisma/database-manager.service.ts;
--                            the URLs of the consumer that creates databases
--   Tenant/RequestClient.antt
--                            the getter `client` of src/prisma/prisma.service.ts
--   Logging.antt, Logging/Lines.antt
--                            what src/common/interceptors/logging.interceptor.ts logs of a request
--   Response.antt            src/common/interceptors/api-response.interceptor.ts
--   Base.antt and below      numbers, lists, texts and tables that the parts share
--
-- State. A `World` is the tenant's tables, the three queues, whether the messaging service has its
-- connection and its channel, and `env`, which stands for all else: other connections, clock, random
-- ids. An action reads and writes it and returns or throws; what was written before a throw stays
-- written, since the code opens no transaction. Every handler and every delivery is one
-- uninterrupted event: the source may switch to another request at each `await`, and such
-- interleavings are not modelled. The queues are shared by all tenants in the source, and a consumer
-- takes the tenant's client by the code of the message; a `World` has one tenant's tables, and its
-- queues hold that tenant's messages.
--
-- Parameters. `Prisma`, `Broker`, `Postgres`, `UserCalls`, `Credentials`, `Redis` and `Json` are
-- records of calls. `IsPrisma o p` and `IsBroker o b` say that each call either fails with an error
-- that the oracle `o` gives, and then leaves tables and queues alone, or has its documented effect;
-- whether `sendToQueue` reports room is the oracle's `flushed`. A message that is sent without an
-- error is taken to stand in its queue, also when `sendToQueue` reports no room, where amqplib keeps
-- it in memory; the source uses a channel without confirms, so a broker that goes down after that can
-- lose it. The order of rows that an `orderBy` does not tell apart is the oracle's `rank`, another one
-- for each query. Commands of Redis are total functions: they settle, with a value or an error, while
-- the source lets them wait for as long as Redis is down (maxRetriesPerRequest: null).
-- `IsUpdating` says that the calls are answered. `IsDirectory`, `IsCreating`,
-- `IsUpdating` and `IsRegister` are what is documented of the table of users and of bcrypt, and
-- `IsStore` of Redis; `IsUuid` says that the id of a new row is no id that was there. The URL class
-- of the runtime is `UrlClass`, with no laws. A thrown value is an `Error`, with its message. When
-- `o` fails is left open unless a hypothesis says so.
--
-- Numbers. Prices and totals are cents in ℕ, so sums are exact where JavaScript adds floating point
-- numbers. Quantities and page numbers are in ℕ, as the validation of the requests ensures; stock is
-- in ℤ, since the code can make it negative. Clock differences that may be negative are written as
-- sums. The checksum's words of 32 bits are written out, in ℤ.
--
-- Texts that are cut and searched are lists of their characters (Base/Chars.antt); upper and lower
-- case are those of ASCII letters.
--
-- Fuel. The rounds of waiting for RabbitMQ are the source's own `maxRetries`, 10. A consumer that
-- cannot be started tries again without end; the number of attempts is an argument there. The
-- decimal digits of a message take n + 1 rounds for n; the hexadecimal digits of a checksum take
-- eight, which is enough for a number up to 2 ^ 31. All other loops run along a list.
--
-- An update of a product can set the description to null; for the other fields null, which Prisma
-- refuses, is not expressed. `OrderStatus` of a row can be any of the five; `data` of a page is the
-- field `items` here.
--
-- Not modelled: the decorators that validate and document requests, module declarations and
-- start-up (src/main.ts, src/app.module.ts, src/consumer/main.ts), opening and closing Redis, the
-- signing and reading of tokens (@nestjs/jwt, passport), and the log lines of the services. They
-- call other programs and libraries, or have no logic of their own.
pub mod Base
pub mod Http
pub mod Schema
pub mod Seed
pub mod Prisma
pub mod Services
pub mod Order
pub mod Page
pub mod RateLimit
pub mod Product
pub mod Consumer
pub mod Tests
pub mod User
pub mod Cache
pub mod Tenant
pub mod Rabbit
pub mod Database
pub mod Auth
pub mod Logging
pub mod Response
