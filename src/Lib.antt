-- ===== src/Lib.antt =====
-- The distributed inference platform: vehicles ask for inferences through a gateway, at once
-- (POST /v1/infer) or as a job (POST /v1/jobs). The gateway sends the first kind to the router over
-- gRPC and puts the second on a queue, from which the scheduler takes jobs, asks the router for
-- each, and publishes the result, retries or dead-letters. The router keeps a registry of workers,
-- selects one for each request and forwards the request to it over HTTP. The deployer keeps the
-- models' versions in Postgres and says which one is in production.
--
-- Files and the code they are about:
--   Models, Proto       shared/pkg/models/models.go; the messages of
--                       shared/proto/inference/v1/inference.pb.go
--   Router/Registry     services/router-go/internal/routing/registry.go (`Registry`: register,
--                       heartbeat, snapshot, count)
--   Router/Selector     services/router-go/internal/routing/selector.go (`Select` is `select`, its two
--                       loops `eligible` and `pick`)
--   Router/Server       services/router-go/internal/handler/grpc.go (`Server`: predict,
--                       stream_predict, health, register_worker)
--   Queue, Queue/Itoa, Queue/Memory
--                       shared/pkg/queue/queue.go (`Queue` is the record `Ops`, its promises `Laws`)
--                       and memory.go (`Memory`; `Consume` is `consume`, one message `consume_one`)
--   Queue/Redis, Queue/Kafka, Queue/Remote
--                       shared/pkg/queue/redis.go and kafka.go (their methods under their names, one
--                       read of `Consume` as `read_once` and `fetch_once`), and what the two share
--   Config              shared/pkg/config/config.go and shared/pkg/queue/factory.go
--   Metrics             shared/pkg/metrics/metrics.go (`Set`; `Middleware` is `middleware`, what it
--                       does before and after the handler `begin` and `finish`)
--   Scheduler           services/scheduler-go/internal/worker/dispatcher.go (`Dispatcher`: handle, and
--                       the handler of `Run`, on_message)
--   Deployer/Registry   services/model-deployer-go/internal/registry/registry.go over the tables of
--                       internal/db/schema.sql; Deployer/Registry/Scans, its reading of rows
--   Deployer/Handler    services/model-deployer-go/internal/handler/http.go
--   Gateway/Auth        services/gateway-go/internal/auth/apikey.go
--   Gateway/Handler     services/gateway-go/internal/handler/http.go
--   Gateway/Ratelimit   services/gateway-go/internal/ratelimit/ratelimit.go (`Middleware` is `limit`)
--   Gateway/Entry, Router/Entry, Scheduler/Entry, Deployer/Entry
--                       the cmd/*/main.go of the four services: settings, the gateway's chain of
--                       middlewares, the router's health check, the deployer's routes; and
--                       services/model-deployer-go/internal/db/db.go (`Connect`). The child
--                       Process of each is `main` from its start to its end
--   Gateway/Service, Deployer/Service
--                       the muxes of the gateway and the deployer: a request by its method and path
--                       to its handler (`serve`)
--   Gateway/Client      services/gateway-go/internal/client/router_client.go
--   Mux, Mux/Probes     what the services use of net/http's ServeMux, and the mux of the metrics
--                       servers of the router, the scheduler and the simulator
--   Process             what the `main` functions share: their actions in order, deferred calls,
--                       exits; Process/Tracing is shared/pkg/tracing/tracing.go (`Init`)
--   Logging             shared/pkg/logging/logging.go
--   Platform            the gateway and the scheduler on one in-process queue; Platform/Inference, the
--                       gateway calling the router; Platform/Driving, a vehicle calling the gateway;
--                       Platform/Delivery, a job on any queue backend; Platform/Lifecycle, the four
--                       services' `main`
--   Fleet               services/fleet-simulator-go/internal/telemetry/aggregator.go
--   Fleet/Vehicle       services/fleet-simulator-go/internal/vehicle/vehicle.go (`Run` is `start`, then
--                       `on_tick` for each tick)
--   Fleet/Simulator     services/fleet-simulator-go/cmd/simulator/main.go
--   Loadtest            benchmarks/loadtest/main.go
--   Prelude             what these share: tests, lists, Go's int64 arithmetic, maps, text order,
--                       sorting
-- A file below one of these proves things about it, and a file `Tests` (and Queue/Samples, for the
-- backends) runs it on concrete values.
--
-- State is passed explicitly: a registry, a queue or the two tables go in and come out of every
-- operation. The methods hold a mutex, so that an operation is one step, and a run is a sequence of
-- them. A map is a list of pairs. A Go int or int64 is a whole number that wraps at 64 bits where
-- the code adds or multiplies; a time is a whole number of nanoseconds; a float64 is its bit
-- pattern where it is only carried. The selector's scores are whole numbers, rounded after every
-- operation by a parameter that has the properties of IEEE rounding to float64.
--
-- Outside of the program, and parameters of the definitions: the clock, the HTTP client and the
-- workers behind it, the gRPC client, encoding/json, the token bucket of golang.org/x/time/rate,
-- Prometheus, go-redis, kafka-go and pgx with the servers behind them, math/rand, the arithmetic of
-- float64 in the fleet and the load test, uuid, the float conversions, time.ParseDuration, the
-- database's errors on statements, carried out or not (`Faults`), and its order of rows
-- (`newest_first`). What a theorem needs of one of these is a hypothesis of it or a record of laws
-- beside the definitions (`Appends`, `Acks`, `Writers`, `Logs`, `Commits`, `Readings`,
-- `DrawsBelow`, `Carries`). A context that is done is a parameter of `Enqueue`; the loop of
-- `Consume` runs for a number of turns that is given to it. json.Marshal gives none where it
-- returns an error; the gateway and the scheduler drop that error and enqueue the empty payload
-- (`job_payload`, `result_payload`). A call that does not return is the outcome `hangs`. The loops
-- of `itoa` run on a fuel of 20, in memory.go one for each byte of its buffer; an int64 has at most
-- 19 digits.
--
-- Concurrency: requests to the gateway interleave in `Metrics.Counts.Runs`, vehicles and their
-- aggregator in `Fleet.Simulator.Deltas.Steps`, the load test's workers in
-- `Loadtest.Workers.Hammers`; elsewhere an operation is a step. The deployer's requests are served
-- one after the other: its transactions hold no lock, and what concurrent ones see of each other at
-- READ COMMITTED is not modelled. In the queue backends, the writers of kafka.go, which have no
-- lock, are used by one call at a time.
--
-- A `main` is a program of events: what it acquires, starts, stops and releases, in order. Whether
-- a signal ever comes is a parameter, and so are whether the calls end that GracefulStop waits for,
-- the errors of grpc.NewClient, net.Listen and the exporters of spans. A panic in a `main`, for
-- want of memory too, is not modelled, but for the simulator's channel of a negative size and its
-- vehicles with a period below 2 ns. The path of a request stands as ServeMux takes it: clean, cut
-- at its slashes and unescaped.
--
-- Not modelled: the bytes on listeners and connections, the redirects of ServeMux, the registration
-- of gRPC services with grpc-go, the Tracer and the gRPC options of tracing.go, which only call
-- OpenTelemetry; the attributes and the format of log lines, and the text of the load test's
-- report; generated gRPC code beyond its message types; the Python side (training, serving),
-- dashboards and deployment files.
mod Prelude
pub mod Models
pub mod Process
pub mod Proto
pub mod Router
pub mod Queue
pub mod Scheduler
pub mod Deployer
pub mod Gateway
pub mod Fleet
pub mod Config
pub mod Metrics
pub mod Mux
pub mod Loadtest
pub mod Logging
pub mod Platform
