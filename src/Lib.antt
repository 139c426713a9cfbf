-- ===== src/Lib.antt =====
-- natun: the core of a feature store (Go module github.com/raptor-ml/raptor).
--
-- The program keeps feature values per entity in a state (Redis), tells a historian about every
-- write, and serves reads. A feature is described by a manifest, from which the engine makes a
-- descriptor; a request names a feature by a selector and runs a pipeline of middlewares, of which
-- one calls the state and one refreshes it. The parts and the files that model them:
--
--   Prelude                shared names: lists, maps as association lists, integers and texts over
--                          the native numbers, decimal and other digits (strconv)
--   Api.Errors             api/errors.go and the errors of all packages; panics as a result
--   Api.Primitive          api/primitives.go: PrimitiveType
--   Api.Aggr, Api.Bucket   api/windows.go
--   Api.Value, Api.Normalize, Api.ScalarText
--                          api/primitives.go and api/state.go: dynamic values and their texts
--   Api.Descriptor         api/feature.go, api/v1alpha1/feature_types.go, datasource_types.go
--   Api.Keys               api/ifaces.go: Keys
--   Api.Selector           api/common.go
--   Engine.Pipeline        internal/engine/pipeline.go
--   Engine.Priority        internal/engine/feature.go
--   Engine.World           api/state.go, api/historian.go, internal/historian/client.go
--   Engine.Write, Engine.Read
--                          internal/engine/engine_pipeline.go
--   Engine.Registry        internal/engine/engine_bind.go
--   Engine.Request         internal/engine/engine.go
--   Redis.Command, Redis.Primitives
--                          internal/plugins/providers/state/redis: the keys and the writing methods
--   Redis.Read, Redis.Window
--                          the reads of the same package, values and windows
--   Redis.DeadBuckets      the search for dead buckets of the same package
--   Redis.Scripts          its Lua scripts (lua.go)
--   Redis.State            its methods as the state of the engine
--   System                 the engine over that state
--   Historian.Queue        internal/historian/queue.go and subscriptionQueue.go
--   Historian.Server       internal/historian/historian.go
--   Historian.Dispatch     internal/historian/collect.go and write.go
--   Builders               internal/plugins/builders: sourceless (Programs), streaming, rest, model
--   Operator.Webhook       internal/operator/feature_webhook.go, internal/engine/dummy.go
--   Operator.Controllers, Operator.Features
--                          internal/operator/datasource_controller.go, feature_controller.go
--   Controllers            internal/engine/controllers: the reconcilers of features, models and data
--                          sources over the engine or the historian
--   History.QueryBuilder   pkg/querybuilder
--   History.Parquet, History.Snowflake
--                          internal/plugins/providers/historical: parquet (with s3), snowflake
--   Runtime.Discovery, Runtime.Manager
--                          pkg/runtimemanager/rm.go
--   Runtime.Runner, Runtime.Pods
--                          pkg/runner/base.go, and the pods that both read and write
--   PluginRegistry         pkg/plugins/plugin.go
--   Redis.Notifier         internal/plugins/providers/state/redis/notifier.go
--   ModelServer            internal/plugins/modelservers/sagemaker-ack: imageUriConfig.go (Config:
--                          config.go)
--   Sdk.Convert, Sdk.Wire  pkg/sdk/to_grpc.go and pkg/sdk/from_grpc.go
--   Sdk.Messages, Sdk.Service, Sdk.Client
--                          pkg/sdk/engine_to_service.go and pkg/sdk/client_to_engine.go
--   Tests                  runs, and the theorems at concrete inputs
--
-- The children of a module (Api.Bucket.Bounds, Engine.Write.Notify, ...) hold its proofs. Functions
-- keep the names of the source in snake_case (FeatureDescriptorFromManifest is
-- descriptor_from_manifest, engine.write is write); where a Go function goes on after a call, the
-- rest of it is a function of the call's result (write_typed is setMiddleware behind TypeDetect).
--
-- State is passed explicitly. A World has the store of the state, the queues of the historian's
-- client in the order of the calls that add to them, and the writes that a read leaves to a
-- goroutine. A middleware is a function from the next handler to a handler. The channel of
-- applyWithTimeout is the list of the values that are sent on it, and how the race between the
-- channel and the context ends is an argument (Wait). Every request takes one reading of the clock.
-- The historian is a record of its features, its cache, the calls that add to its queues and its
-- counter. All loops are structural recursions but the one that drains a queue, which runs for a
-- number of rounds; where nothing else adds to the queue, one round more than there are items that
-- wait or that Done puts back is enough.
--
-- Conventions. Times and durations are numbers of nanoseconds, not negative; a time of a value, of
-- a Scalar, is an integer. Texts are lists of code points; lower-casing is exact where the result
-- is ASCII. math.Ceil of a quotient is the exact one, which is right below 2^53 ns, and so is the
-- product with 0.9 of the historian, cut off, below 2^50 ns. A store of Redis is what the server
-- has at one moment: a key whose time to live is over is not in it. A Go map is an association
-- list; the order in which Go ranges over a map is not specified, and one order is taken. An error
-- stands for its kind, without the text of its message.
--
-- Parameters, for code outside the repository: float64 with strconv (FloatOps, whose law is the
-- one documented for FormatFloat with precision -1), the runtime for Python programs (Runtime, and
-- Plugins with the table of builders), durationpb and timestamppb (Durations, Timestamps), a Redis
-- server (RedisServer: its transactions, reads and hashes; RedisScans; the commands that the
-- scripts call, Strings and Fields, and Lua's numbers, LuaNumbers), the work queue of client-go
-- (WorkQueue), the cache with expiring keys (BucketCache), the historical storage as the historian
-- sees it (HistoricalWriter), a SQL database with encoding/json (Database, Json), the files of
-- Parquet (ParquetFiles, RecordOps), the execution of text templates (Execute), the servers of the
-- runtimes with their sockets and new uuids (RuntimeServers), the channels of Redis (PubSub,
-- Subscription, NotificationJson), HTTP and JSON (HttpOps), model servers (ModelPlugins), and the
-- client of the cluster (ClusterOps, ObjectClient). An interface of the repository is a parameter
-- where a part does not depend on what is behind it: the state (StateOps, StateReads), the engine
-- (EngineOps) and what the controllers bind features to (FeatureManager). A writing method of the
-- Redis provider is the list of the commands that it executes; what a server makes of them is a
-- parameter, with what a theorem assumes of it among its hypotheses. gRPC passes messages on as
-- they are.
--
-- Not modelled: goroutines that only wait, subscribe or shut down; the controller of models in the
-- operator and the reconciler and Serve of SageMaker, which make objects and requests of third-party
-- libraries; what the factories of the providers make of addresses, flags and credentials; the setup
-- with managers (internal/engine/controllers/ctrl.go, cmd); the loader of protobuf descriptors
-- (pkg/protoregistry); the HTTP and gRPC servers (internal/accessor); the registration of plugins at
-- start; generated code, counters and logging.
pub mod Prelude
pub mod Api
pub mod Engine
pub mod Redis
pub mod Sdk
pub mod System
pub mod Historian
pub mod Builders
pub mod Operator
pub mod History
pub mod Runtime
pub mod Controllers
pub mod PluginRegistry
pub mod ModelServer
mod Tests
