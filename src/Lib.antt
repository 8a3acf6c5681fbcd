-- ===== src/Lib.antt =====
-- The kube-applier of the Hyperfleet: it watches "desires" in DynamoDB tables, applies or deletes the
-- Kubernetes objects that they name, and writes what happened into status tables.
--
-- How the parts work together. The watcher (seaplane-dynamo/dynamodb) scans a specs table from time
-- to time and polls its index in between; it compares what it reads with a cache of update times
-- and emits an event for every difference. The watch adapter puts the events on a channel, from
-- which client-go's informer feeds the controllers (pkg/controllers). The ApplyDesire controller
-- reads a desire (internal/database), calls the Kubernetes API, and has the status writer record
-- the outcome. The manager of the read desires keeps a controller running for each of them, which
-- copies the object that it names into the status document. The command line tool desirectl
-- (cmd/desirectl) writes desires into the specs tables, and waits for the status of a read desire;
-- it keeps a configuration of its own.
--
-- Which file models which part:
--   Prelude, Prelude/*      tests on numbers and texts, maps as association lists, slices, integers
--   Base/Errors             internal/database/errors.go, and error chains as errors.Is walks them
--   Base/Effects            `Result` for (T, error), and `Io` for a call that changes the world
--   Api/Types, Accessors    api/kubeapplier: the structs, and the accessor interfaces with laws
--   Dynamo/Client           the DynamoDB client, a parameter, with its documented behaviour as laws
--   Dynamo/Shard            seaplane-dynamo/dynamodb/shard.go (ComputeShard)
--   Dynamo/Cache            cache.go (FindChanged, ApplyStubs, ApplyRelist, EffectiveLookback)
--   Dynamo/Polling          scan.go and gsi.go (ScanAll, QuerySince, BatchGetItems)
--   Dynamo/Watcher          watcher.go (runRelist, runFastPoll, the defaults of Options); the loops in
--                           Watcher/Loop and Watcher/PollLoop, and both as goroutines in Watcher/Interleaved
--   Dynamo/Adapter          watch_adapter.go (the callback of NewWatchAdapter, tombstoneObject), with its
--                           goroutines and the closing of the channel in Adapter/Lifecycle
--   Database/RawExtension   internal/database/rawext_codec.go
--   Database/Items, Crud    internal/database/crud.go
--   Database/Client         internal/database/client.go and the interfaces of types.go; Client/Contract is
--                           what the clients of a table rely on
--   Database/Listers        internal/database/listers
--   Database/Informers      internal/database/informers/informers.go
--   Database/FakeCrud       internal/database/listertesting/fake_crud.go
--   Controllers/Conditions  pkg/controllers/conditions/conditions.go
--   Controllers/StatusWriter  pkg/controllers/desirestatuswriter/desirestatuswriter.go
--   Controllers/Keys        pkg/controllers/keys/keys.go
--   Controllers/Cooldown    internal/controllerutils/cooldown.go
--   Controllers/Kube        client-go's dynamic client, a parameter
--   Controllers/ApplyDesire pkg/controllers/apply_desire/controller.go (SyncOnce and below), with the
--                           event handlers in ApplyDesire/Handlers
--   Controllers/Worker, Workers  processNext of the three controllers, over a work queue as a parameter
--   Controllers/StatusWriter/Backed  the fetchers, replacers and creators of the controllers on a table
--   Controllers/ReadManager pkg/controllers/read_desire_manager/controller.go, with the event handlers in
--                           ReadManager/Handlers
--   Controllers/ReadKubernetes  pkg/controllers/read_desire_kubernetes/controller.go
--   Desirectl/Config        cmd/desirectl/config.go and config_cmd.go
--   Desirectl/ResourceTypes cmd/desirectl/resource_types.go
--   Desirectl/Desires       cmd/desirectl/dynamodb.go, helpers.go, and internal/desireid
--   Desirectl/Manifests     cmd/desirectl/helpers.go: the files of -f and the documents in them
--   Desirectl/Commands      the commands of apply.go, delete.go and get.go from their flags on
--   Desirectl/Applying, Deleting, Getting  cmd/desirectl/apply.go, delete.go and get.go, with the list
--                           of resources in Getting/Listing
--   Desirectl/Printing      cmd/desirectl/output.go
--   DesireTool              cmd/desire-tool/main.go: the developers' tool, with its commands in Writing,
--                           Reading and Removing
--   Application, Application/Options  cmd/root.go (the flags, their check, the tables that they name, and the
--                           options that are built from them)
--   Application/Running     pkg/app/kube_applier.go
--   Tests/*                 instances of the parameters, and runs on concrete inputs
-- The other child modules of a part hold its proofs and are named for what they prove.
--
-- State and operations. A method that changes a struct takes it and returns the new one; a call of a
-- service takes and returns the world, of which nothing is known but the laws of the parameter. A
-- time is a number of a unit of the part; a duration that can be negative is an integer. Go's nil
-- is `none`. An int64 version wraps around at 2 ^ 64. A map is a list of entries, each key once; a
-- loop over a map runs in the order of the list, so what is proved holds for every order.
--
-- Fuel. The loops over the pages of a scan and of a query take fuel, and give `none` when it runs out;
-- a scan with finitely many pages ends with more fuel than pages. The chunks of a batch read are
-- bounded by the number of keys, since each chunk holds at least one.
--
-- The wait of the get command takes one pass for each unit of fuel; its interval is 200
-- milliseconds at least, so one pass for each 200 milliseconds of the timeout and two more are enough.
--
-- Concurrency. Goroutines are steps on the state that they share, in any order. The manager's are a look
-- into the map that takes a controller out, the end of the wait for its goroutine, a start by the worker
-- that has the key, and the end of a goroutine; its mutex makes each look at the map one step. A worker's are the start and the end of a sync, with events of the informer in between.
-- The application's are the servers and the leader election with their errors, and the waiting of Run for
-- them; a send to a full channel waits. The adapter's are those of its watcher, of Stop and of the one that closes the channel. The
-- watcher's two loops are scans, fetches, changes of the cache and single events.
--
-- Not modelled: client-go's work queues, shared informers and leader election, net/http, encoding/json and
-- the AWS client, which are parameters with the laws that the code relies on; the metrics; the
-- constructors of the clients, the flag library and logging, which only pass values on; Run of the
-- controllers, which starts workers; and deep copies, since values are copied anyway.
pub mod Prelude
pub mod Base
pub mod Api
pub mod Dynamo
pub mod Database
pub mod Controllers
pub mod Desirectl
pub mod Application
pub mod DesireTool
pub mod Tests
