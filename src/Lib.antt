-- ===== src/Lib.antt =====
-- A model of the migration backend: a service that copies tables from one database to another.
--
-- The program. A client asks for a migration (app/api/routes, app/services/migration_service.py), which
-- a row of the application's database records (app/models), with its credentials encrypted
-- (app/utils/encryption.py). Starting it puts a task into a queue; the worker
-- (app/workers/migration_tasks.py) loads the row, connects to both databases through providers
-- (app/providers), plans the tables (app/migration/planner.py, which uses validator.py and mapper.py
-- beside it), and runs the plan (app/migration/executor.py), reporting to the row and, through the
-- websocket manager (app/websockets/manager.py), to the subscribed clients.
--
-- The files.
--   Base        lists, Python's text and dict operations, exceptions and state. An action takes a state
--               to a result and a state; what was written before an exception stays written. Calls has
--               what can be said of an action wherever it is made.
--   Core        app/core: Constants, and Database with the URL of database.py
--   Utils       app/utils: Encryption and Helpers. Json has the flat objects that the program makes.
--   Schemas     app/schemas: Migration, Connection, Request, and the dict of columns by name (Columns)
--   Providers   app/providers: the interface of base_provider.py, where a database is a record of
--               actions on a world, its use in `async with` (Session), the choice of a provider and
--               the reading of its credentials (Registry), and the providers Sqlite, Mysql and Postgres,
--               over a driver. Lifecycle has connect, disconnect and test_connection, which the three
--               share up to the library, and Stream the loop of stream_table.
--   Migration   app/migration: Validator, Mapper, Planner and Executor, each with its functions, and
--               child modules for what is shown of them. Value has the values of a row.
--   Models      app/models: the rows, and in Metadata the columns and indexes that the classes declare
--   Ddl         tables, columns and indexes as SQLAlchemy and Alembic take them, the operations of these
--               libraries, and in Schema what their documentation says of them
--   Alembic     alembic/versions/0001_initial_schema.py
--   Services    app/services: MigrationService, with Create and Read, ConnectionService and
--               SchemaService. Stored is what a row holds of its request, which Create writes and the
--               worker reads.
--   Workers     app/workers/migration_tasks.py: MigrationTasks has the sessions on the row, and
--               MigrationTasks.Execute the task that calls them. System is the state that a task and a
--               service share: the migrated databases, the application's database, the broadcasts.
--   Websockets  app/websockets/manager.py: Manager has each call of it, Server their interleavings as a
--               step relation, Payload the events. Service is app/services/websocket_service.py.
--   Api         app/main.py and app/api/routes: the exception handlers (Answers), the routes of migrations
--               (Routes), and those of connections, schemas and health (Connections)
--   Tests       concrete runs, and the theorems at concrete inputs
--
-- How the code is modelled. A method whose body catches an exception and goes on is split where it
-- branches: `after_fetch` is what follows the fetch of a round of `_migrate_table`, and takes the value
-- or the exception that was caught. A loop over a list is recursion on the list. The `while True` loop
-- of `_migrate_table` is `copy_loop`, recursion on fuel, whose three arguments are the loop's variables;
-- running out of fuel is a result of its own, `out_of_fuel`, that no `except` catches. Each round moves
-- the offset on or counts a retry, so that (rows left) * (max_retries + 1) + (retries left) is a bound of
-- the rounds. A task has the fuel of its executor's loops as
-- an argument; 11 rounds for each row and 11 more are enough, since a row's settings ask for 10 retries
-- at most. `except Exception` catches every modelled exception; cancellation of a coroutine, a `BaseException`, is not modelled. Integers
-- are natural numbers where the program's values cannot be negative, and Base.Int's ℤ elsewhere. Text is
-- ASCII.
--
-- Parameters. The databases, the callbacks, the clock and the sleep of the event loop are actions
-- on a world `W` that the theorems leave open, with what they need of it as named hypotheses
-- (`IsTabular`, `IsResponsive`, `IsReliable`, `CountsInserts`, `IsAnswering`, `IsServed`). `Driver`
-- is the library of a database, whose catalogue queries are its operations, and `Drivers` makes a
-- provider of its credentials. Floats, JSON objects and the other values of a driver are the types
-- of `Python`; the operations on floats are `Floats`, whose rounding `IsRounding` states. `Crypto`
-- and `Serializers` are Fernet, base64, json and pydantic's JSON, of which `IsFaithful` and `Loads`
-- state that they read back what they wrote. `Runtime` has the clocks, `uuid4`, and what the calls
-- of each session of the application's database come to, in create_migration and in a task: a
-- session that raises has written nothing. The commit and the broker's call of start and cancel are
-- arguments. `ORDER BY` is a parameter of the reading of logs. `Library` opens and closes the
-- connections of a provider, `Urllib` is urllib.parse, and `Operations` are the calls of Alembic
-- and of `create_all`, which `IsLawful` compares with the schemas of Ddl.Schema. `IsWorking` states
-- of a provider that its calls succeed while an invariant of the databases holds, and
-- `IsConverting` of `int` and `json.dumps` that they take every value.
--
-- The operations of `Floats` always return, where Python's raise for an infinity or a number past the
-- range of a float.
--
-- Not modelled: the settings, which are constants; logging to the process's output; the session that
-- get_db gives and its rollback; alembic/env.py and the configuration of Celery, which are calls of
-- libraries; the middleware and the lifespan of the application. Each database access of a service is
-- one step, and a broadcast of a task is an entry in a list, since the task runs in another process than
-- the sockets.
pub mod Base
pub mod Core
pub mod Utils
pub mod Schemas
pub mod Migration
pub mod Providers
pub mod Ddl
pub mod Alembic
pub mod Models
pub mod Services
pub mod Workers
pub mod Websockets
pub mod Api
pub mod Tests
