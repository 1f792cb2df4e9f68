-- ===== src/Lib.antt =====
-- A model of QuestTest, the automation framework that tests the factor research platform through
-- its HTTP API, its MCP endpoint and its database.
--
-- The parts and how they interact. The settings (config/settings.py) merge YAML layers and
-- environment variables. The HTTP client (api/client.py) sends requests with retries; the client of
-- the Factor Data MCP (api/factor_data_mcp_api.py) holds a session on top of it. The database
-- client (db/client.py) runs statements in transactions and, when it is read only, has its guard
-- check every statement first. The services drive these clients: here the polling of a
-- Performance Refresh (service/factor_combo_refresh.py, with the response check of
-- service/factor_combo_service.py), the flow that runs the research pipeline, watches it, reads its
-- result and registers it or asks for another round (service/factor_combo_service.py), the traversal
-- of paged answers
-- (service/factor4_read_service.py) and the gate on pending calculation cases
-- (service/factor4_calculation_coverage.py).
--
-- The files. A module stands for the source file that its first comment names, and its children for
-- the proofs about it, with the tests in Examples.
--   Prelude, Effect, Json     shared tests on numbers, lists and text; Python statements that change
--                             a state and may raise; decoded JSON
--   Config/Settings           config/settings.py: `_deep_merge` is deep_merge, `load` load_data,
--                             `_apply_environment_overrides`, `_to_boolean`, `_host_list`,
--                             `_normalize_auth_token` and `_optional_string` keep their names
--   Db/SqlGuard               db/client.py: `_SQL_PARTS` is find_parts, `_require_read_only_sql`
--                             keeps its name
--   Db/Client                 db/client.py: `DatabaseTransaction` and `DatabaseClient`
--   Api/Http                  api/client.py: `HTTPClient.request` is request_http
--   Api/Mcp                   api/factor_data_mcp_api.py: parsing and validation of answers; Client
--                             and Tools are the methods of `FactorDataMCPAPI`, Redaction
--                             `_sanitize_data`
--   Service/Flow              the flow response check; Refresh is `poll_performance_refresh` and
--                             `_validate_completed_refresh`
--   Service/Research          service/factor_combo_service.py: `run_real_research_flow` and what it
--                             calls. Agents is `discover_agent`, Starting `start_real_run` and
--                             `recover_existing_run`, Watching `poll_real_run`, Results
--                             `read_real_pipeline_result`, Performance and Components its
--                             checks of the report, Feedback `submit_real_feedback`, Rounds the
--                             two loops around them
--   Service/Paging            service/factor4_read_service.py: `_traverse` is traverse
--   Service/Oracles           service/factor4_calculation_oracles.py: `contiguous_segments` and
--                             `visible_revision`
--   Service/Coverage          service/factor4_calculation_coverage.py, Manifest its table of cases
--
-- State and effects. An operation takes a state and gives an outcome, a value or an exception,
-- beside the new state, so that what was done before an exception stays done. What lies outside,
-- the HTTP session, the database driver and the clock, is a script that answers each call by
-- its number, or by the length of the log, and a log of the calls. JSON and YAML decoding, regular expression substitution,
-- `str()` of a value that is no string, and comparisons of floats are parameters.
--
-- Loops. The retry loop, the polling loop and the traversal recur on the attempts or pages that are
-- left, which is what bounds them in the code. The SQL lexer recurs on fuel, the length of the text,
-- since each round takes one character or more. In the research flow the attempts recur on the
-- technical retries that are left and the rounds on the rounds, while `poll_real_run` recurs on fuel:
-- each of its rounds reads the clock, so that fuel for the calls that fit before the deadline is
-- enough.
--
-- Times are whole numbers of some unit. Case folding is that of ASCII. A check that an argument has
-- its annotated Python type holds of every argument by its type here.
--
-- Not modelled: the repositories, the API wrappers and most check services, which build fixed SQL
-- and requests and compare rows; logging; the fields of the settings that are one conversion each;
-- the details of an error beside its class, outcome and message, but for the technical failures of
-- the research flow, whose `retry_pipeline` the flow reads; of that flow the registration with its
-- refresh and audit, which is one event with an outcome from the script; the worker path of the same
-- service; the other calculation oracles, which work on decimals.
pub mod Prelude
pub mod Effect
pub mod Json
pub mod Db
pub mod Api
pub mod Service
pub mod Config
