-- ===== src/Service/Research/Examples.antt =====
-- A research flow that registers its first result, and small runs of its steps.
use quest_test.Prelude.{
  ◌≡◌, refl, true, false, Text, chars, pos, negsuc, none, [], ◌∷◌, List, ◌==◌, if◌then◌else◌, ℕ,
  arith, ◌⊎◌, ◌++◌, ◌≢◌,
}
use quest_test.Effect.{returned, raised}
use quest_test.Json.{
  Value, null, bool, int, float, str, arr, obj, element, bracket, Fields, field, brace,
}
use quest_test.Service.Flow.{Response, response, pass_registered}
use quest_test.Service.Research.{
  Form, Run, PipelineResult, ResearchSettings, Environment, form_row, registered, Event, Answer,
  out_of_fuel, Failure,
}
use quest_test.Service.Research.Starting.{start_real_run_request, start_real_run, select_uid}
use quest_test.Service.Research.Watching.{poll_real_run}
use quest_test.Service.Research.Agents.{AgentSelection, select_agent}
use quest_test.Service.Research.Rounds.{FlowResult, run_real_research_flow}
use quest_test.Service.Research.Polling.{Runs}
use quest_test.Service.Research.Endings.{
  Within, run_real_research_flow-Within, run_real_research_flow-Runs,
}
use quest_test.Service.Research.Started.{Posted, bad_arguments, start_real_run_request-Posted}
use quest_test.Service.Research.Results.{read_real_pipeline_result}
use quest_test.Service.Research.Accepted.{Accepted}
use quest_test.Service.Research.Reading.{HasPerformance, read_real_pipeline_result-Accepted}
use quest_test.Service.Research.Snapshots.{Watched, poll_real_run-Watched}
use quest_test.Service.Research.Concluding.{Verdict}
use quest_test.Service.Research.Verdicts.{run_real_research_flow-Concludes}
use quest_test.Service.Research.Unique.{Selected, select_agent-Selected}
use quest_test.Service.Research.Recovered.{Identified, start_real_run-Identified}

abbrev run_id : Text
run_id = chars "combo-7-0123456789abcdef"

abbrev form : Form
form = record { form_id = 4; session_id = 2; pool_id = 9 }

abbrev settings : ResearchSettings
settings = record {
  agent_uid = [];
  poll_interval = pos 1;
  poll_timeout = pos 5;
  max_research_rounds = pos 2;
  max_technical_retries = pos 1;
}

abbrev envelope : ℕ → Fields → Response
envelope code data' =
    response code (obj (field "success" (bool true) (field "data" (obj data') brace)))

abbrev agent_item : Fields
agent_item = field "agent_uid" (str (chars "a1")) (field "name" (str (chars "投研 Agent")) brace)

abbrev agents_answer : Answer
agents_answer = record { status_code = 200; body = arr (element (obj agent_item) bracket) }

abbrev start_data : Fields
start_data =
    field "form_id" (int (pos 4))
      (field "pipeline_run_id" (str run_id) (field "idempotent_replay" (bool false) brace))

abbrev status_data : Fields
status_data =
    field "form_id" (int (pos 4)) (
      field "pipeline_run_id" (str run_id)
        (field "pipeline_status" (str (chars "Completed")) brace))

abbrev review : Fields
review = field "experiment_valid" (bool true) (field "registration_ready" (bool true) brace)

abbrev validity : Fields
validity = field "time_series_is_valid" (bool true) (field "cross_sectional_is_valid" null brace)

abbrev performance : Fields
performance = field "ts_ic" (int (pos 0)) (
    field "return_rate" (float (chars "0.2")) (
      field "out_of_sample_icir" (float (chars "0.5")) (
        field "net_sharpe" (int (pos 2)) (
          field "max_drawdown" (float (chars "-0.1")) (
            field "annual_turnover" (int (pos 3)) (
              field "positive_return_rate" (float (chars "0.6"))
                (field "observations" (int (pos 250)) brace)))))))

abbrev component : Fields
component =
    field "factor_id" (int (pos 11))
      (field "direction" (int (negsuc 0)) (field "weight" (float (chars "0.5")) brace))

abbrev report : Fields
report = field "factor_name" (str (chars "f")) (
    field "components" (arr (element (obj component) bracket))
      (field "performance" (obj performance) brace))

abbrev result_data : Fields
result_data = field "form_id" (int (pos 4)) (
    field "pipeline_run_id" (str run_id) (
      field "pipeline_status" (str (chars "completed")) (
        field "result"
          (obj (
            field "factor_combo_report" (obj report) (
              field "factor_combo_review" (obj review)
                (field "factor_validity_status" (obj validity) brace))))
          brace)))

abbrev form_data : Fields
form_data =
    field "id" (int (pos 4))
      (field "session_id" (int (pos 2)) (field "pipeline_run_id" (str run_id) brace))

abbrev answer_at : ℕ → Response
answer_at n =
    if n == 0
    then response 200 (arr (element (obj agent_item) bracket))
    else if n == 2
    then envelope 202 start_data
    else if n == 6
    then envelope 200 status_data
    else envelope 200 result_data

abbrev env : Environment
env = record {
  clock = λ n. n;
  answers = answer_at;
  forms = λ n. form_row (obj form_data);
  registrations = λ n. registered;
  show = λ v. chars "None";
  int_of = λ v. none;
  is_whole = λ t. false;
  is_decimal = λ v. true;
  float_at_least = λ t n. true;
  float_at_most = λ t n. true;
}

abbrev run : Run
run = record {
  form = form;
  pipeline_run_id = run_id;
  agent_uid = chars "a1";
  agent_session_id = null;
  research_round = 1;
  reused_existing = false;
}

abbrev result : PipelineResult
result = record {
  run = run;
  report = report;
  review = review;
  validity = validity;
  raw_data = result_data;
}

abbrev final : FlowResult
final = record {
  outcome = pass_registered;
  agent = record { agent_uid = chars "a1"; name = chars "投研 Agent"; raw = agent_item };
  rounds =
      record {
        research_round = 1;
        finished = record { run = run; final_status = status_data; result = result; retries = 0 };
        feedback = none;
      }
      ∷ [];
  last_result = result;
}

registers : (run_real_research_flow env settings 9 form 1 [] []).0 ≡ returned final
unfolding run_real_research_flow quest_test.Json.get_or_null quest_test.Json.get
    quest_test.Json.as_fields quest_test.Service.Research.call_flow_request
    quest_test.Service.Flow.normalize_status
registers = refl

run_real_research_flow-Concludes_example :
    Verdict env 4 [] final (run_real_research_flow env settings 9 form 1 [] []).1
run_real_research_flow-Concludes_example =
    run_real_research_flow-Concludes env settings 9 form 1 [] [] final registers

run_real_research_flow-Within_example :
    Within settings [] (run_real_research_flow env settings 9 form 1 [] []).1
run_real_research_flow-Within_example = run_real_research_flow-Within env settings 9 form 1 [] []

runs : Runs env settings 6
runs m n h = ground (arith, h)

run_real_research_flow-Runs_example :
    (run_real_research_flow env settings 8 form 1 [] []).0 ≢ raised out_of_fuel
run_real_research_flow-Runs_example =
    run_real_research_flow-Runs env settings 6 7 form 1 [] [] runs (omega arith)

start_real_run_request-Posted_example :
    ((bad_arguments [] (chars "a1") none 1 ≡ true)
      × ((e : Failure) × (start_real_run_request env [] form (chars "a1") none false 1 []
            ≡ (raised e, []))))
    ⊎ ((bad_arguments [] (chars "a1") none 1 ≡ false)
        × Posted env form
            (record {
              agent_uid = select_uid (chars "a1") [];
              force_fresh_pipeline_run = false;
              feedback_id = none;
            })
            []
            (start_real_run_request env [] form (chars "a1") none false 1 []))
start_real_run_request-Posted_example =
    start_real_run_request-Posted env [] form (chars "a1") none false 1 []

-- A log of one call, so that the second call of a start is answered.
abbrev listed : List Event
listed = quest_test.Service.Research.list_agents 1 ∷ []

starts_run : (start_real_run env [] form (chars "a1") none false 1 listed).0 ≡ returned run
unfolding start_real_run quest_test.Json.get_or_null quest_test.Json.get
    quest_test.Service.Research.call_flow_request
starts_run = refl

start_real_run-Identified_example :
    (answer : Answer) × ((start_real_run_request env [] form
        (select_uid (chars "a1") [])
        none
        false
        1
        listed).0
      ≡ returned answer)
    × Identified form (select_uid (chars "a1") []) 1 (answer.status_code == 409) run
start_real_run-Identified_example =
    start_real_run-Identified env [] form (chars "a1") none false 1 listed run starts_run

poll_real_run-Watched_example :
    Watched env settings run (poll_real_run env settings 9 run (listed ++ listed ++ listed))
poll_real_run-Watched_example =
    poll_real_run-Watched env settings 9 run (listed ++ listed ++ listed)

abbrev selected : AgentSelection
selected = record { agent_uid = chars "a1"; name = chars "投研 Agent"; raw = agent_item }

selects : select_agent env [] agents_answer ≡ returned selected
unfolding select_agent quest_test.Json.get_or_null quest_test.Json.get
selects = refl

select_agent-Selected_example : Selected env [] agents_answer selected
select_agent-Selected_example = select_agent-Selected env [] agents_answer selected selects

reads_result : (read_real_pipeline_result env settings (pos 1) run listed).0 ≡ returned result
unfolding read_real_pipeline_result quest_test.Json.get_or_null quest_test.Json.get
    quest_test.Json.as_fields quest_test.Service.Research.call_flow_request
    quest_test.Service.Flow.normalize_status
reads_result = refl

read_real_pipeline_result-Accepted_example : Accepted env run result × HasPerformance env report
read_real_pipeline_result-Accepted_example =
    read_real_pipeline_result-Accepted env settings (pos 1) run listed result reads_result
