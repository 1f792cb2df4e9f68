-- ===== src/Service/Coverage/Manifest.antt =====
-- `PENDING_FACTOR4_CALCULATION_CASES`, in its order.
use quest_test.Prelude.{String, List, [], ◌∷◌, Text, chars}
use quest_test.Service.Coverage.{CoverageCase}

abbrev case_of : (case_id component title mode oracle : String) → List Text → CoverageCase
case_of case_id component title mode oracle preconditions = record {
  case_id = chars case_id;
  component = chars component;
  title = chars title;
  mode = chars mode;
  oracle = chars oracle;
  required_preconditions = preconditions;
}

unfoldable pub pending_factor4_calculation_cases : List CoverageCase
pending_factor4_calculation_cases =
    case_of "ENV-104-A" "factor4.environment_revision" "revision/PIT 三点边界" "R1_WRITE"
      "revision_pit_selection" (chars "MULTI_REVISION_SAMPLE" ∷ chars "PIT_BOUNDARY_RULE" ∷ [])
    ∷ case_of "LIFE-405-A" "factor4.batch_snapshot" "计算输入快照冻结" "R1_WRITE" "snapshot_immutability"
        (chars "FROZEN_BATCH_SNAPSHOT" ∷ chars "RELATION_VERSION_FIXTURE" ∷ [])
    ∷ case_of "CALC-501-A" "factor4.time_series" "time-series 独立数值重算" "READ_ONLY"
        "time_series_metric"
        (chars "RAW_FACTOR_VALUES"
          ∷ chars "RAW_FORWARD_RETURNS"
          ∷ chars "TS_METRIC_RULE"
          ∷ chars "TS_METRIC_EVIDENCE"
          ∷ [])
    ∷ case_of "CALC-501-B" "factor4.cross_sectional" "cross-sectional 独立数值重算" "READ_ONLY"
        "cross_sectional_metric"
        (chars "MULTI_ASSET_TIME_MATRIX"
          ∷ chars "RAW_FORWARD_RETURNS"
          ∷ chars "CS_METRIC_RULE"
          ∷ chars "CS_METRIC_EVIDENCE"
          ∷ [])
    ∷ case_of "CALC-502-A" "factor4.time_alignment" "时间轴、频率与 forward-return 对齐" "READ_ONLY"
        "time_forward_alignment"
        (chars "RAW_BAR_TIMESTAMPS"
          ∷ chars "FREQUENCY_HORIZON_RULE"
          ∷ chars "FORWARD_RETURN_BOUNDARY_RULE"
          ∷ [])
    ∷ case_of "CALC-502-B" "factor4.gap_policy" "缺口与连续区间策略" "R1_WRITE" "gap_segment_policy"
        (chars "GAP_FIXTURE" ∷ chars "ENVIRONMENT_MASK" ∷ chars "GAP_POLICY_RULE" ∷ [])
    ∷ case_of "CALC-503-A" "factor4.oos_fold" "OOS/fold 独立聚合" "READ_ONLY" "fold_aggregation" (
        chars "RAW_SAMPLE_ROWS"
        ∷ chars "FOLD_BOUNDARIES"
        ∷ chars "FOLD_AGGREGATION_RULE"
        ∷ chars "BATCH_AS_OF_TIME"
        ∷ [])
    ∷ case_of "CALC-503-B" "factor4.future_perturbation" "未来数据扰动不变性" "R1_WRITE"
        "future_data_invariance"
        (chars "FUTURE_PERTURBATION_PAIR"
          ∷ chars "FIXED_AS_OF_SNAPSHOT"
          ∷ chars "SECOND_ISOLATED_RUN"
          ∷ [])
    ∷ case_of "CALC-505-A" "factor4.validity_threshold" "Validity 门槛边界" "R1_WRITE"
        "threshold_boundary"
        (chars "THRESHOLD_BOUNDARY_FIXTURE" ∷ chars "VALIDITY_THRESHOLD_RULE" ∷ [])
    ∷ case_of "CALC-507-B" "factor4.partition_isolation" "跨分区隔离" "R1_WRITE" "partition_isolation"
        (chars "MULTI_PARTITION_FIXTURE" ∷ chars "PARTITION_KEY_CONTRACT" ∷ [])
    ∷ case_of "CALC-508-A" "factor4.zero_cost" "零成本恒等关系" "READ_ONLY" "zero_cost_identity" (
        chars "GROSS_NET_RETURN_ROWS"
        ∷ chars "POSITION_TURNOVER_ROWS"
        ∷ chars "ZERO_COST_CONFIG"
        ∷ [])
    ∷ case_of "CALC-508-B" "factor4.nonzero_cost" "非零成本独立重算" "READ_ONLY"
        "nonzero_cost_recalculation"
        (chars "GROSS_NET_RETURN_ROWS"
          ∷ chars "POSITION_TURNOVER_ROWS"
          ∷ chars "NONZERO_COST_CONFIG"
          ∷ chars "NET_RETURN_EVIDENCE"
          ∷ [])
    ∷ case_of "CALC-510-B" "factor4.operator_oracle" "公式算子数值 Oracle" "READ_ONLY"
        "operator_pointwise_oracle"
        (chars "OPERATOR_ORACLE_FIXTURE"
          ∷ chars "SERVER_POINTWISE_OUTPUT"
          ∷ chars "OPERATOR_SEMANTICS_VERSION"
          ∷ [])
    ∷ case_of "CALC-511-A" "factor4.parent_aggregation" "母因子聚合独立重算" "READ_ONLY" "parent_aggregation"
        (chars "PARENT_RELATION_SNAPSHOT"
          ∷ chars "CHILD_POINTWISE_VALUES"
          ∷ chars "AGGREGATION_RULE"
          ∷ [])
    ∷ case_of "CALC-511-B" "factor4.parent_relation_version" "母子关系版本隔离" "R1_WRITE"
        "relation_version_isolation"
        (chars "RELATION_VERSION_FIXTURE" ∷ chars "TWO_BATCH_EVIDENCE" ∷ chars "CLEANUP_SCOPE" ∷ [])
    ∷ case_of "CALC-512-A" "factor4.repeatability" "真正重复计算一致性" "R1_WRITE"
        "independent_repeatability"
        (chars "FROZEN_INPUT_SNAPSHOT"
          ∷ chars "SECOND_INDEPENDENT_RUN"
          ∷ chars "RUN_EXECUTION_EVIDENCE"
          ∷ [])
    ∷ case_of "CALC-512-B" "factor4.version_isolation" "代码/配置/公式版本隔离" "R1_WRITE"
        "version_identity_isolation"
        (chars "VERSION_VARIANTS" ∷ chars "HISTORICAL_BATCH_EVIDENCE" ∷ chars "ISOLATED_SCOPE" ∷ [])
    ∷ case_of "CALC-509" "factor4.numeric_precision" "数值精度与空值传播" "READ_ONLY"
        "numeric_precision_and_null_propagation"
        (chars "NUMERIC_EDGE_FIXTURE"
          ∷ chars "SERVER_NUMERIC_OUTPUT"
          ∷ chars "NUMERIC_POLICY_RULE"
          ∷ [])
    ∷ []
