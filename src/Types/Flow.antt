-- ===== src/Types/Flow.antt =====
-- pkg/wmp/methods.go: the parameters and results of the flow methods.
use go_wmp.Prelude.{String}
use go_wmp.Prelude.Int.{ℤ}
use go_wmp.Types.Json.{Raw}
use go_wmp.Types.Envelope.{Metadata}

pub record FlowStartParams : Type 0 where
  pub wmp : Metadata
  pub flow_type : String
  pub flow_id : String
  pub params : Raw
  pub timeout : ℤ

pub record FlowStartResult : Type 0 where
  pub wmp : Metadata
  pub flow_id : String
  pub flow_type : String

pub record FlowProgressParams : Type 0 where
  pub wmp : Metadata
  pub flow_id : String
  pub step : String
  pub payload : Raw

pub record FlowActionParams : Type 0 where
  pub wmp : Metadata
  pub flow_id : String
  pub action : String
  pub params : Raw

pub record FlowActionResult : Type 0 where
  pub wmp : Metadata
  pub flow_id : String
  pub action : String
  pub status : String

pub record FlowCompleteParams : Type 0 where
  pub wmp : Metadata
  pub flow_id : String
  pub result : Raw

pub record FlowErrorParams : Type 0 where
  pub wmp : Metadata
  pub flow_id : String
  pub code : ℤ
  pub message : String
  pub error_data : Raw

pub record FlowCancelParams : Type 0 where
  pub wmp : Metadata
  pub flow_id : String
  pub reason : String

pub record FlowCancelResult : Type 0 where
  pub wmp : Metadata
  pub flow_id : String
  pub status : String
