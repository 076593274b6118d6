-- ===== src/Deliberation/Types.antt =====
-- The data of services/jurors/src/rubric.ts and of the `Decision` of state.ts.
use bab_takehome.Base.{ℕ, Bool, List, Text, codes, Number}

pub data VerdictLabel : Type 0 where
  uphold reject : VerdictLabel

-- The labels as they are written.
abbrev pub label_text : VerdictLabel → Text
label_text uphold = codes "Uphold"
label_text reject = codes "Reject"

pub record JurorOutput : Type 0 where
  pub verdict : VerdictLabel
  pub confidence : Number
  pub rationale : Text
  pub cited_facts : List Text

pub record Screening : Type 0 where
  pub passed : Bool
  pub reasons : List Text
  pub dropped_facts : ℕ

pub record ScreenedPublic : Type 0 where
  pub rationale : Text
  pub cited_facts : List Text
  pub screening : Screening

pub record ModelInfo : Type 0 where
  pub provider : Text
  pub base_url : Text
  pub requested : Text
  pub resolved : Text
  pub served : Text

pub record Decision : Type 0 where
  pub output : JurorOutput
  pub screened : ScreenedPublic
  pub model : ModelInfo
  pub prompt_version : Text
  pub prompt_hash : Text
  pub packet_sha256 : Text
  pub attempts : ℕ
  pub decided_at : Text
