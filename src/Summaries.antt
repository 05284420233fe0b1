-- ===== src/Summaries.antt =====
-- pkg/summary: the state of an object, computed by registered summarizers.
pub mod Messages
use brent.Base.{
  String, Bool, true, false, not, ◌&&◌, ◌||◌, Option, none, some, List, [], ◌∷◌, ◌++◌, Dict, lookup,
  insert, ◌==◌, string_eq, if◌then◌else◌, for_each, contains, trim_space, to_lower, join, ◌<>◌,
}
use brent.Api.Attributes.{Convert}
use brent.Api.Types.{Value, text, flag}

-- `Summary`, but for the attributes and the relationships, which the package does not read
pub record Summary : Type 0 where
  pub state : String
  pub error : Bool
  pub transitioning : Bool
  pub message : List String

abbrev pub no_summary : Summary
no_summary = record { state = ""; error = false; transitioning = false; message = [] }

-- `IsReady`
abbrev pub is_ready : Summary → Bool
is_ready s = not s.error && not s.transitioning

abbrev error_mark : Bool → Bool → String
error_mark transitioning true = if transitioning then ",error]" else "error]"
error_mark transitioning false = "]"

abbrev with_message : List String → String
with_message [] = ""
with_message (m ∷ ms) = " " <> join (m ∷ ms) ", "

-- `Summary.String`
unfoldable pub summary_text : Summary → String
unfolding join
summary_text s =
    if not s.transitioning && not s.error
    then s.state
    else (if s.transitioning then "[progressing" else "")
      <> (error_mark s.transitioning s.error <> with_message s.message)

abbrev pub add_message : String → List String → List String
add_message m result = if m == "" || contains result m then result else result ++ m ∷ []

abbrev pub dedup_all : List String → List String → List String
dedup_all [] result = result
dedup_all (m ∷ ms) result = dedup_all ms (add_message (trim_space m) result)

-- `dedupMessage`. What was seen is what stands in the result.
unfoldable pub dedup_message : List String → List String
dedup_message [] = []
dedup_message (m ∷ []) = m ∷ []
dedup_message (m ∷ n ∷ ms) = dedup_all (m ∷ n ∷ ms) []

-- `Condition`: the fields of one entry of `status.conditions`
abbrev pub Condition : Type 0
Condition = Dict String Value

module _ ⦃conv : Convert⦄ where
  -- `Data.String`: a field as the conversions of the schemer library give it
  abbrev pub text_of : String → Condition → String
  text_of k c = conv.to_string (lookup k c)

  -- `Condition.Equals`
  unfoldable pub equals : Condition → Condition → Bool
  equals c d =
      text_of "type" c == text_of "type" d
      && text_of "status" c == text_of "status" d
      && text_of "reason" c == text_of "reason" d
      && text_of "message" c == text_of "message" d

module _ (Obj : Type 0) where
  -- `Summarizer`
  abbrev pub Summarizer : Type 0
  Summarizer = Obj → List Condition → Summary → Summary

  abbrev finished : Summary → Summary
  finished s = record s {
    state = to_lower (if s.state == "" then "active" else s.state);
    message = dedup_message s.message;
  }

  -- `Summarize`, for an object and its conditions
  unfoldable pub summarize : List Summarizer → Obj → List Condition → Summary
  unfolding dedup_message
  summarize summarizers obj conditions =
      finished (for_each summarizers (λ f s. f obj conditions s) no_summary)

  abbrev with_update_time : ⦃conv : Convert⦄ → Condition → Condition
  with_update_time c =
      if text_of "lastUpdateTime" c == ""
      then insert "lastUpdateTime" (text (text_of "lastTransitionTime" c)) c
      else c

  -- one round of `NormalizeConditions`
  unfoldable pub normalize_condition :
      ⦃conv : Convert⦄ → List Summarizer → Obj → Condition → Condition
  normalize_condition summarizers obj c =
      let s = for_each summarizers (λ f s. f obj (c ∷ []) s) no_summary in
      with_update_time
        (insert "transitioning" (flag s.transitioning) (insert "error" (flag s.error) c))

  -- the new conditions of `NormalizeConditions`
  unfoldable pub normalize_conditions :
      ⦃conv : Convert⦄ → List Summarizer → Obj → List Condition → List Condition
  unfolding normalize_condition
  normalize_conditions summarizers obj [] = []
  normalize_conditions summarizers obj (c ∷ cs) =
      normalize_condition summarizers obj c ∷ normalize_conditions summarizers obj cs
